-- ===== src/Screen/Own.antt =====
-- What a click in a history acts on.
use ha_telink_manager.Prelude.{
  ℕ, ◌==◌, length, Bool, true, false, ◌&&◌, Option, none, some, List, [], ◌∷◌, String, has,
  if◌then◌else◌, ◌≡◌, refl, arith, ap, sym, ◌∙◌, Bool-cases, inl, inr, subst,
}
use mathlib.Core.Bool.{false≢true}
use mathlib.Core.Option.{some-injective, none-ne-some}
use ha_telink_manager.Screen.{
  Window, Matrix, Body, blank, device_list, matrix, Screen, shell, draw, open_compare,
  compare_loaded, rescanned, open_snapshots, toggle, snapshots_loaded, history_loaded, deleted,
  acted, start, expand, is_expanded, in_list, is_connected, history_drawn, expand_if, list_drawn,
  acted_in, draw_body, draw_changes,
}

-- The device of a view.
abbrev pub owner : ℕ → List String → Option String
owner v [] = none
owner v (mac ∷ macs) = let rest = owner v macs in if v == length macs then some mac else rest

abbrev pub is_matrix : Body → Bool
is_matrix (matrix m) = true
is_matrix blank = false
is_matrix (device_list macs) = false

abbrev pub is_list : Body → Bool
is_list (device_list macs) = true
is_list blank = false
is_list (matrix m) = false

abbrev pub has_rows : Option Matrix → Bool
has_rows none = false
has_rows (some m) = elim m.rows [ [] ↦ false | row ∷ rows ↦ true ]

-- What can happen, in any order. The answer of a re-read is one that comes while the window still holds a
-- matrix, and the matrix of a history is drawn again (by its checkbox) where it is there.
pub data Reach : Screen → Type 0 where
  begin : Reach start
  compare_opens : {s : Screen} → Reach s → Reach (open_compare s)
  snapshots_open : {s : Screen} → Reach s → Reach (open_snapshots s)
  changes_window : {s : Screen} (w : Option Window) → Reach s → Reach (shell w s)
  compare_answers : {s : Screen} (rows : List String) → Reach s → Reach (compare_loaded rows s)
  snapshots_answer :
      {s : Screen} (macs : List String) (mac : Option String)
      → Reach s
      → Reach (snapshots_loaded macs mac s)
  presses : {s : Screen} (mac : String) → Reach s → Reach (toggle mac s)
  history_answers :
      {s : Screen} (mac : String) (v : ℕ) (rows ids : List String)
      → Reach s
      → owner v s.views ≡ some mac
      → Reach (history_loaded mac v rows ids s)
  delete_answers : {s : Screen} (v : ℕ) → Reach s → Reach (deleted v s)
  rescan_answers : {s : Screen} → Reach s → is_matrix s.body ≡ true → Reach (rescanned s)
  redraws : {s : Screen} → Reach s → has_rows s.changes ≡ true → Reach (draw s)

-- The view that is open is its device's, and what it shows is that device's history.
abbrev pub Owns : Option (String × ℕ) → Option Matrix → Screen → Type 0
Owns none m s = Unit
Owns (some view) none s = owner view.1 s.views ≡ some view.0
Owns (some view) (some m) s =
    (owner view.1 s.views ≡ some view.0)
    × (m.device ≡ some view.0)
    × (s.snap_by_id.0 ≡ view.0)
    × (has_rows (some m) ≡ true → s.cmp ≡ m)

pub record IsOwn (s : Screen) : Type 0 where
  pub owns : Owns s.expanded s.changes s
  pub windowed : s.window ≡ none → is_list s.body ≡ false
  pub listed : is_list s.body ≡ false → s.expanded ≡ none
  pub aimed : s.on_changes ≡ false → s.expanded ≡ none

-- Nothing is expanded.
closed : {s : Screen} → s.expanded ≡ none → (s.window ≡ none → is_list s.body ≡ false) → IsOwn s
closed {s} e k = record {
  owns = subst (λ o. Owns o s.changes s) (sym e) tt;
  windowed = k;
  listed = λ h. e;
  aimed = λ h. e;
}

-- A view is expanded in a list.
opened :
    {s : Screen} (view : String × ℕ) (c : Option Matrix)
    → s.expanded ≡ some view
    → s.changes ≡ c
    → is_list s.body ≡ true
    → s.on_changes ≡ true
    → (s.window ≡ none → is_list s.body ≡ false)
    → Owns (some view) c s
    → IsOwn s
opened {s} view c e k b a w o = record {
  owns = subst (λ o. Owns o s.changes s) (sym e) (subst (λ c. Owns (some view) c s) (sym k) o);
  windowed = w;
  listed = λ h. absurd (false≢true (sym h ∙ b));
  aimed = λ h. absurd (false≢true (sym h ∙ a));
}

draw_cases :
    (b : Bool) (s : Screen)
    → (b ≡ true → IsOwn (draw_changes s.expanded s))
    → (b ≡ false → IsOwn (draw_body s.window s))
    → IsOwn (if b then draw_changes s.expanded s else draw_body s.window s)
draw_cases true s h k = h refl
draw_cases false s h k = k refl

-- Drawing in the window's body leaves nothing expanded.
body_drawn :
    (s : Screen) (w : Option Window)
    → s.window ≡ w
    → (w ≡ none → s.expanded ≡ none)
    → (s.window ≡ none → is_list s.body ≡ false)
    → IsOwn (draw_body w s)
body_drawn s none e h k = closed (h refl) k
body_drawn s (some w) e h k = closed refl (λ q. absurd (none-ne-some _ (sym q ∙ e)))

compare_loaded-IsOwn : (rows : List String) (s : Screen) → IsOwn s → IsOwn (compare_loaded rows s)
unfolding compare_loaded draw
compare_loaded-IsOwn rows s i =
    body_drawn (record s { cmp = record { device = none; rows = rows }; on_changes = false })
      s.window refl (λ e. i.listed (i.windowed e)) i.windowed

is_matrix-is_list : (b : Body) → is_matrix b ≡ true → is_list b ≡ false
is_matrix-is_list blank h = refl
is_matrix-is_list (device_list macs) h = absurd (false≢true h)
is_matrix-is_list (matrix m) h = refl

-- Where nothing is expanded, a drawing keeps it so.
draw_closed : (s : Screen) → IsOwn s → s.expanded ≡ none → IsOwn (draw s)
unfolding draw
draw_closed s i e =
    draw_cases s.on_changes s (λ b. go s.expanded e)
      (λ b. body_drawn s s.window refl (λ h. e) i.windowed)
  where
    go : (o : Option (String × ℕ)) → o ≡ none → IsOwn (draw_changes o s)
    go none h = i
    go (some view) h = absurd (none-ne-some _ (sym h))

-- The history of the view that is open is drawn.
changes_drawn :
    (s : Screen) (view : String × ℕ)
    → s.expanded ≡ some view
    → is_list s.body ≡ true
    → (s.window ≡ none → is_list s.body ≡ false)
    → s.on_changes ≡ true
    → owner view.1 s.views ≡ some view.0
    → s.cmp.device ≡ some view.0
    → s.snap_by_id.0 ≡ view.0
    → IsOwn (draw s)
unfolding draw
changes_drawn s view e l w a o d q =
    draw_cases s.on_changes s (λ b. go s.expanded e) (λ b. absurd (false≢true (sym b ∙ a)))
  where
    go : (x : Option (String × ℕ)) → x ≡ some view → IsOwn (draw_changes x s)
    go none h = absurd (none-ne-some _ h)
    go (some x) h = opened view (some s.cmp) e refl l a w (o, d, q, λ k. refl)

expanded_list :
    {s : Screen} (view : String × ℕ)
    → IsOwn s
    → s.expanded ≡ some view
    → (is_list s.body ≡ true) × (s.on_changes ≡ true)
expanded_list {s} view i e = (
  elim (Bool-cases (is_list s.body)) [
    | inl h ↦ h
    | inr h ↦ absurd (none-ne-some _ (sym (i.listed h) ∙ e))
  ],
  elim (Bool-cases s.on_changes) [
    | inl h ↦ h
    | inr h ↦ absurd (none-ne-some _ (sym (i.aimed h) ∙ e))
  ],
)

owner_of :
    (s : Screen) (view : String × ℕ) (c : Option Matrix)
    → Owns (some view) c s
    → owner view.1 s.views ≡ some view.0
owner_of s view none o = o
owner_of s view (some m) (o, d, q, k) = o

-- What is known where a view is expanded.
owned :
    {s : Screen} (view : String × ℕ)
    → IsOwn s
    → s.expanded ≡ some view
    → Owns (some view) s.changes s
owned {s} view i e = subst (λ o. Owns o s.changes s) e i.owns

redraws-IsOwn : (s : Screen) → IsOwn s → has_rows s.changes ≡ true → IsOwn (draw s)
redraws-IsOwn s i h = go s.expanded s.changes refl refl
  where
    go :
        (o : Option (String × ℕ)) (c : Option Matrix)
        → s.expanded ≡ o
        → s.changes ≡ c
        → IsOwn (draw s)
    go none c e k = draw_closed s i e
    go (some view) none e k = absurd (false≢true (sym (ap has_rows k) ∙ h))
    go (some view) (some m) e k =
        let (o, d, q, p) = subst (λ c. Owns (some view) c s) k (owned view i e) in
        let (l, a) = expanded_list view i e in
        changes_drawn s view e l i.windowed a o
          (ap (λ (x : Matrix). x.device) (p (sym (ap has_rows k) ∙ h)) ∙ d) q

connected_view :
    (v : ℕ) (o : Option (String × ℕ))
    → is_connected v o ≡ true
    → (view : String × ℕ) × (o ≡ some view) × (view.1 ≡ v)
connected_view v none h = absurd (false≢true h)
connected_view v (some view) h = (view, refl, ground (arith, h))

history_drawn-IsOwn :
    (mac : String) (rows ids : List String) (s : Screen) (view : String × ℕ)
    → IsOwn s
    → s.expanded ≡ some view
    → view.0 ≡ mac
    → IsOwn (history_drawn mac rows ids s)
history_drawn-IsOwn mac [] ids s view i e m =
    let (l, a) = expanded_list view i e in
    opened view (some (record { device = some mac; rows = [] })) e refl l a i.windowed (
      owner_of s view s.changes (owned view i e),
      ap some (sym m),
      sym m,
      λ h. absurd (false≢true h),
    )
history_drawn-IsOwn mac (row ∷ rows) ids s view i e m =
    let (l, a) = expanded_list view i e in
    changes_drawn
      (record s { snap_by_id = (mac, ids); cmp = record { device = some mac; rows = row ∷ rows } })
      view e l i.windowed a (owner_of s view s.changes (owned view i e)) (ap some (sym m)) (sym m)

history_loaded-IsOwn :
    (mac : String) (v : ℕ) (rows ids : List String) (s : Screen)
    → IsOwn s
    → owner v s.views ≡ some mac
    → IsOwn (history_loaded mac v rows ids s)
unfolding history_loaded
history_loaded-IsOwn mac v rows ids s i o = elim (Bool-cases (is_connected v s.expanded)) [
  | inl h ↦
      let (view, e, n) = connected_view v s.expanded h in
      let same : some view.0 ≡ some mac =
        sym (owner_of s view s.changes (owned view i e)) ∙ ap (λ (x : ℕ). owner x s.views) n ∙ o in
      rw (h) (history_drawn-IsOwn mac rows ids s view i e (some-injective _ _ same))
  | inr h ↦ rw (h) i
]

deleted-IsOwn : (v : ℕ) (s : Screen) → IsOwn s → IsOwn (deleted v s)
unfolding deleted
deleted-IsOwn v s i = elim (Bool-cases (is_connected v s.expanded)) [
  | inl h ↦
      let (view, e, n) = connected_view v s.expanded h in
      let (l, a) = expanded_list view i e in
      rw (h)
        (opened view none e refl l refl i.windowed (owner_of s view s.changes (owned view i e)))
  | inr h ↦ rw (h) (go s.expanded refl)
]
  where
    go : (o : Option (String × ℕ)) → s.expanded ≡ o → IsOwn (record s { on_changes = true })
    go none e = closed e i.windowed
    go (some view) e =
        let (l, a) = expanded_list view i e in
        opened view s.changes e refl l refl i.windowed (own s.changes (owned view i e))
      where
        own :
            (c : Option Matrix)
            → Owns (some view) c s
            → Owns (some view) c (record s { on_changes = true })
        own none o = o
        own (some m) o = o

in_list-is_list : (mac : String) (b : Body) → in_list mac b ≡ true → is_list b ≡ true
in_list-is_list mac blank h = h
in_list-is_list mac (device_list macs) h = refl
in_list-is_list mac (matrix m) h = h

expand-IsOwn : (mac : String) (s : Screen) → IsOwn s → is_list s.body ≡ true → IsOwn (expand mac s)
expand-IsOwn mac s i l =
    let e : (length s.views == length s.views) ≡ true = ground arith in
    opened (mac, length s.views) none refl refl l refl i.windowed (rw (e) refl)

toggle-IsOwn : (mac : String) (s : Screen) → IsOwn s → IsOwn (toggle mac s)
unfolding toggle
toggle-IsOwn mac s i = elim (Bool-cases (in_list mac s.body)) [
  | inl h ↦ elim (Bool-cases (is_expanded mac s.expanded)) [
    | inl k ↦ rw (h, k) (closed refl i.windowed)
    | inr k ↦ rw (h, k) (expand-IsOwn mac s i (in_list-is_list mac s.body h))
  ]
  | inr h ↦ rw (h) i
]

list_drawn-IsOwn :
    (w : Option Window) (macs : List String) (mac : Option String) (s : Screen)
    → s.window ≡ w
    → IsOwn s
    → IsOwn (list_drawn w macs mac s)
list_drawn-IsOwn none macs mac s e i = i
list_drawn-IsOwn (some w) macs mac s e i = go mac
  where
    fresh : IsOwn (record s { body = device_list macs; expanded = none; changes = none })
    fresh = closed refl (λ h. absurd (none-ne-some _ (sym h ∙ e)))

    go :
        (mac : Option String)
        → IsOwn
            (expand_if mac (record s { body = device_list macs; expanded = none; changes = none }))
    go none = fresh
    go (some m) =
        toggle-IsOwn m (record s { body = device_list macs; expanded = none; changes = none }) fresh

Reach-IsOwn : {s : Screen} → Reach s → IsOwn s
unfolding shell open_compare open_snapshots rescanned snapshots_loaded
Reach-IsOwn begin = closed refl (λ h. refl)
Reach-IsOwn (compare_opens r) = closed refl (λ h. refl)
Reach-IsOwn (snapshots_open r) = closed refl (λ h. refl)
Reach-IsOwn (changes_window w r) = closed refl (λ h. refl)
Reach-IsOwn (compare_answers {s} rows r) = compare_loaded-IsOwn rows s (Reach-IsOwn r)
Reach-IsOwn (snapshots_answer {s} macs mac r) =
    list_drawn-IsOwn s.window macs mac s refl (Reach-IsOwn r)
Reach-IsOwn (presses {s} mac r) = toggle-IsOwn mac s (Reach-IsOwn r)
Reach-IsOwn (history_answers {s} mac v rows ids r o) =
    history_loaded-IsOwn mac v rows ids s (Reach-IsOwn r) o
Reach-IsOwn (delete_answers {s} v r) = deleted-IsOwn v s (Reach-IsOwn r)
Reach-IsOwn (rescan_answers {s} r h) =
    draw_closed s (Reach-IsOwn r) ((Reach-IsOwn r).listed (is_matrix-is_list s.body h))
Reach-IsOwn (redraws {s} r h) = redraws-IsOwn s (Reach-IsOwn r) h

picked :
    (b : Bool) (p : String × String) {r : String × String}
    → (if b then some p else none) ≡ some r
    → p ≡ r
picked true p e = some-injective _ _ e
picked false p e = absurd (none-ne-some _ e)

acted_own :
    (id : String) (s : Screen) (o : Option (String × ℕ)) (c : Option Matrix)
    → Owns o c s
    → (device source : String) → acted_in id o c s.snap_by_id ≡ some (device, source)
    → (source ≡ device) × ((m : Matrix) → c ≡ some m → m.device ≡ some device)
acted_own id s none c h device source e = absurd (none-ne-some _ e)
acted_own id s (some view) none h device source e = absurd (none-ne-some _ e)
acted_own id s (some view) (some m) (o, d, q, k) device source e =
    let p : (view.0, s.snap_by_id.0) ≡ (device, source) =
      picked (has id m.rows && has id s.snap_by_id.1) (view.0, s.snap_by_id.0) e in
    let a : view.0 ≡ device = ap (λ (x : String × String). x.0) p in
    (
      sym (ap (λ (x : String × String). x.1) p) ∙ q ∙ a,
      λ x h. ap (λ (y : Matrix). y.device) (sym (some-injective _ _ h)) ∙ d ∙ ap some a,
    )

-- In whatever order windows are opened and closed, devices are expanded and answers come, as long as no
-- re-read of the Compare window is answered while the window holds no matrix: a click on Restore or Clone
-- in a device's history takes a snapshot of that very device, and the matrix that is shown there is its own.
pub Reach-acted :
    {s : Screen}
    → Reach s
    → (id device source : String) → acted id s ≡ some (device, source)
    → (source ≡ device) × ((m : Matrix) → s.changes ≡ some m → m.device ≡ some device)
unfolding acted
Reach-acted {s} r id device source e =
    acted_own id s s.expanded s.changes (Reach-IsOwn r).owns device source e
