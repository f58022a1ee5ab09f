-- ===== src/Session/Busy.antt =====
-- The busy guard lets go: a panel that is busy has a request under way that will end it, or a modal
-- open whose closing does.
use ha_telink_manager.Prelude.{
  ℕ, ◌==◌, Bool, true, false, ◌||◌, none, some, List, [], ◌∷◌, ◌++◌, String, ◌≡◌, refl, ◌⊎◌, inl,
  inr, arith, any, ◌∙◌, Option-cases,
}
use ha_telink_manager.Session.{
  Panel, Task, scan_devices, scan_backups, read, command, write, ask_clear_lcd,
}
use ha_telink_manager.Session.Tasks.{Answer, ReadReply, WriteReply, CmdReply, resume}
use ha_telink_manager.Session.World.{
  World, Step, acts, answers, Action, act, Enabled, Reach, here, next, fresh,
}

-- The requests that end the guard when they are answered.
abbrev pub ends_op : ℕ → Task → Bool
ends_op op (scan_devices token prev) = token == op
ends_op op (scan_backups token) = token == op
ends_op op (read mac token tb) = token == op
ends_op op _ = false

abbrev pub IsFreed : World → Type 0
IsFreed w =
    w.panel.busy ≡ true → (any (ends_op w.panel.op) w.tasks ≡ true) ⊎ (w.panel.modal_open ≡ true)

any-append : (p : Task → Bool) (xs ys : List Task) → any p (xs ++ ys) ≡ (any p xs || any p ys)
any-append p [] ys = refl
any-append p (x ∷ xs) ys = ground (arith, any-append p xs ys)

-- An action either leaves the token, and then the guard is as it was or has a new request behind it.
act-busy :
    (a : Action) (p : Panel)
    → Enabled p a
    → (act a p).0.busy ≡ true
    → (any (ends_op (act a p).0.op) (act a p).1 ≡ true)
      ⊎ ((act a p).0.modal_open ≡ true)
      ⊎ ((p.busy ≡ true) × ((act a p).0.op ≡ p.op) × ((act a p).0.modal_open ≡ p.modal_open))
unfolding act
act-busy Action.refresh p e h = ground arith
act-busy (Action.press_command shows) p e h = ground arith
act-busy a p e h = ground arith

-- So does an answer; and where its task held the guard, the guard has ended or been handed on.
resume-busy :
    (t : Task) (r : Answer t) (p : Panel)
    → (resume t r p).0.busy ≡ true
    → (any (ends_op (resume t r p).0.op) (resume t r p).1 ≡ true)
      ⊎ ((resume t r p).0.modal_open ≡ true)
      ⊎ ((p.busy ≡ true)
          × ((resume t r p).0.op ≡ p.op)
          × ((resume t r p).0.modal_open ≡ p.modal_open)
          × (ends_op p.op t ≡ false))
unfolding resume
resume-busy (scan_devices token prev) none p h = ground arith
resume-busy (read mac token tb) ReadReply.failed p h = ground arith
resume-busy (write mac token) WriteReply.failed p h = ground arith
resume-busy (command token none) CmdReply.failed p h = ground arith
resume-busy (command token none) (CmdReply.ok none) p h = ground arith
resume-busy _ r p h = ground arith

any-append_left : (p : Task → Bool) (xs ys : List Task) → any p xs ≡ true → any p (xs ++ ys) ≡ true
any-append_left p xs ys e = ground (arith, any-append p xs ys)

any-append_right : (p : Task → Bool) (xs ys : List Task) → any p ys ≡ true → any p (xs ++ ys) ≡ true
any-append_right p xs ys e = ground (arith, any-append p xs ys)

any_drop :
    (p : Task → Bool) (before : List Task) (t : Task) (after : List Task)
    → any p (before ++ t ∷ after) ≡ true
    → p t ≡ false
    → any p (before ++ after) ≡ true
any_drop p before t after h e =
    ground (arith, any-append p before (t ∷ after), any-append p before after)

Step-IsFreed : {w w' : World} → Step w w' → IsFreed w → IsFreed w'
Step-IsFreed {w} {w'} (acts a e p ts) f =
    rw (p, ts)
      (λ h. elim (act-busy a w.panel e h) [
        | inl x ↦ inl (any-append_right _ w.tasks _ x)
        | inr (inl x) ↦ inr x
        | inr (inr (b, o, m)) ↦ elim (f b) [
          | inl x ↦ inl (any-append_left _ w.tasks _ (rw o x))
          | inr x ↦ inr (m ∙ x)
        ]
      ])
Step-IsFreed {w} {w'} (answers before after t r e p ts) f =
    rw (p, ts)
      (λ h. elim (resume-busy t r w.panel h) [
        | inl x ↦ inl (any-append_right _ (before ++ after) _ x)
        | inr (inl x) ↦ inr x
        | inr (inr (b, o, m, other)) ↦ elim (f b) [
          | inl x ↦ inl (
              any-append_left _ (before ++ after) _
                (rw o (any_drop _ before t after (rw e at x) other)))
          | inr x ↦ inr (m ∙ x)
        ]
      ])

fresh_idle : fresh.busy ≡ false
unfolding fresh
fresh_idle = refl

-- A busy panel that the session comes to has a request whose answer ends the guard, or an open modal.
pub Reach-IsFreed : {w : World} → Reach w → IsFreed w
Reach-IsFreed here = λ h. cc fresh_idle
Reach-IsFreed (next r st) = Step-IsFreed st (Reach-IsFreed r)

-- The answer to a request that holds the guard ends it, or, after a scan's devices, hands it on to
-- the request for the snapshot counts.
pub resume-ends :
    (t : Task) (r : Answer t) (p : Panel)
    → ends_op p.op t ≡ true
    → ((resume t r p).0.busy ≡ false) ⊎ ((resume t r p).1 ≡ scan_backups p.op ∷ [])
unfolding resume
resume-ends (scan_devices token prev) none p h = ground arith
resume-ends (scan_devices token prev) (some devs) p h = ground arith
resume-ends (scan_backups token) r p h = ground arith
resume-ends (read mac token tb) r p h = ground arith
resume-ends _ r p h = cc

-- Closing a modal frees the panel at once, or asks about the number left on the LCD and frees it
-- when that question has been answered, either way.
pub close_frees :
    (p : Panel)
    → (((act Action.close p).0.busy ≡ false) × ((act Action.close p).0.modal_open ≡ false))
      ⊎ ((mac : String) × ((act Action.close p).1 ≡ ask_clear_lcd mac ∷ [])
          × ((yes_to : Bool) (q : Panel) → (resume (ask_clear_lcd mac) yes_to q).0.busy ≡ false))
unfolding act resume
close_frees p = elim (Option-cases p.lcd_permanent) [
  | inl e ↦ inl (ground arith)
  | inr (mac, e) ↦ inr (mac, ground arith, λ yes_to q. refl)
]
