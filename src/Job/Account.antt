-- ===== src/Job/Account.antt =====
-- The counts of the bulk job.
use ha_telink_manager.Prelude.{
  ℕ, ◌+◌, ◌≤◌, Bool, true, false, Option, none, some, List, [], ◌∷◌, ◌++◌, map, length, String,
  if◌then◌else◌, str_eq, ◌≡◌, refl, arith, sym, ap, subst, ◌∙◌, Bool-cases, inl, inr,
}
use mathlib.Core.Bool.{false≢true}
use mathlib.Core.Option.{some-injective, none-ne-some}
use ha_telink_manager.Job.{
  Worker, waiting, working, finished, Outcome, fine, error, Result, Job, next, counted, put_worker,
  end_job, cancel_job, dismiss, AllFinished, begins, answers, ends, Step, works, cancels, dismisses,
  Reach, here, there, group, start, started, fresh, is_active, proxy_of, grouped,
}

-- The devices that a worker has not accounted for yet.
unfoldable pub load : Worker → ℕ
load (waiting devs) = length devs
load (working mac devs) = length devs + 1
load finished = 0

unfoldable pub load_all : List Worker → ℕ
unfolding load
load_all [] = 0
load_all (w ∷ ws) = load w + load_all ws

pub load_all-append :
    (before : List Worker) (w : Worker) (after : List Worker)
    → load_all (before ++ (w ∷ after)) ≡ load w + load_all (before ++ after)
unfolding load_all
load_all-append [] w after = refl
load_all-append (v ∷ before) w after = omega (arith, load_all-append before w after)

pub load-next : (c : Bool) (devs : List String) → load (next c devs) ≤ length devs
unfolding load next
load-next c [] = ground arith
load-next true (d ∷ devs) = ground arith
load-next false (d ∷ devs) = ground arith

load-next-false : (devs : List String) → load (next false devs) ≡ length devs
unfolding load next
load-next-false [] = refl
load-next-false (d ∷ devs) = omega arith

-- What a result says: every device is counted once, as done or as a listed failure; all of them are, unless
-- the job was cancelled.
pub data IsSummary (r : Result) : Type 0 where
  summary :
      r.ok + r.fail ≤ r.total
      → length r.failures ≡ r.fail
      → (r.cancelled ≡ false → r.ok + r.fail ≡ r.total)
      → IsSummary r

pub data IsSummed : Option Result → Type 0 where
  no_result : IsSummed none
  a_result : {r : Result} → IsSummary r → IsSummed (some r)

pub data IsAccounted (j : Job) : Type 0 where
  accounted :
      j.done ≡ j.ok + j.fail
      → length j.failures ≡ j.fail
      → j.done + load_all j.workers ≤ j.total
      → (j.cancel ≡ false → j.done + load_all j.workers ≡ j.total)
      → IsSummed j.result
      → IsAccounted j

pub AllFinished-load : (ws : List Worker) → AllFinished ws → load_all ws ≡ 0
unfolding load_all
AllFinished-load [] h = refl
AllFinished-load (w ∷ ws) (p, h) = rw (p, AllFinished-load ws h) refl

length-snoc :
    (fs : List (String × String)) (f : String × String) → length (fs ++ (f ∷ [])) ≡ length fs + 1
length-snoc [] f = refl
length-snoc (g ∷ fs) f = omega (arith, length-snoc fs f)

-- The load where one worker is singled out.
at_worker :
    (j : Job) (before : List Worker) (w : Worker) (after : List Worker)
    → j.workers ≡ before ++ (w ∷ after)
    → load_all j.workers ≡ load w + load_all (before ++ after)
at_worker j before w after e = ap load_all e ∙ load_all-append before w after

begins-IsAccounted :
    (j : Job) (before after : List Worker) (devs : List String)
    → j.workers ≡ before ++ (waiting devs ∷ after)
    → IsAccounted j
    → IsAccounted (put_worker before (next j.cancel devs) after j)
unfolding load
begins-IsAccounted j before after devs e (accounted a b c d r) =
    let old = at_worker j before (waiting devs) after e in
    let new = load_all-append before (next j.cancel devs) after in
    let le = load-next j.cancel devs in
    accounted a b (omega (arith, old, new, le, c))
      (λ k.
        let same : load (next j.cancel devs) ≡ length devs =
          subst (λ q. load (next q devs) ≡ length devs) (sym k) (load-next-false devs) in
        omega (arith, old, new, same, d k))
      r

answers-IsAccounted :
    (j : Job) (before after : List Worker) (mac : String) (devs : List String) (o : Outcome)
    → j.workers ≡ before ++ (working mac devs ∷ after)
    → IsAccounted j
    → IsAccounted (put_worker before (next j.cancel devs) after (counted mac o j))
unfolding load
answers-IsAccounted j before after mac devs fine e (accounted a b c d r) =
    let old = at_worker j before (working mac devs) after e in
    let new = load_all-append before (next j.cancel devs) after in
    let le = load-next j.cancel devs in
    accounted (omega (arith, a)) b (omega (arith, old, new, le, c))
      (λ k.
        let same : load (next j.cancel devs) ≡ length devs =
          subst (λ q. load (next q devs) ≡ length devs) (sym k) (load-next-false devs) in
        omega (arith, old, new, same, d k))
      r
answers-IsAccounted j before after mac devs (error m) e (accounted a b c d r) =
    let old = at_worker j before (working mac devs) after e in
    let new = load_all-append before (next j.cancel devs) after in
    let le = load-next j.cancel devs in
    accounted (omega (arith, a)) (length-snoc j.failures (mac, m) ∙ ap (λ n. n + 1) b)
      (omega (arith, old, new, le, c))
      (λ k.
        let same : load (next j.cancel devs) ≡ length devs =
          subst (λ q. load (next q devs) ≡ length devs) (sym k) (load-next-false devs) in
        omega (arith, old, new, same, d k))
      r

ends-IsAccounted : (j : Job) → AllFinished j.workers → IsAccounted j → IsAccounted (end_job j)
unfolding end_job
ends-IsAccounted j h (accounted a b c d r) =
    let none_left = AllFinished-load j.workers h in
    accounted a b c d (
      a_result (summary (omega (arith, a, c, none_left)) b (λ k. omega (arith, a, d k, none_left))))

cancels-IsAccounted : (j : Job) → IsAccounted j → IsAccounted (cancel_job j)
unfolding cancel_job
cancels-IsAccounted j (accounted a b c d r) = go j.active
  where
    go : (on : Bool) → IsAccounted (if on then record j { cancel = true } else j)
    go true = accounted a b c (λ k. absurd (false≢true (sym k))) r
    go false = accounted a b c d r

dismisses-IsAccounted : (j : Job) → IsAccounted j → IsAccounted (dismiss j)
unfolding dismiss
dismisses-IsAccounted j (accounted a b c d r) = go j.active
  where
    go : (on : Bool) → IsAccounted (if on then j else record j { result = none })
    go true = accounted a b c d r
    go false = accounted a b c d no_result

Step-IsAccounted : {j k : Job} → Step j k → IsAccounted j → IsAccounted k
Step-IsAccounted (works (begins {j} before after devs e)) h =
    begins-IsAccounted j before after devs e h
Step-IsAccounted (works (answers {j} before after mac devs o e)) h =
    answers-IsAccounted j before after mac devs o e h
Step-IsAccounted (works (ends {j} on e)) h = ends-IsAccounted j e h
Step-IsAccounted (cancels {j}) h = cancels-IsAccounted j h
Step-IsAccounted (dismisses {j}) h = dismisses-IsAccounted j h

Reach-kept : {j k : Job} → Reach j k → IsAccounted j → IsAccounted k
Reach-kept here h = h
Reach-kept (there r s) h = Step-IsAccounted s (Reach-kept r h)

-- The groups hold each MAC address that is counted.
load_groups : List (String × List String) → ℕ
load_groups gs = load_all (map (λ (g : String × List String). waiting g.1) gs)

length_last : (macs : List String) (mac : String) → length (macs ++ (mac ∷ [])) ≡ length macs + 1
length_last [] mac = refl
length_last (m ∷ macs) mac = omega (arith, length_last macs mac)

load_groups-group :
    (proxy mac : String) (gs : List (String × List String))
    → load_groups (group proxy mac gs) ≡ load_groups gs + 1
unfolding load_groups load_all load group
load_groups-group proxy mac [] = refl
load_groups-group proxy mac ((p, macs) ∷ gs) = elim (Bool-cases (str_eq p proxy)) [
  | inl e ↦ rw (e) (omega (arith, length_last macs mac))
  | inr e ↦ rw (e) (omega (arith, load_groups-group proxy mac gs))
]

load_groups-grouped :
    (entries : List (String × String)) (gs : List (String × List String)) (n : ℕ)
    → load_groups gs ≡ n
    → load_groups (grouped entries gs n).0 ≡ (grouped entries gs n).1
unfolding grouped
load_groups-grouped [] gs n h = h
load_groups-grouped ((mac, proxy) ∷ entries) gs n h = elim (Bool-cases (str_eq mac "")) [
  | inl e ↦ rw (e) (load_groups-grouped entries gs n h)
  | inr e ↦ rw (e) (
      load_groups-grouped entries (group (proxy_of proxy) mac gs) (n + 1)
        (load_groups-group (proxy_of proxy) mac gs ∙ ap (λ k. k + 1) h))
]

fresh-IsAccounted :
    (gs : List (String × List String)) (n : ℕ) → load_groups gs ≡ n → IsAccounted (fresh gs n)
unfolding load_groups
fresh-IsAccounted gs n h = accounted refl refl (omega (arith, h)) (λ k. omega (arith, h)) no_result

started-IsAccounted :
    (gs : List (String × List String)) (n : ℕ) {j : Job}
    → load_groups gs ≡ n
    → started (gs, n) ≡ some j
    → IsAccounted j
started-IsAccounted [] n h e = absurd (none-ne-some _ e)
started-IsAccounted (g ∷ gs) n h e =
    subst IsAccounted (some-injective _ _ e) (fresh-IsAccounted (g ∷ gs) n h)

start-IsAccounted :
    (old : Option Job) (entries : List (String × String)) {j : Job}
    → start old entries ≡ some j
    → IsAccounted j
unfolding start load_groups load_all
start-IsAccounted old entries {j} e = go (is_active old) e
  where
    go :
        (on : Bool) → (if on then none else started (grouped entries [] 0)) ≡ some j → IsAccounted j
    go true e' = absurd (none-ne-some _ e')
    go false e' =
        started-IsAccounted (grouped entries [] 0).0 (grouped entries [] 0).1
          (load_groups-grouped entries [] 0 refl) e'

-- In any interleaving of the workers, the devices' answers and the panels' requests, a job counts each
-- device once as done or failed and lists each failure, never more devices than it was started with; and
-- the result that it leaves accounts for every device unless the job was cancelled.
pub Reach-IsAccounted :
    (old : Option Job) (entries : List (String × String)) {j k : Job}
    → start old entries ≡ some j
    → Reach j k
    → IsAccounted k
Reach-IsAccounted old entries e r = Reach-kept r (start-IsAccounted old entries e)
