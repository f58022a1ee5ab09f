-- ===== src/Bulk/Polling.antt =====
-- The polling of a bulk job: it goes on while it is needed, and a result is shown once.
use ha_telink_manager.Prelude.{
  not, ◌&&◌, ℕ, ◌+◌, List, [], ◌∷◌, if◌then◌else◌, Bool-cases, ◌≤◌, ◌<◌, Bool, true, false, Option,
  none, some, ◌≡◌, ◌↔◌, ◌⊎◌, inl, inr, arith, length, Option-cases,
}
use ha_telink_manager.Bulk.{
  Status, Progress, Result, Poller, bulk_poll, bulk_requested, bulk_started, started,
}

-- A poll that gets a status stops the polling exactly when the job has ended and it has no result,
-- or one that has been shown by then.
pub bulk_poll_stops :
    (draws : Bool) (st : Status) (p : Poller)
    → p.polling ≡ true
    → ((bulk_poll draws (some st) p).polling ≡ false) ↔ (
        (st.active ≡ false)
        × ((st.result ≡ none) ⊎ ((bulk_poll draws (some st) p).result_shown ≡ true)))
unfolding bulk_poll
bulk_poll_stops draws st p h = elim (Option-cases st.result) [
  | inl e ↦ ground arith
  | inr (r, e) ↦ ground arith
]

-- A result that could not be drawn is not lost: it stays with the backend, and the panel polls on.
pub bulk_poll_retries :
    (st : Status) (r : Result) (p : Poller)
    → st.result ≡ some r
    → p.result_shown ≡ false
    → ((bulk_poll false (some st) p).result_shown ≡ false)
      × ((bulk_poll false (some st) p).dismissed ≡ false)
      × ((bulk_poll false (some st) p).polling ≡ p.polling)
unfolding bulk_poll
bulk_poll_retries st r p e h = ground arith

-- What happens to the poller: a job is started from this panel, the request to start one is answered, or
-- a poll is.
pub data Event : Type 0 where
  starts : Event
  start_answered : (went_through : Bool) → Event
  polled : (draws : Bool) → Option Status → Event

abbrev pub after_event : Event → Poller → Poller
after_event starts p = bulk_requested p
after_event (start_answered went_through) p = bulk_started went_through p
after_event (polled draws s) p = bulk_poll draws s p

abbrev count_some : Option Result → ℕ
count_some none = 0
count_some (some r) = 1

-- How many results an event puts up; a poll without a status puts up none.
abbrev pub shows : Event → Poller → ℕ
shows (polled draws (some st)) p = count_some (bulk_poll draws (some st) p).shown_result
shows _ p = 0

abbrev pub is_start : Event → ℕ
is_start starts = 1
is_start _ = 0

abbrev pub shown_in : List Event → Poller → ℕ
shown_in [] p = 0
shown_in (e ∷ es) p = shows e p + shown_in es (after_event e p)

abbrev pub starts_in : List Event → ℕ
starts_in [] = 0
starts_in (e ∷ es) = is_start e + starts_in es

-- Whether a result may still be put up.
abbrev pub due : Bool → ℕ
due result_shown = if result_shown then 0 else 1

due_bound : (b : Bool) → due b ≤ 1
due_bound b = ground arith

event_due :
    (e : Event) (p : Poller)
    → shows e p + due (after_event e p).result_shown ≤ is_start e + due p.result_shown
unfolding bulk_poll bulk_requested bulk_started
event_due starts p = omega arith
event_due (start_answered true) p = omega arith
event_due (start_answered false) p = omega arith
event_due (polled draws none) p = omega arith
event_due (polled draws (some st)) p = elim (Option-cases st.result) [
  | inl e ↦ rw (e) (omega arith)
  | inr (r, e) ↦ elim (Bool-cases (not st.active && (not p.result_shown && draws))) [
    | inl k ↦ rw (e, k) (ground (arith, k))
    | inr k ↦ rw (e, k) (omega arith)
  ]
]

-- However the starts, their answers and the polls follow each other, and whatever they say, the panel puts
-- up at most as many results as it starts jobs, and one more if none was marked as shown before.
pub shown_in_bound :
    (es : List Event) (p : Poller) → shown_in es p ≤ starts_in es + due p.result_shown
shown_in_bound [] p = omega arith
shown_in_bound (e ∷ es) p = omega (arith, event_due e p, shown_in_bound es (after_event e p))

-- The strip never claims more devices than there are, nor fewer than are done, and while something
-- runs and something is left it counts at least one more than are done.
pub started_bounds :
    (s : Progress)
    → s.done ≤ s.total
    → (s.done ≤ started s)
      × (started s ≤ s.total)
      × (1 ≤ length s.running → s.done < s.total → s.done < started s)
unfolding started
started_bounds s h = omega arith
