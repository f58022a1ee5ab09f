-- ===== src/Bulk/Tests.antt =====
-- A bulk job over a concrete fleet.
use ha_telink_manager.Prelude.{List, ◌≤◌, ◌+◌, true, false, none, some, [], ◌∷◌, ◌≡◌, refl}
use ha_telink_manager.Bulk.{
  custom, ReadAll, minus_85, Result, Status, Poller, bulk_poll, bulk_requested, bulk_started,
}
use ha_telink_manager.Bulk.Polling.{
  Event, starts, start_answered, polled, shown_in, starts_in, due, shown_in_bound,
}

abbrev unpicked : ReadAll
unpicked = record { preset = custom; threshold = minus_85; sel = [] }

abbrev outcome : Result
outcome = record {
  encrypts = false;
  enable = false;
  cancelled = false;
  failures = ("A4:C1:38:00:00:01", "timeout") ∷ [];
}

abbrev ended : Status
ended = record { active = false; progress = none; result = some outcome }

abbrev waiting : Poller
waiting = record {
  status = none;
  result_shown = false;
  polling = true;
  backup_macs = [];
  shown_result = none;
  dismissed = false;
}

-- The result is put up once, another one behind a start, and none at the polls between.
abbrev events : List Event
events =
    polled true (some ended)
    ∷ polled true (some ended)
    ∷ starts
    ∷ polled true none
    ∷ start_answered true
    ∷ polled true (some ended)
    ∷ polled true (some ended)
    ∷ []

two_shown : shown_in events waiting ≡ 2
unfolding bulk_poll bulk_requested bulk_started
two_shown = refl

shown_in_bound_example : shown_in events waiting ≤ starts_in events + due waiting.result_shown
shown_in_bound_example = shown_in_bound events waiting
