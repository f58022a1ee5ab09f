-- ===== src/Session/Tests.antt =====
-- A session on a concrete fleet: a scan, a connect to a thermometer with a weak signal, and a cancel.
use ha_telink_manager.Prelude.{
  ℕ, true, false, none, some, List, [], ◌∷◌, ◌++◌, String, ◌≡◌, refl, has, add, insert, ◌+◌, arith,
}
use ha_telink_manager.Samples.{attic_device}
use ha_telink_manager.Device.{Device}
use ha_telink_manager.Signal.{rssi_info}
use ha_telink_manager.Session.{Task, scan_devices, scan_backups, ask_weak, read, cancel}
use ha_telink_manager.Session.Tasks.{
  Answer, ReadReply, resume, read_selected, start_read, read_done,
}
use ha_telink_manager.Session.World.{
  World, acts, answers, Action, act, fresh, start, Reach, here, next,
}
use ha_telink_manager.Session.Stale.{released, resume_stale}
use ha_telink_manager.Session.Busy.{IsFreed, Reach-IsFreed}
use ha_telink_manager.Session.Inflight.Pending.{OnlyPending, Reach-OnlyPending}
use ha_telink_manager.Session.Inflight.Exclusive.{
  IsTallied, ReachOrderly, outset, turn, ReachOrderly-IsTallied,
}
use ha_telink_manager.Session.Inflight.Race.{IsReady, read_twice}
use ha_telink_manager.Session.Detach.{back_again, back_again-scan_disabled}

abbrev far : Device
far = attic_device

abbrev attic : String
attic = "A4:C1:38:00:00:01"

abbrev after_act : Action → World → World
after_act a w = record { panel = (act a w.panel).0; tasks = w.tasks ++ (act a w.panel).1 }

abbrev after_answer : (t : Task) → Answer t → List Task → World → World
after_answer t r rest w = record {
  panel = (resume t r w.panel).0;
  tasks = rest ++ (resume t r w.panel).1;
}

abbrev scanning : World
scanning = after_act Action.refresh start

abbrev listing : World
listing = after_answer (scan_devices 1 none) (some (far ∷ [])) [] scanning

abbrev idle : World
idle = after_answer (scan_backups 1) none [] listing

abbrev asking : World
asking = after_act (Action.connect false) idle

abbrev reading : World
reading = after_answer (ask_weak attic false) true [] asking

abbrev gone : World
gone = after_act Action.cancel_op reading

to_idle : Reach idle
unfolding act resume fresh has add rssi_info insert
to_idle =
    next
      (next (next here (acts Action.refresh tt refl refl))
        (answers [] [] (scan_devices 1 none) (some (far ∷ [])) refl refl refl))
      (answers [] [] (scan_backups 1) none refl refl refl)

to_reading : Reach reading
unfolding act resume fresh has add rssi_info insert
to_reading =
    next (next to_idle (acts (Action.connect false) tt refl refl))
      (answers [] [] (ask_weak attic false) true refl refl refl)

orderly_reading : ReachOrderly reading
unfolding act resume fresh has add rssi_info insert
orderly_reading =
    turn
      (turn
        (turn
          (turn (turn outset (acts Action.refresh tt refl refl) (λ c. cc))
            (answers [] [] (scan_devices 1 none) (some (far ∷ [])) refl refl refl) tt)
          (answers [] [] (scan_backups 1) none refl refl refl) tt)
        (acts (Action.connect false) tt refl refl) (λ c mac. refl))
      (answers [] [] (ask_weak attic false) true refl refl refl) tt

reading_runs : reading.tasks ≡ read attic 2 false ∷ []
unfolding act resume fresh has add rssi_info insert
reading_runs = refl

ReachOrderly-IsTallied_example : IsTallied attic reading
ReachOrderly-IsTallied_example = ReachOrderly-IsTallied attic orderly_reading

Reach-OnlyPending_example : OnlyPending reading
Reach-OnlyPending_example = Reach-OnlyPending to_reading

Reach-IsFreed_example : IsFreed reading
Reach-IsFreed_example = Reach-IsFreed to_reading

resume_stale_example :
    resume (read attic 2 false) ReadReply.failed gone.panel
    ≡ (released (read attic 2 false) gone.panel, [])
unfolding act resume fresh has add rssi_info insert
resume_stale_example =
    resume_stale (read attic 2 false) ReadReply.failed gone.panel (λ e. ground arith)

idle-IsReady : IsReady attic idle.panel
unfolding act resume fresh has add rssi_info insert
idle-IsReady = record {
  idle = refl;
  no_bulk = refl;
  chosen = refl;
  clear = refl;
  reachable = refl;
  faint = refl;
}

read_twice_example :
    (read_selected false idle.panel ≡ (idle.panel, ask_weak attic false ∷ []))
    × ((resume (ask_weak attic false) true idle.panel).1
        ≡ read attic (idle.panel.op + 1) false ∷ [])
    × ((resume (ask_weak attic false) true (start_read attic false idle.panel).0).1
        ≡ read attic (idle.panel.op + 1 + 1) false ∷ [])
    × ((token : ℕ) (r : ReadReply)
        → has attic
            (read_done attic token r
              (start_read attic false (start_read attic false idle.panel).0).0).0.inflight
          ≡ false)
read_twice_example = read_twice attic false idle.panel idle-IsReady

back_again-scan_disabled_example :
    ((back_again fresh).busy ≡ false)
    × ((back_again fresh).scan_disabled ≡ true)
    × (resume (scan_devices (fresh.op + 1) fresh.selected) (some (far ∷ [])) (back_again fresh)
        ≡ (back_again fresh, []))
    × ((back_again fresh).cancel_shown ≡ true)
    × ((cancel (back_again fresh)).scan_disabled ≡ false)
unfolding fresh
back_again-scan_disabled_example = back_again-scan_disabled fresh (some (far ∷ [])) refl
