-- ===== src/Session/Detach.antt =====
-- Leaving the page while a scan runs, and coming back to the same element.
use ha_telink_manager.Prelude.{true, false, Option, List, [], ◌≡◌, arith, ◌+◌}
use ha_telink_manager.Device.{Device}
use ha_telink_manager.Session.{Panel, scan, scan_devices, disconnected, reconnected, cancel}
use ha_telink_manager.Session.Tasks.{resume}

abbrev pub back_again : Panel → Panel
back_again p = reconnected (disconnected (scan p).0)

-- Whoever leaves while a scan runs and comes back finds the panel idle but its Refresh button
-- disabled, and the scan's late answer, whatever it is, does not enable it; Cancel, which is still
-- shown, does.
pub back_again-scan_disabled :
    (p : Panel) (answer : Option (List Device))
    → p.busy ≡ false
    → ((back_again p).busy ≡ false)
      × ((back_again p).scan_disabled ≡ true)
      × (resume (scan_devices (p.op + 1) p.selected) answer (back_again p) ≡ (back_again p, []))
      × ((back_again p).cancel_shown ≡ true)
      × ((cancel (back_again p)).scan_disabled ≡ false)
unfolding scan disconnected reconnected cancel resume
back_again-scan_disabled p Option.none h = ground arith
back_again-scan_disabled p (Option.some devs) h = ground arith
