-- ===== src/Snapshots/Tests.antt =====
-- The restore panel on a concrete fleet: a clone to the only other device.
use ha_telink_manager.Prelude.{true, [], ◌∷◌, refl}
use ha_telink_manager.Samples.{attic_device}
use ha_telink_manager.Device.{Device}
use ha_telink_manager.Snapshots.{clone, Restoring, fresh, Part, show_restore, tick}
use ha_telink_manager.Snapshots.Restore.{
  ticks, targets, edit, Reachable, shown, edited, IsSafe, Reachable-IsSafe,
}

abbrev other : Device
other = record attic_device { mac = "A4:C1:38:00:00:02" }

abbrev cloning : Restoring
cloning =
    edit (targets "A4:C1:38:00:00:02")
      (edit (ticks Part.bind_key true) (fresh clone "A4:C1:38:00:00:01"))

to_cloning : Reachable (other ∷ []) cloning
unfolding show_restore tick
to_cloning = edited (targets "A4:C1:38:00:00:02") _ refl (
    edited (ticks Part.bind_key true) _ tt
      (shown clone "A4:C1:38:00:00:01" (fresh clone "A4:C1:38:00:00:01") refl))

Reachable-IsSafe_example : IsSafe cloning
Reachable-IsSafe_example = Reachable-IsSafe to_cloning
