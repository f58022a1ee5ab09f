-- ===== src/Snapshots/Restore.antt =====
-- What the panel for restoring and cloning can be brought to ask for.
use ha_telink_manager.Prelude.{
  Bool, true, false, not, ◌&&◌, ◌||◌, Option, none, some, is_some, List, [], ◌∷◌, String,
  if◌then◌else◌, str_eq, eq_iff, any, ◌≡◌, ◌≢◌, subst, refl, arith,
}
use mathlib.Core.Option.{some-injective}
use ha_telink_manager.Device.{Device}
use ha_telink_manager.Snapshots.{
  Mode, restore, clone, Restoring, others, show_restore, Part, tick, choose_target, can_go,
  is_clone, pressed, to_target, shown_for, part_if, has_target,
}

abbrev asks_key : List Part → Bool
asks_key [] = false
asks_key (Part.bind_key ∷ ps) = true
asks_key (p ∷ ps) = asks_key ps

-- What can be done in the panel: a target is chosen from the devices that are offered.
pub data Edit : Type 0 where
  ticks : Part → Bool → Edit
  targets : String → Edit

abbrev pub Allowed : List Device → Restoring → Edit → Type 0
Allowed devs r (ticks part on) = Unit
Allowed devs r (targets mac) =
    any (λ (d : Device). str_eq d.mac mac) (others r.snap_mac devs) ≡ true

abbrev pub edit : Edit → Restoring → Restoring
edit (ticks part on) r = tick part on r
edit (targets mac) r = choose_target mac r

-- The states that the panel can be brought to, for a list of devices.
pub data Reachable (devs : List Device) : Restoring → Type 0 where
  shown :
      (mode : Mode) (snap_mac : String) (r : Restoring)
      → show_restore mode snap_mac devs ≡ some r
      → Reachable devs r
  edited :
      (e : Edit) (r : Restoring) → Allowed devs r e → Reachable devs r → Reachable devs (edit e r)

-- A restore goes back to the device of the snapshot; a clone goes to another one and leaves the bind
-- key out.
abbrev pub SafeFor : Mode → Bool → Option String → String → Type 0
SafeFor restore key target snap_mac = target ≡ some snap_mac
SafeFor clone key target snap_mac = (key ≡ false) × (target ≢ some snap_mac)

abbrev pub IsSafe : Restoring → Type 0
IsSafe r = SafeFor r.mode r.bind_key r.target r.snap_mac

show_restore-IsSafe :
    (mode : Mode) (snap_mac : String) (devs : List Device) (r : Restoring)
    → show_restore mode snap_mac devs ≡ some r
    → IsSafe r
unfolding show_restore
show_restore-IsSafe mode snap_mac devs r h = go mode (others snap_mac devs) h
  where
    go : (m : Mode) (candidates : List Device) → shown_for m snap_mac candidates ≡ some r → IsSafe r
    go restore candidates h = subst IsSafe (some-injective _ _ h) refl
    go clone [] h = cc
    go clone (d ∷ candidates) h = subst IsSafe (some-injective _ _ h) (refl, λ k. cc)

tick-IsSafe : (part : Part) (on : Bool) (r : Restoring) → IsSafe r → IsSafe (tick part on r)
unfolding tick
tick-IsSafe Part.config on r h = h
tick-IsSafe Part.device_name on r h = h
tick-IsSafe Part.comfort on r h = h
tick-IsSafe Part.sensor on r h = h
tick-IsSafe Part.bind_key on r h = go r.mode h
  where
    go :
        (m : Mode)
        → SafeFor m r.bind_key r.target r.snap_mac
        → IsSafe
            (if is_clone m then record r { mode = m } else record r { mode = m; bind_key = on })
    go restore h = h
    go clone h = h

not_own :
    (mac own : String) (devs : List Device)
    → any (λ (d : Device). str_eq d.mac mac) (others own devs) ≡ true
    → mac ≢ own
not_own mac own [] h e = cc
not_own mac own (d ∷ devs) h e =
    absurd (ground (arith, eq_iff d.mac mac, eq_iff d.mac own, not_own mac own devs))

choose_target-IsSafe :
    (mac : String) (r : Restoring) → mac ≢ r.snap_mac → IsSafe r → IsSafe (choose_target mac r)
unfolding choose_target
choose_target-IsSafe mac r n h = go r.mode h
  where
    go :
        (m : Mode)
        → SafeFor m r.bind_key r.target r.snap_mac
        → IsSafe
            (if is_clone m then record r { mode = m; target = some mac } else record r { mode = m })
    go restore h = h
    go clone h = (h.0, λ k. n (some-injective _ _ k))

-- However the panel is used, a restore goes to the device that the snapshot is of, and a clone to
-- another device or to none yet, without the bind key.
pub Reachable-IsSafe : {devs : List Device} {r : Restoring} → Reachable devs r → IsSafe r
Reachable-IsSafe {devs} (shown mode snap_mac r h) = show_restore-IsSafe mode snap_mac devs r h
Reachable-IsSafe {devs} (edited (ticks part on) r a p) = tick-IsSafe part on r (Reachable-IsSafe p)
Reachable-IsSafe {devs} (edited (targets mac) r a p) =
    choose_target-IsSafe mac r (not_own mac r.snap_mac devs a) (Reachable-IsSafe p)

-- However the panel is used, its button can be pressed exactly when pressing it asks for something.
pub can_go-pressed :
    {devs : List Device} {r : Restoring} → Reachable devs r → can_go r ≡ is_some (pressed r)
unfolding can_go pressed
can_go-pressed {r = r} p =
    check r.mode r.target (Reachable-IsSafe p) r.config r.device_name r.comfort r.bind_key r.sensor
  where
    check :
        (m : Mode) (t : Option String)
        → SafeFor m r.bind_key t r.snap_mac
        → (a b c d e : Bool)
        → ((a || (b || (c || (d || e)))) && (not (is_clone m) || has_target t))
          ≡ is_some (
              to_target t (
                part_if a Part.config (
                  part_if b Part.device_name
                    (part_if c Part.comfort (part_if d Part.bind_key (part_if e Part.sensor []))))))
    check restore none h a b c d e = cc
    check clone none h a b c d e = ground arith
    check restore (some t) h a b c d e = ground arith
    check clone (some t) h a b c d e = ground arith
