-- ===== src/Repeater/Adopt.antt =====
-- The key that the repeater editor fills in by itself.
use ha_telink_manager.Prelude.{
  ℕ, ◌≤◌, ltb, true, ◌&&◌, ◌||◌, Option, none, some, [], if◌then◌else◌, ◌≡◌, ◌⊎◌, arith,
}
use ha_telink_manager.Html.{Text}
use ha_telink_manager.Repeater.{KeyField, Source, Limits, adopt_done, settle}

-- The key that the source needs, of what is known of it: the newest one, where the source was read
-- and broadcasts encrypted.
abbrev pub needed : Option Source → Option Text
needed none = none
needed (some s) = if s.was_read && s.adv_crypto then s.newest_key else none

-- What the field holds then, and the key that was filled in by itself, of those before.
abbrev pub left_with : Option Text → Text → Option Text → Text × Option Text
left_with (some key) v auto = (key, some key)
left_with none v none = (v, none)
left_with none v (some a) = ([], none)

-- After a lookup the field holds the key that the source needs, marked as filled in by itself, whatever was
-- typed meanwhile. Where the source needs none or none is known, the field is emptied if a key had been
-- filled in by itself, even if another was typed meanwhile, and stays as it is if none had.
pub adopt_done-value :
    (l : Limits) (s : Option Source) (k : KeyField)
    → ((adopt_done l s k).value, (adopt_done l s k).auto_filled)
      ≡ left_with (needed s) k.value k.auto_filled
unfolding adopt_done settle
adopt_done-value l s k = ground arith

-- A lookup sets the beacon interval to the source's where that is within the limits, and leaves it
-- alone otherwise; so an interval within the limits stays within them.
pub adopt_done-interval :
    (l : Limits) (s : Source) (k : KeyField) (ms : ℕ)
    → s.adv_ms ≡ some ms
    → ((l.lo ≤ ms × ms ≤ l.hi) × ((adopt_done l (some s) k).interval ≡ ms))
      ⊎ (((ltb ms l.lo || ltb l.hi ms) ≡ true) × ((adopt_done l (some s) k).interval ≡ k.interval))
unfolding adopt_done settle
adopt_done-interval l s k ms e = ground arith
