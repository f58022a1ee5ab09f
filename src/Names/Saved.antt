-- ===== src/Names/Saved.antt =====
-- A name that was saved (`_saveName` and the input's `change`).
use ha_telink_manager.Prelude.{
  none, some, String, if◌then◌else◌, str_eq, lookup-insert, ◌≡◌, refl, Bool-cases, inl, inr,
}
use ha_telink_manager.Names.{Known, renamed, name_saved}

-- Once the backend has kept a name, leaving the device's input with that name sends nothing and with any
-- other sends it; the inputs of the other devices send what they did before.
pub renamed-name_saved :
    (mac other name value : String) (k : Known)
    → renamed (name_saved mac (some name) k) other value ≡ (
        if str_eq mac other
        then (if str_eq value name then none else some value)
        else renamed k other value)
unfolding renamed name_saved
renamed-name_saved mac other name value k = elim (Bool-cases (str_eq mac other)) [
  | inl e ↦ rw (lookup-insert mac other name k.names, e) refl
  | inr e ↦ rw (lookup-insert mac other name k.names, e) refl
]
