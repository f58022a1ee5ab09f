-- ===== src/Names/Offer.antt =====
-- The offer of Home Assistant's name (the row's button).
use ha_telink_manager.Prelude.{not, ◌&&◌, List, [], ◌∷◌, String, ◌≡◌, refl, arith}
use ha_telink_manager.Device.{Device}
use ha_telink_manager.Names.{Cell, is_blank, drawn, typed, adopted}

-- What a user does with a row.
pub data Act : Type 0 where
  types : String → Act
  clicks : Act

abbrev pub acted : String → Act → Cell → Cell
acted ha_name (types value) c = typed ha_name value c
acted ha_name clicks c = (adopted ha_name c).0

abbrev pub acted_all : String → List Act → Cell → Cell
acted_all ha_name [] c = c
acted_all ha_name (a ∷ acts) c = acted_all ha_name acts (acted ha_name a c)

-- The button is visible exactly where the input is empty and there is a name to take.
abbrev pub IsOffer : String → Cell → Type 0
IsOffer ha_name c = c.offered ≡ (is_blank c.value && not (is_blank ha_name))

acted-IsOffer :
    (ha_name : String) (a : Act) (c : Cell)
    → IsOffer ha_name c
    → IsOffer ha_name (acted ha_name a c)
unfolding typed adopted
acted-IsOffer ha_name (types value) c h = ground (arith, h)
acted-IsOffer ha_name clicks c h = ground (arith, h)

acted_all-IsOffer :
    (ha_name : String) (acts : List Act) (c : Cell)
    → IsOffer ha_name c
    → IsOffer ha_name (acted_all ha_name acts c)
acted_all-IsOffer ha_name [] c h = h
acted_all-IsOffer ha_name (a ∷ acts) c h =
    acted_all-IsOffer ha_name acts _ (acted-IsOffer ha_name a c h)

-- From the drawing of the table on, whatever is typed and clicked in a row, the button that takes over Home
-- Assistant's name is visible exactly while the input is empty and there is such a name.
pub drawn-IsOffer :
    (d : Device) (acts : List Act) → IsOffer d.ha_name (acted_all d.ha_name acts (drawn d))
unfolding drawn
drawn-IsOffer d acts = acted_all-IsOffer d.ha_name acts _ refl
