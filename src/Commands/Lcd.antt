-- ===== src/Commands/Lcd.antt =====
-- What stays on the display (`_lcdPermanentActive` of `_modalCommands`, and `async_lcd` of
-- custom_components/telink_manager/gatt.py).
use ha_telink_manager.Prelude.{
  ℕ, ◌-◌, ◌%◌, ◌==◌, leb, ℤ, pos, negsuc, Bool, true, false, Option, none, some, List, [], ◌∷◌, ◌≡◌,
  if◌then◌else◌,
}
use ha_telink_manager.Html.{Text}
use ha_telink_manager.Commands.{
  Factory, Typed, Modal, Button, c_name, c_lcd, c_lcd_clear, c_raw, c_mac_set, c_reboot, c_factory,
  Message, set_device_name, set_mac, raw, lcd, reboot, factory_reset, Reply, press, message,
}
use ha_telink_manager.Commands.Answer.{answered, succeeded}

-- `int(vtime_sec) & 0xFFFF` of `async_lcd`.
abbrev pub vtime : ℤ → ℕ
vtime (pos n) = n % 65536
vtime (negsuc n) = 65535 - n % 65536

-- The requests that leave the device running, by the README, and do not go to its display. A raw command may
-- be any other.
abbrev pub elsewhere_on : Message → Bool
elsewhere_on (set_device_name name) = false
elsewhere_on (set_mac new_mac) = false
elsewhere_on (raw hex expect_reply) = false
elsewhere_on (lcd big_number small_number vtime_sec) = false
elsewhere_on reboot = false
elsewhere_on factory_reset = false
elsewhere_on _ = true

-- What a request that was carried out makes of the display, which keeps a number until it is cleared or does
-- not: the duration 0xFFFF is for ever, every other request for the display ends that, and a request that
-- goes elsewhere leaves it. Nothing is said of the others.
pub record IsDisplay (display : Message → Bool → Bool) : Type 0 where
  pub shows :
      (big_number small_number vtime_sec : ℤ) (shown : Bool)
      → display (lcd big_number small_number vtime_sec) shown ≡ (vtime vtime_sec == 65535)
  pub keeps : (msg : Message) (shown : Bool) → elsewhere_on msg ≡ true → display msg shown ≡ shown

-- A press, with what was typed, the answer to its question, and the backend's. An answer that is not `ok`
-- means that the request was not carried out.
pub record Step : Type 0 where
  pub factory : Factory
  pub typed : Typed
  pub button : Button
  pub confirmed : Bool
  pub key : Text
  pub reply : Reply

abbrev after_press :
    (Message → Bool → Bool) → Text → Step → Modal → Bool → Option Message → Modal × Bool
after_press display mac s m shown none = (m, shown)
after_press display mac s m shown (some msg) = (
  answered mac s.key s.typed s.button (some s.reply) m,
  if s.reply.ok then display msg shown else shown,
)

-- The panel and the display, one press after the other.
abbrev pub run_presses : (Message → Bool → Bool) → Text → List Step → Modal → Bool → Modal × Bool
run_presses display mac [] m shown = (m, shown)
run_presses display mac (s ∷ ss) m shown =
    let (m', shown') =
      after_press display mac s m shown (press s.factory s.typed m s.button s.confirmed) in
    run_presses display mac ss m' shown'

-- A duration that the input's bounds allow; 0 and none count as 1.
abbrev pub allowed : Option ℤ → Bool
allowed none = true
allowed (some (pos n)) = leb n 65534
allowed (some (negsuc n)) = false

-- The buttons whose requests may restart the device, or be any request.
abbrev pub may_restart : Button → Bool
may_restart c_name = true
may_restart c_mac_set = true
may_restart c_raw = true
may_restart c_reboot = true
may_restart c_factory = true
may_restart _ = false

abbrev pub Allowed : Step → Type 0
Allowed s = (allowed s.typed.lcd_dur ≡ true) × (may_restart s.button ≡ false)

-- What the panel holds for a display that does, or does not, keep a number.
abbrev pub tracked : Text → Bool → Option Text
tracked mac shown = if shown then some mac else none

abbrev is_lcd : Button → Bool
is_lcd c_lcd = true
is_lcd c_lcd_clear = true
is_lcd _ = false

data LcdCase (b : Button) : Type 0 where
  shows : b ≡ c_lcd → LcdCase b
  clears : b ≡ c_lcd_clear → LcdCase b
  elsewhere : is_lcd b ≡ false → LcdCase b

module _ (display : Message → Bool → Bool) (known : IsDisplay display) (mac : Text) (s : Step)
    (m : Modal) (shown : Bool) where
  abbrev sent : Message
  sent = message s.factory s.typed m s.button

  -- The panel's state and the display's agree for a button, once its request was carried out.
  abbrev Agree : Button → Type 0
  Agree b =
      (succeeded mac s.key s.typed b s.reply m).lcd_permanent
      ≡ tracked mac (display (message s.factory s.typed m b) shown)
