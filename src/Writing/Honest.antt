-- ===== src/Writing/Honest.antt =====
-- What an answer of `async_write` says of the device.
use ha_telink_manager.Prelude.{ℕ}
use ha_telink_manager.Blob.{Blob, Parsed, Changes}
use ha_telink_manager.Writing.{Link, Outcome, Reading}
use ha_telink_manager.Writing.Building.{now, IsRetryable, IsOutcome}

module _ {W : Type 0} (link : Link W) (version : ℕ) (device : W → Blob) where
  abbrev held : W → Parsed
  held w = now link version device w

  abbrev Retryable : Changes → Parsed → Parsed → Type 0
  Retryable ch old p = IsRetryable link version device ch old p

  abbrev Ends : Changes → Parsed → Outcome × W → Type 0
  Ends ch old p = IsOutcome link version device ch old p
