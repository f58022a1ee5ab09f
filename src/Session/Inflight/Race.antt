-- ===== src/Session/Inflight/Race.antt =====
-- What the guard of `_readSelected` misses: it is not tested again behind the question.
use ha_telink_manager.Prelude.{
  ℕ, ◌+◌, Bool, true, false, some, [], ◌∷◌, String, ◌≡◌, refl, arith, has, has-delete, eq_refl,
}
use ha_telink_manager.Session.{Panel, ask_weak, read}
use ha_telink_manager.Session.Tasks.{
  ReadReply, resume, read_selected, start_read, read_done, is_weak, is_unreachable, device_with,
}

-- The panel is ready to ask whether to connect to a device with a weak signal.
pub record IsReady (mac : String) (p : Panel) : Type 0 where
  pub idle : p.busy ≡ false
  pub no_bulk : p.bulk_active ≡ false
  pub chosen : p.selected ≡ some mac
  pub clear : has mac p.inflight ≡ false
  pub reachable : is_unreachable (device_with mac p.devs) ≡ false
  pub faint : is_weak p.selected_rssi ≡ true

-- For a device with a weak signal, Connect only asks, and leaves the panel as ready as before. With two
-- questions open about it, each "yes" starts a read of it, the second also behind the first; and when either
-- of the two reads ends, whatever its answer and its token, the device is no longer marked as in flight.
pub read_twice :
    (mac : String) (tb : Bool) (p : Panel)
    → IsReady mac p
    → (read_selected tb p ≡ (p, ask_weak mac tb ∷ []))
      × ((resume (ask_weak mac tb) true p).1 ≡ read mac (p.op + 1) tb ∷ [])
      × ((resume (ask_weak mac tb) true (start_read mac tb p).0).1
          ≡ read mac (p.op + 1 + 1) tb ∷ [])
      × ((token : ℕ) (r : ReadReply)
          → has mac (read_done mac token r (start_read mac tb (start_read mac tb p).0).0).0.inflight
            ≡ false)
unfolding read_selected resume
read_twice mac tb p h =
    (ground arith, refl, refl, freed (start_read mac tb (start_read mac tb p).0).0)
  where
    freed :
        (q : Panel) (token : ℕ) (r : ReadReply)
        → has mac (read_done mac token r q).0.inflight ≡ false
    freed q token r = ground (arith, has-delete mac mac q.inflight, eq_refl mac)
