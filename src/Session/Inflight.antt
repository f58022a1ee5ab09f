-- ===== src/Session/Inflight.antt =====
-- The connects in flight: how each handler changes what `_inflightMacs` and the waiting reads and
-- questions tell of one device.
pub mod Pending
pub mod Exclusive
pub mod Race
use ha_telink_manager.Prelude.{
  ℕ, zero, suc, ◌+◌, ◌≤◌, ◌<◌, ◌==◌, Bool, true, false, ◌||◌, ◌&&◌, Option, none, some, List, [],
  ◌∷◌, ◌++◌, String, ◌≡◌, ◌≢◌, refl, ◌⊎◌, inl, inr, arith, any, str_eq, eq_iff, Bool-cases, subst,
  has, has-add, has-delete, if◌then◌else◌,
}
use ha_telink_manager.Session.{
  Panel, Task, scan_devices, scan_backups, ask_unreachable, ask_weak, read, command, write,
  ask_clear_lcd,
}
use ha_telink_manager.Session.Tasks.{
  Answer, ReadReply, WriteReply, CmdReply, resume, command_done, start_read, check_signal,
  request_read, is_weak, is_unreachable, device_with, read_mac, read_selected,
}
use ha_telink_manager.Session.World.{
  World, Step, acts, answers, Action, act, Enabled, Reach, here, next, fresh, start,
}

abbrev pub bit : Bool → ℕ
bit true = 1
bit false = 0

-- Is this task a connect to the device, or a question before one?
abbrev pub reads : String → Task → Bool
reads mac (read m token tb) = str_eq m mac
reads mac _ = false

abbrev pub asks : String → Task → Bool
asks mac (ask_unreachable m tb) = str_eq m mac
asks mac (ask_weak m tb) = str_eq m mac
asks mac _ = false

abbrev pub count : (Task → Bool) → List Task → ℕ
count f [] = 0
count f (t ∷ ts) = bit (f t) + count f ts

count-append : (f : Task → Bool) (xs ys : List Task) → count f (xs ++ ys) ≡ count f xs + count f ys
count-append f [] ys = omega arith
count-append f (x ∷ xs) ys = omega (arith, count-append f xs ys)

count_drop :
    (f : Task → Bool) (before : List Task) (t : Task) (after : List Task)
    → count f (before ++ t ∷ after) ≡ bit (f t) + count f (before ++ after)
count_drop f before t after =
    omega (arith, count-append f before (t ∷ after), count-append f before after)

-- How a handler changes the tally of one device: `held` is what it had in flight before, and `most`
-- bounds what is asked or in flight afterwards.
record Tally (mac : String) (held most : ℕ) (out : Panel × List Task) : Type 0 where
  from_reads : bit (has mac out.0.inflight) ≤ held + count (reads mac) out.1
  into_flight : count (reads mac) out.1 + held ≤ bit (has mac out.0.inflight)
  one_way : count (asks mac) out.1 + bit (has mac out.0.inflight) ≤ most

module _ (mac m : String) (tb : Bool) (p : Panel) where
  abbrev held : ℕ
  held = bit (has mac p.inflight)

  start_read-Tally :
      (str_eq m mac ≡ true → has mac p.inflight ≡ false)
      → Tally mac held (bit (str_eq m mac) + held) (start_read m tb p)
  unfolding start_read
  start_read-Tally idle = ground (arith, has-add m mac p.inflight)

  check_signal-Tally :
      (str_eq m mac ≡ true → has mac p.inflight ≡ false)
      → Tally mac held (bit (str_eq m mac) + held) (check_signal m tb p)
  unfolding check_signal
  check_signal-Tally idle = elim (Bool-cases (is_weak p.selected_rssi)) [
    | inl e ↦ rw e (ground arith)
    | inr e ↦ rw e (start_read-Tally idle)
  ]

  request_read-Tally :
      has m p.inflight ≡ false → Tally mac held (bit (str_eq m mac) + held) (request_read m tb p)
  unfolding request_read
  request_read-Tally idle =
      let idle' : str_eq m mac ≡ true → has mac p.inflight ≡ false =
        λ e. subst (λ k. has k p.inflight ≡ false) ((eq_iff m mac).0 e) idle in
      elim (Bool-cases (is_unreachable (device_with m p.devs))) [
        | inl e ↦ rw e (ground arith)
        | inr e ↦ rw e (check_signal-Tally idle')
      ]

-- Nothing in flight changes, and no read of the device or question about it comes.
abbrev Same : String → Panel → Panel × List Task → Type 0
Same mac p out =
    (out.0.inflight ≡ p.inflight) × (count (reads mac) out.1 ≡ 0) × (count (asks mac) out.1 ≡ 0)

read_mac-Tally :
    (mac : String) (tb : Bool) (p : Panel) (selected : Option String)
    → Same mac p (read_mac selected tb p)
      ⊎ Tally mac (bit (has mac p.inflight)) 1 (read_mac selected tb p)
read_mac-Tally mac tb p none = inl (refl, refl, refl)
read_mac-Tally mac tb p (some m) = elim (Bool-cases (has m p.inflight)) [
  | inl e ↦ inl (rw e (refl, refl, refl))
  | inr e ↦ inr (rw e (weaken (request_read-Tally mac m tb p e) (at_most_one e)))
]
  where
    weaken :
        {held most : ℕ} {out : Panel × List Task}
        → Tally mac held most out
        → most ≤ 1
        → Tally mac held 1 out
    weaken t h = omega (arith, t.from_reads, t.into_flight, t.one_way)

    at_most_one : has m p.inflight ≡ false → bit (str_eq m mac) + bit (has mac p.inflight) ≤ 1
    at_most_one e = elim (Bool-cases (str_eq m mac)) [
      | inl same ↦
          rw (same, subst (λ k. has k p.inflight ≡ false) ((eq_iff m mac).0 same) e) (omega arith)
      | inr other ↦ rw other (ground arith)
    ]

-- Connect leaves the tally or changes it by a read or a question; every other action leaves it.
connect-Tally :
    (mac : String) (tb : Bool) (p : Panel)
    → Same mac p (read_selected tb p) ⊎ Tally mac (bit (has mac p.inflight)) 1 (read_selected tb p)
unfolding read_selected
connect-Tally mac tb p = elim (Bool-cases (p.busy || p.bulk_active)) [
  | inl e ↦ inl (rw e (refl, refl, refl))
  | inr e ↦ rw e (read_mac-Tally mac tb p p.selected)
]

unfoldable pub is_connect : Action → Bool
is_connect (Action.connect tb) = true
is_connect _ = false

act-Same : (mac : String) (a : Action) (p : Panel) → is_connect a ≡ false → Same mac p (act a p)
unfolding act is_connect
act-Same mac Action.refresh p e = ground arith
act-Same mac (Action.connect tb) p e = cc
act-Same mac a p e = ground arith

-- A command's answer leaves what is in flight, and starts nothing.
command_done-quiet :
    (token : ℕ) (shows : Option (Option String)) (r : CmdReply) (p : Panel)
    → ((command_done token shows r p).0.inflight ≡ p.inflight)
      × ((command_done token shows r p).1 ≡ [])
unfolding command_done
command_done-quiet token none CmdReply.failed p = ground arith
command_done-quiet token (some l) CmdReply.failed p = ground arith
command_done-quiet token shows CmdReply.refused p = ground arith
command_done-quiet token none (CmdReply.ok none) p = ground arith
command_done-quiet token (some l) (CmdReply.ok none) p = ground arith
command_done-quiet token none (CmdReply.ok (some f)) p = ground arith
command_done-quiet token (some l) (CmdReply.ok (some f)) p = ground arith

-- What an action does to the tally of a device.
act-Tally :
    (mac : String) (a : Action) (p : Panel)
    → Same mac p (act a p)
      ⊎ ((is_connect a ≡ true) × Tally mac (bit (has mac p.inflight)) 1 (act a p))
unfolding act is_connect
act-Tally mac (Action.connect tb) p = elim (connect-Tally mac tb p) [
  | inl same ↦ inl same
  | inr tally ↦ inr (refl, tally)
]
act-Tally mac a p = inl (act-Same mac a p refl)
