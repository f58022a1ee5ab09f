-- ===== src/Session/Inflight/Pending.antt =====
-- A device is held back only while a read of it waits.
use ha_telink_manager.Prelude.{
  ◌+◌, ◌≤◌, Bool, true, false, none, some, List, ◌++◌, String, ◌≡◌, refl, ◌⊎◌, inl, inr, arith,
  Bool-cases, has, has-add, has-delete, has-nil, ap,
}
use ha_telink_manager.Session.{
  Panel, Task, scan_devices, scan_backups, ask_unreachable, ask_weak, read, command, write,
  ask_clear_lcd, unmarked_read,
}
use ha_telink_manager.Session.Tasks.{
  Answer, ReadReply, WriteReply, resume, start_read, check_signal, is_weak,
}
use ha_telink_manager.Session.World.{
  World, Step, acts, answers, Action, act, Reach, here, next, fresh,
}
use ha_telink_manager.Session.Inflight.{
  bit, reads, count, count-append, count_drop, command_done-quiet, connect-Tally, act-Same,
  is_connect,
}

-- A device is in flight only while a read of it waits.
abbrev pub OnlyPending : World → Type 0
OnlyPending w = (mac : String) → bit (has mac w.panel.inflight) ≤ count (reads mac) w.tasks

-- Without any premise: what is newly in flight has a read behind it.
abbrev FromReads : String → Panel → Panel × List Task → Type 0
FromReads mac p out =
    bit (has mac out.0.inflight) ≤ bit (has mac p.inflight) + count (reads mac) out.1

module _ (mac m : String) (tb : Bool) (p : Panel) where
  start_read-FromReads : FromReads mac p (start_read m tb p)
  unfolding start_read
  start_read-FromReads = ground (arith, has-add m mac p.inflight)

  check_signal-FromReads : FromReads mac p (check_signal m tb p)
  unfolding check_signal
  check_signal-FromReads = elim (Bool-cases (is_weak p.selected_rssi)) [
    | inl e ↦ rw e (ground arith)
    | inr e ↦ rw e start_read-FromReads
  ]

act-FromReads : (mac : String) (a : Action) (p : Panel) → FromReads mac p (act a p)
unfolding act is_connect
act-FromReads mac (Action.connect tb) p = elim (connect-Tally mac tb p) [
  | inl same ↦ rw same.0 (omega arith)
  | inr tally ↦ tally.from_reads
]
act-FromReads mac a p = let same = act-Same mac a p refl in rw same.0 (omega arith)

-- After an answer: the task's own device is no longer in flight if it was a read.
resume-pending :
    (mac : String) (t : Task) (r : Answer t) (p : Panel)
    → (has mac (resume t r p).0.inflight ≡ false)
      ⊎ (FromReads mac p (resume t r p) × (reads mac t ≡ false))
unfolding resume
resume-pending mac (scan_devices token prev) none p = ground arith
resume-pending mac (scan_devices token prev) (some devs) p = ground arith
resume-pending mac (scan_backups token) none p = ground arith
resume-pending mac (scan_backups token) (some counts) p = ground arith
resume-pending mac (ask_unreachable m tb) true p = inr (check_signal-FromReads mac m tb p, refl)
resume-pending mac (ask_unreachable m tb) false p = inr (omega arith, refl)
resume-pending mac (ask_weak m tb) true p = inr (start_read-FromReads mac m tb p, refl)
resume-pending mac (ask_weak m tb) false p = inr (omega arith, refl)
resume-pending mac (read m token tb) ReadReply.failed p =
    ground (arith, has-delete m mac p.inflight)
resume-pending mac (read m token tb) ReadReply.refused p =
    ground (arith, has-delete m mac p.inflight)
resume-pending mac (read m token tb) (ReadReply.fields f n) p =
    ground (arith, has-delete m mac p.inflight)
resume-pending mac (command token shows) r p =
    inr (rw (command_done-quiet token shows r p).0 (omega arith), refl)
resume-pending mac (write m token) WriteReply.failed p = ground arith
resume-pending mac (write m token) WriteReply.refused p = ground arith
resume-pending mac (write m token) WriteReply.unchanged p = ground arith
resume-pending mac (write m token) (WriteReply.verified c) p = ground arith
resume-pending mac (ask_clear_lcd m) r p = ground arith
resume-pending mac (unmarked_read m) r p = ground arith

Step-OnlyPending : {w w' : World} → Step w w' → OnlyPending w → OnlyPending w'
Step-OnlyPending {w} {w'} (acts a e p ts) o mac =
    rw (p, ts)
      (omega (
        arith,
        act-FromReads mac a w.panel,
        o mac,
        count-append (reads mac) w.tasks (act a w.panel).1,
      ))
Step-OnlyPending {w} {w'} (answers before after t r e p ts) o mac =
    rw (p, ts)
      (elim (resume-pending mac t r w.panel) [
        | inl gone ↦ rw gone (omega arith)
        | inr (kept, other) ↦ omega (
          arith,
          kept,
          rw e at (o mac),
          count_drop (reads mac) before t after,
          ap bit other,
          count-append (reads mac) (before ++ after) (resume t r w.panel).1,
        )
      ])

fresh_clear : (mac : String) → has mac fresh.inflight ≡ false
unfolding fresh
fresh_clear mac = has-nil mac

-- Connect is held back for a device only while a read of that device still waits for its answer.
pub Reach-OnlyPending : {w : World} → Reach w → OnlyPending w
Reach-OnlyPending here = λ mac. rw (fresh_clear mac) (omega arith)
Reach-OnlyPending (next r st) = Step-OnlyPending st (Reach-OnlyPending r)
