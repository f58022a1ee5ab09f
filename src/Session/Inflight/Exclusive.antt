-- ===== src/Session/Inflight/Exclusive.antt =====
-- One connect to a device at a time, as long as Connect is not pressed under an open question.
use ha_telink_manager.Prelude.{
  ◌+◌, ◌≤◌, Bool, true, false, none, some, List, ◌++◌, String, ◌≡◌, inl, inr, arith, has,
  has-delete, has-nil, ap,
}
use ha_telink_manager.Session.{
  Panel, Task, scan_devices, scan_backups, ask_unreachable, ask_weak, read, command, write,
  ask_clear_lcd, unmarked_read,
}
use ha_telink_manager.Session.Tasks.{Answer, ReadReply, WriteReply, resume}
use ha_telink_manager.Session.World.{World, Step, acts, answers, Action, act, fresh, start}
use ha_telink_manager.Session.Inflight.{
  bit, reads, asks, count, count-append, count_drop, act-Tally, command_done-quiet,
  start_read-Tally, check_signal-Tally, Tally, is_connect,
}

-- The tally of a device: its reads are all in flight, and it is asked about or in flight once at most.
abbrev pub IsTallied : String → World → Type 0
IsTallied mac w =
    (count (reads mac) w.tasks ≤ bit (has mac w.panel.inflight))
    × (count (asks mac) w.tasks + bit (has mac w.panel.inflight) ≤ 1)

abbrev Balanced : String → Task → Panel → Panel × List Task → Type 0
Balanced mac t p out =
    (count (reads mac) out.1 + bit (has mac p.inflight)
      ≤ bit (has mac out.0.inflight) + bit (reads mac t))
    × (count (asks mac) out.1 + bit (has mac out.0.inflight)
        ≤ bit (asks mac t) + bit (has mac p.inflight))

Balanced-of_Tally :
    (mac : String) (t : Task) (p : Panel) {out : Panel × List Task}
    → Tally mac (bit (has mac p.inflight)) (bit (asks mac t) + bit (has mac p.inflight)) out
    → Balanced mac t p out
Balanced-of_Tally mac t p h = omega (arith, h.into_flight, h.one_way)

resume-Balanced :
    (mac : String) (t : Task) (r : Answer t) (p : Panel)
    → (asks mac t ≡ true → has mac p.inflight ≡ false)
    → Balanced mac t p (resume t r p)
unfolding resume
resume-Balanced mac (scan_devices token prev) none p h = ground arith
resume-Balanced mac (scan_devices token prev) (some devs) p h = ground arith
resume-Balanced mac (scan_backups token) none p h = ground arith
resume-Balanced mac (scan_backups token) (some counts) p h = ground arith
resume-Balanced mac (ask_unreachable m tb) true p h =
    Balanced-of_Tally mac (ask_unreachable m tb) p (check_signal-Tally mac m tb p h)
resume-Balanced mac (ask_unreachable m tb) false p h = omega arith
resume-Balanced mac (ask_weak m tb) true p h =
    Balanced-of_Tally mac (ask_weak m tb) p (start_read-Tally mac m tb p h)
resume-Balanced mac (ask_weak m tb) false p h = omega arith
resume-Balanced mac (read m token tb) ReadReply.failed p h =
    ground (arith, has-delete m mac p.inflight)
resume-Balanced mac (read m token tb) ReadReply.refused p h =
    ground (arith, has-delete m mac p.inflight)
resume-Balanced mac (read m token tb) (ReadReply.fields f n) p h =
    ground (arith, has-delete m mac p.inflight)
resume-Balanced mac (command token shows) r p h =
    rw (command_done-quiet token shows r p).0 (omega arith)
resume-Balanced mac (write m token) WriteReply.failed p h = ground arith
resume-Balanced mac (write m token) WriteReply.refused p h = ground arith
resume-Balanced mac (write m token) WriteReply.unchanged p h = ground arith
resume-Balanced mac (write m token) (WriteReply.verified c) p h = ground arith
resume-Balanced mac (ask_clear_lcd m) r p h = ground arith
resume-Balanced mac (unmarked_read m) r p h = omega arith

-- The step does not press Connect while a question before a connect is open.
abbrev pub IsOrderly : {w w' : World} → Step w w' → Type 0
IsOrderly {w} (acts a e p ts) = is_connect a ≡ true → (mac : String) → count (asks mac) w.tasks ≡ 0
IsOrderly (answers before after t r e p ts) = Unit

pub data ReachOrderly : World → Type 0 where
  outset : ReachOrderly start
  turn : {w w' : World} → ReachOrderly w → (st : Step w w') → IsOrderly st → ReachOrderly w'

-- The tally after a press of Connect, or after any other action.
act-IsTallied :
    (mac : String) (a : Action) (w : World)
    → (is_connect a ≡ true → count (asks mac) w.tasks ≡ 0)
    → IsTallied mac w
    → IsTallied mac (record { panel = (act a w.panel).0; tasks = w.tasks ++ (act a w.panel).1 })
act-IsTallied mac a w quiet h =
    let reads_of = count-append (reads mac) w.tasks (act a w.panel).1 in
    let asks_of = count-append (asks mac) w.tasks (act a w.panel).1 in
    elim (act-Tally mac a w.panel) [
      | inl (same, r, q) ↦ rw same (omega (arith, h, reads_of, asks_of, r, q))
      | inr (c, t) ↦ omega (arith, h, reads_of, asks_of, quiet c, t.into_flight, t.one_way)
    ]

not_held : (b : Bool) → bit b ≡ 0 → b ≡ false
not_held b e = ground arith

Step-IsTallied :
    (mac : String) {w w' : World} (st : Step w w')
    → IsOrderly st
    → IsTallied mac w
    → IsTallied mac w'
Step-IsTallied mac {w} {w'} (acts a e p ts) o h =
    rw (p, ts) (act-IsTallied mac a w (λ c. o c mac) h)
Step-IsTallied mac {w} {w'} (answers before after t r e p ts) o h =
    let (few_reads, few_asks) = rw e at h in
    let read_part = count_drop (reads mac) before t after in
    let ask_part = count_drop (asks mac) before t after in
    let (into, way) =
      resume-Balanced mac t r w.panel
        (λ asked. not_held _ (omega (arith, few_asks, ask_part, ap bit asked))) in
    rw (p, ts)
      (omega (
        arith,
        few_reads,
        few_asks,
        read_part,
        ask_part,
        into,
        way,
        count-append (reads mac) (before ++ after) (resume t r w.panel).1,
        count-append (asks mac) (before ++ after) (resume t r w.panel).1,
      ))

start-IsTallied : (mac : String) → IsTallied mac start
unfolding fresh
start-IsTallied mac = rw (has-nil mac) (omega arith)

-- As long as Connect is not pressed under an open question, at most one of the reads of a device that Connect
-- started waits at any time, a waiting one keeps the device marked as in flight, and no question about a
-- device is open while it is in flight. The reads of the Compare matrix and after a restore, which may start
-- and end at any time, are not among those, since they do not mark the device.
pub ReachOrderly-IsTallied : (mac : String) {w : World} → ReachOrderly w → IsTallied mac w
ReachOrderly-IsTallied mac outset = start-IsTallied mac
ReachOrderly-IsTallied mac (turn r st o) = Step-IsTallied mac st o (ReachOrderly-IsTallied mac r)
