-- ===== src/Session/Stale.antt =====
-- The answers that come too late: their token is no longer the panel's.
use ha_telink_manager.Prelude.{
  ℕ, ◌+◌, ◌≤◌, ◌<◌, Option, none, some, List, [], ◌∷◌, ◌++◌, ◌≡◌, ◌≢◌, refl, ◌⊎◌, inl, inr, All,
  All-append, arith,
}
use ha_telink_manager.Session.{
  Panel, Task, scan_devices, scan_backups, ask_unreachable, ask_weak, read, command, write,
  ask_clear_lcd, unmarked_read, read_disabled,
}
use ha_telink_manager.Session.Tasks.{Answer, ReadReply, WriteReply, CmdReply, resume, landed}
use ha_telink_manager.Session.World.{World, Step, acts, answers, Action, act, Reach, here, next}

-- The token that a task holds. The questions hold none: their answer is never stale.
abbrev pub token_of : Task → Option ℕ
token_of (scan_devices token prev) = some token
token_of (scan_backups token) = some token
token_of (read mac token tb) = some token
token_of (command token shows) = some token
token_of (write mac token) = some token
token_of _ = none

abbrev pub IsStale : ℕ → Option ℕ → Type 0
IsStale op none = ⊥
IsStale op (some token) = token ≢ op

-- What a stale task still does: a connect that has ended gives its device free.
abbrev pub released : Task → Panel → Panel
released (read mac token tb) p = record (landed mac p) {
  read_button_disabled = read_disabled (landed mac p);
}
released _ p = p

-- A stale answer, whatever it says, changes nothing but which device is still connecting and with it
-- the Connect button, and it starts nothing.
pub resume_stale :
    (t : Task) (r : Answer t) (p : Panel)
    → IsStale p.op (token_of t)
    → resume t r p ≡ (released t p, [])
unfolding resume
resume_stale (scan_devices token prev) none p h = ground arith
resume_stale (scan_devices token prev) (some devs) p h = ground arith
resume_stale (scan_backups token) r p h = ground arith
resume_stale (ask_unreachable mac tb) r p h = absurd h
resume_stale (ask_weak mac tb) r p h = absurd h
resume_stale (read mac token tb) r p h = ground arith
resume_stale (command token shows) r p h = ground arith
resume_stale (write mac token) r p h = ground arith
resume_stale (ask_clear_lcd mac) r p h = absurd h
resume_stale (unmarked_read mac) r p h = absurd h

abbrev IsIssued : ℕ → Option ℕ → Type 0
IsIssued op none = Unit
IsIssued op (some token) = token ≤ op

abbrev pub Issued : ℕ → Task → Type 0
Issued op t = IsIssued op (token_of t)

Issued-mono : {m n : ℕ} → m ≤ n → (t : Task) → Issued m t → Issued n t
Issued-mono h (scan_devices token prev) i = omega arith
Issued-mono h (scan_backups token) i = omega arith
Issued-mono h (read mac token tb) i = omega arith
Issued-mono h (command token shows) i = omega arith
Issued-mono h (write mac token) i = omega arith
Issued-mono h (ask_unreachable mac tb) i = tt
Issued-mono h (ask_weak mac tb) i = tt
Issued-mono h (ask_clear_lcd mac) i = tt
Issued-mono h (unmarked_read mac) i = tt

All-Issued-mono : {m n : ℕ} → m ≤ n → (ts : List Task) → All (Issued m) ts → All (Issued n) ts
All-Issued-mono h [] a = tt
All-Issued-mono h (t ∷ ts) a = (Issued-mono h t a.0, All-Issued-mono h ts a.1)

-- The token of the panel only grows, and what an action starts has a token of the panel.
act-op :
    (a : Action) (p : Panel) → (p.op ≤ (act a p).0.op) × All (Issued (act a p).0.op) (act a p).1
unfolding act
act-op Action.refresh p = ground arith
act-op a p = ground arith

resume-op :
    (t : Task) (r : Answer t) (p : Panel)
    → Issued p.op t
    → (p.op ≤ (resume t r p).0.op) × All (Issued (resume t r p).0.op) (resume t r p).1
unfolding resume
resume-op (scan_devices token prev) none p i = ground arith
resume-op (read mac token tb) ReadReply.failed p i = ground arith
resume-op (write mac token) WriteReply.failed p i = ground arith
resume-op (command token shows) CmdReply.failed p i = ground arith
resume-op _ r p i = ground arith

All-snoc_drop :
    (P : Task → Type 0) (before : List Task) (t : Task) (after : List Task)
    → All P (before ++ t ∷ after)
    → P t × All P (before ++ after)
All-snoc_drop P [] t after h = h
All-snoc_drop P (b ∷ before) t after h =
    let rest = All-snoc_drop P before t after h.1 in (rest.0, (h.0, rest.1))

abbrev pub AllIssued : World → Type 0
AllIssued w = All (Issued w.panel.op) w.tasks

pub Step-AllIssued : {w w' : World} → Step w w' → AllIssued w → AllIssued w'
Step-AllIssued {w} {w'} (acts a e p ts) i =
    let (le, new) = act-op a w.panel in
    rw (p, ts) (All-append _ w.tasks _ (All-Issued-mono le w.tasks i) new)
Step-AllIssued {w} {w'} (answers before after t r e p ts) i =
    let (it, rest) = All-snoc_drop (Issued w.panel.op) before t after (rw e at i) in
    let (le, new) = resume-op t r w.panel it in
    rw (p, ts) (All-append _ (before ++ after) _ (All-Issued-mono le (before ++ after) rest) new)

-- In every state that the panel comes to, no task holds a token above the panel's.
pub Reach-AllIssued : {w : World} → Reach w → AllIssued w
Reach-AllIssued here = tt
Reach-AllIssued (next r st) = Step-AllIssued st (Reach-AllIssued r)

-- The actions that give up what is under way.
pub data GivesUp : Action → Type 0 where
  cancel_op : GivesUp Action.cancel_op
  leave : GivesUp Action.leave

abbrev pub Settled : ℕ → Task → Type 0
Settled op t = (token_of t ≡ none) ⊎ IsStale op (token_of t)

Settled-suc : (op op' : ℕ) (t : Task) → op < op' → Issued op t → Settled op' t
Settled-suc op op' (scan_devices token prev) h i = inr (omega arith)
Settled-suc op op' (scan_backups token) h i = inr (omega arith)
Settled-suc op op' (read mac token tb) h i = inr (omega arith)
Settled-suc op op' (command token shows) h i = inr (omega arith)
Settled-suc op op' (write mac token) h i = inr (omega arith)
Settled-suc op op' (ask_unreachable mac tb) h i = inl refl
Settled-suc op op' (ask_weak mac tb) h i = inl refl
Settled-suc op op' (ask_clear_lcd mac) h i = inl refl
Settled-suc op op' (unmarked_read mac) h i = inl refl

All-Settled : (op op' : ℕ) (ts : List Task) → op < op' → All (Issued op) ts → All (Settled op') ts
All-Settled op op' [] h i = tt
All-Settled op op' (t ∷ ts) h i = (Settled-suc op op' t h i.0, All-Settled op op' ts h i.1)

-- Once the user presses Cancel, or leaves the page, every request that was waiting is stale: only
-- the questions and the reads outside of Connect, which hold no token, can still go on.
pub GivesUp-All-Settled :
    {w : World} (a : Action) → Reach w → GivesUp a → All (Settled (act a w.panel).0.op) w.tasks
unfolding act
GivesUp-All-Settled {w} a r GivesUp.cancel_op =
    All-Settled w.panel.op (w.panel.op + 1) w.tasks (omega arith) (Reach-AllIssued r)
GivesUp-All-Settled {w} a r GivesUp.leave =
    All-Settled w.panel.op (w.panel.op + 1) w.tasks (omega arith) (Reach-AllIssued r)
