-- ===== src/Job/Ends.antt =====
-- A bulk job comes to an end.
use ha_telink_manager.Prelude.{
  ℕ, ◌+◌, ◌≤◌, ◌<◌, Bool, true, false, List, [], ◌∷◌, ◌++◌, length, String, if◌then◌else◌, ◌≡◌, ◌⊎◌,
  refl, arith, ap, Bool-cases, inl, inr,
}
use ha_telink_manager.Job.{
  Worker, waiting, working, finished, Outcome, fine, error, Job, next, counted, put_worker, end_job,
  AllFinished, Work, begins, answers, ends,
}

-- The steps that a worker has before it at most: one to begin, and one for each device.
unfoldable pub steps : Worker → ℕ
steps (waiting devs) = length devs + 1
steps (working mac devs) = length devs + 1
steps finished = 0

unfoldable pub steps_all : List Worker → ℕ
unfolding steps
steps_all [] = 0
steps_all (w ∷ ws) = steps w + steps_all ws

unfoldable pub steps_of : Job → ℕ
unfolding steps_all
steps_of j = steps_all j.workers + (if j.active then 1 else 0)

steps_all-append :
    (before : List Worker) (w : Worker) (after : List Worker)
    → steps_all (before ++ (w ∷ after)) ≡ steps w + steps_all (before ++ after)
unfolding steps_all
steps_all-append [] w after = refl
steps_all-append (v ∷ before) w after = omega (arith, steps_all-append before w after)

steps-next : (c : Bool) (devs : List String) → steps (next c devs) ≤ length devs
unfolding steps next
steps-next c [] = ground arith
steps-next true (d ∷ devs) = ground arith
steps-next false (d ∷ devs) = ground arith

-- What a job's task does, any number of times.
pub data Run : ℕ → Job → Job → Type 0 where
  stop : {j : Job} → Run 0 j j
  step : {n : ℕ} {j k l : Job} → Work j k → Run n k l → Run (n + 1) j l

worker_step :
    (j : Job) (on : Bool) (before : List Worker) (w v : Worker) (after : List Worker)
    → j.workers ≡ before ++ (w ∷ after)
    → steps v < steps w
    → steps_all (before ++ (v ∷ after)) < steps_all j.workers
worker_step j on before w v after e h =
    omega
      (arith, ap steps_all e, steps_all-append before w after, steps_all-append before v after, h)

counted-keeps : (mac : String) (o : Outcome) (j : Job) → (counted mac o j).active ≡ j.active
counted-keeps mac fine j = refl
counted-keeps mac (error e) j = refl

put_worker-steps :
    (before : List Worker) (w v : Worker) (after : List Worker) (j i : Job)
    → j.workers ≡ before ++ (w ∷ after)
    → i.active ≡ j.active
    → steps v < steps w
    → steps_of (put_worker before v after i) < steps_of j
unfolding steps_of
put_worker-steps before w v after j i e on h =
    rw (on) (omega (arith, worker_step j j.active before w v after e h))

end-steps : (j : Job) → j.active ≡ true → steps_of (end_job j) < steps_of j
unfolding steps_of end_job
end-steps j on = rw (on) (omega arith)

Work-steps : {j k : Job} → Work j k → steps_of k < steps_of j
unfolding steps
Work-steps (begins {j} before after devs e) =
    put_worker-steps before (waiting devs) (next j.cancel devs) after j j e refl
      (omega (arith, steps-next j.cancel devs))
Work-steps (answers {j} before after mac devs o e) =
    put_worker-steps before (working mac devs) (next j.cancel devs) after j (counted mac o j) e
      (counted-keeps mac o j) (omega (arith, steps-next j.cancel devs))
Work-steps (ends {j} on h) = end-steps j on

Run-steps : {n : ℕ} {j k : Job} → Run n j k → n + steps_of k ≤ steps_of j
Run-steps {j} stop = omega arith
Run-steps (step w r) = omega (arith, Work-steps w, Run-steps r)

-- The first worker whose loop has not ended.
data Found (ws : List Worker) : Type 0 where
  all_through : AllFinished ws → Found ws
  not_begun :
      (before after : List Worker) (devs : List String)
      → ws ≡ before ++ (waiting devs ∷ after)
      → Found ws
  under_way :
      (before after : List Worker) (mac : String) (devs : List String)
      → ws ≡ before ++ (working mac devs ∷ after)
      → Found ws

behind : (ws : List Worker) → Found ws → Found (finished ∷ ws)
behind ws (all_through h) = all_through (refl, h)
behind ws (not_begun before after devs e) =
    not_begun (finished ∷ before) after devs (ap (λ vs. finished ∷ vs) e)
behind ws (under_way before after mac devs e) =
    under_way (finished ∷ before) after mac devs (ap (λ vs. finished ∷ vs) e)

look : (ws : List Worker) → Found ws
look [] = all_through tt
look (waiting devs ∷ ws) = not_begun [] ws devs refl
look (working mac devs ∷ ws) = under_way [] ws mac devs refl
look (finished ∷ ws) = behind ws (look ws)

goes_on : (j : Job) → j.active ≡ true → (k : Job) × Work j k
goes_on j on = go (look j.workers)
  where
    go : Found j.workers → (k : Job) × Work j k
    go (all_through h) = (end_job j, ends on h)
    go (not_begun before after devs e) =
        (put_worker before (next j.cancel devs) after j, begins before after devs e)
    go (under_way before after mac devs e) = (
      put_worker before (next j.cancel devs) after (counted mac fine j),
      answers before after mac devs fine e,
    )

-- Whatever the order in which the workers run and the devices answer, a job's task makes no more steps
-- than one for each worker to begin, one for each device that is left and one to end; and as long as the
-- job is active, there is a step that it can make. So it always comes to its end.
pub Run-ends :
    {n : ℕ} {j k : Job}
    → Run n j k
    → (n + steps_of k ≤ steps_of j) × ((k.active ≡ false) ⊎ ((l : Job) × Work k l))
Run-ends {k = k} r = (Run-steps r, go (Bool-cases k.active))
  where
    go : (k.active ≡ true) ⊎ (k.active ≡ false) → (k.active ≡ false) ⊎ ((l : Job) × Work k l)
    go (inl on) = inr (goes_on k on)
    go (inr off) = inl off
