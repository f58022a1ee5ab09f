-- ===== src/Job/Tests.antt =====
-- A job over two proxies: the first device answers, the second fails, and the third is done.
use ha_telink_manager.Prelude.{
  ◌+◌, ◌≤◌, true, false, not, ◌&&◌, none, some, List, [], ◌∷◌, String, if◌then◌else◌, ◌≡◌, ◌⊎◌,
  refl, add, delete,
}
use ha_telink_manager.Job.{
  Job, waiting, working, error, next, start, group, grouped, Work, begins, answers, works, cancels,
  here, there, cancel_job, Encrypted, failed, is_failed, encrypt_one,
}
use ha_telink_manager.Job.Account.{IsAccounted, Reach-IsAccounted}
use ha_telink_manager.Job.Ends.{stop, step, steps_of, Run-ends}
use ha_telink_manager.Job.Keys.{keys, is_fine, is_stranded, encrypt_one_lem}

abbrev entries : List (String × String)
entries =
    ("A4:C1:38:00:00:01", "hall") ∷ ("A4:C1:38:00:00:02", "") ∷ ("A4:C1:38:00:00:03", "hall") ∷ []

abbrev first_job : Job
first_job = record {
  active = true;
  cancel = false;
  total = 3;
  done = 0;
  ok = 0;
  fail = 0;
  running = [];
  failures = [];
  result = none;
  workers =
      waiting ("A4:C1:38:00:00:01" ∷ "A4:C1:38:00:00:03" ∷ [])
      ∷ waiting ("A4:C1:38:00:00:02" ∷ [])
      ∷ [];
}

first_job_lem : start none entries ≡ some first_job
unfolding start grouped group
first_job_lem = refl

abbrev begun : Job
begun = record first_job {
  running = "A4:C1:38:00:00:01" ∷ [];
  workers =
      working "A4:C1:38:00:00:01" ("A4:C1:38:00:00:03" ∷ [])
      ∷ waiting ("A4:C1:38:00:00:02" ∷ [])
      ∷ [];
}

begun-Work : Work first_job begun
unfolding next add
begun-Work =
    begins {j = first_job} [] (waiting ("A4:C1:38:00:00:02" ∷ []) ∷ [])
      ("A4:C1:38:00:00:01" ∷ "A4:C1:38:00:00:03" ∷ []) refl

abbrev failed_once : Job
failed_once = record begun {
  done = 1;
  fail = 1;
  running = "A4:C1:38:00:00:03" ∷ [];
  failures = ("A4:C1:38:00:00:01", "timeout") ∷ [];
  workers = working "A4:C1:38:00:00:03" [] ∷ waiting ("A4:C1:38:00:00:02" ∷ []) ∷ [];
}

failed-Work : Work begun failed_once
unfolding next add delete
failed-Work =
    answers {j = begun} [] (waiting ("A4:C1:38:00:00:02" ∷ []) ∷ []) "A4:C1:38:00:00:01"
      ("A4:C1:38:00:00:03" ∷ []) (error "timeout") refl

Reach-IsAccounted_example : IsAccounted (cancel_job failed_once)
Reach-IsAccounted_example =
    Reach-IsAccounted none entries {j = first_job} {k = cancel_job failed_once} first_job_lem
      (there (there (there here (works begun-Work)) (works failed-Work)) cancels)

Run-ends_example :
    (2 + steps_of failed_once ≤ steps_of first_job)
    × ((failed_once.active ≡ false) ⊎ ((l : Job) × Work failed_once l))
Run-ends_example =
    Run-ends {n = 2} {j = first_job} {k = failed_once} (step begun-Work (step failed-Work stop))

abbrev answer : Encrypted
answer = record {
  ok = true;
  maybe_changed = false;
  bind_key = some "000102030405060708090a0b0c0d0e0f";
  ha = failed;
  message = "";
}

encrypt_one_lem_example :
    (keys (encrypt_one true answer).1
      ≡ (if is_stranded answer then "000102030405060708090a0b0c0d0e0f" ∷ [] else []))
    × (is_fine (encrypt_one true answer).0
        ≡ (answer.ok && (not answer.maybe_changed && not (is_failed answer.ha))))
encrypt_one_lem_example = encrypt_one_lem answer "000102030405060708090a0b0c0d0e0f" refl
