-- ===== src/Job/Examples.antt =====
-- The theorems on image jobs at concrete databases and histories.
use donkey.Base.{◌⊎◌, ◌≡◌, refl, true, false, some, List, [], ◌∷◌, All, any, ok, err, arith}
use donkey.Error.{bad_request}
use donkey.Job.{JobRow, pending, running, completed, failed}
use donkey.Job.Store.{Owner, Db, rows_affected, find_job, find_owner, is_token, claim_image_job}
use donkey.Job.Service.{done, skip, lease_until, owns, finish_job}
use donkey.Job.Lifecycle.{IsWellFormed, run-IsWellFormed}
use donkey.Job.Moves.{step-Moved, run-completed}
use donkey.Job.Changes.{Moved, Noted}
use donkey.Job.Direct.{forgets_storage}
use donkey.Job.Service.{cancel_job_from_status}
use donkey.Job.Cancel.{alone, Stopped, cancel_job_from_status_lem}
use donkey.Job.Fencing.{step_absent}
use donkey.Job.Takeover.{takeover}
use donkey.Job.Restart.{retry_claim_restarts}
use donkey.Job.Finish.{Ended, finish_job_uninterrupted, finish_job_raced}
use donkey.Job.Steps.{
  JobStep, claim, finish, recover, cancel, retry, stage, direct, pending_job, step, run,
}

abbrev queued : JobRow
queued = pending_job 7 100

abbrev busy : JobRow
busy = record queued {
  status = running;
  stage = "resolving";
  lease_until = some 800;
  started_at = some 200;
}

abbrev cancelling : JobRow
cancelling = record busy { cancel_requested = true }

abbrev ended : JobRow
ended = record queued { status = completed; stage = "completed"; finished_at = some 900 }

abbrev broken : JobRow
broken = record queued { status = failed; error = some "no such tag"; finished_at = some 900 }

abbrev owner_7 : Owner
owner_7 = record { job_id = 7; worker_id = 1; attempt = 1 }

abbrev db_with : List JobRow → List Owner → Db
db_with jobs owners = record { jobs = jobs; owners = owners; lineage = []; rules = [] }

abbrev history : List JobStep
history =
    claim 7 2 1000
    ∷ stage 7 2 2 "copying" 1010
    ∷ recover 2000
    ∷ cancel 7 pending 2001
    ∷ finish 7 2 2 2002 false (ok skip)
    ∷ []

run-IsWellFormed_example : All IsWellFormed (run (db_with (busy ∷ ended ∷ []) []) history).jobs
run-IsWellFormed_example =
    run-IsWellFormed history (db_with (busy ∷ ended ∷ []) [])
      (((λ q. cc), (λ q. cc), refl), ((refl, (λ q. cc), refl), tt))

step-Moved_example :
    (r' : JobRow) × (find_job 7 (step (db_with (broken ∷ []) []) (retry 7 1000)).jobs ≡ some r')
    × Moved 7 (retry 7 1000) broken r'
unfolding find_job
step-Moved_example = step-Moved (db_with (broken ∷ []) []) (retry 7 1000) 7 broken refl refl

run-completed_example :
    (r' : JobRow) × (find_job 7
        (run
          (db_with (ended ∷ []) (owner_7 ∷ []))
          (retry 7 950 ∷ direct 7 forgets_storage ∷ history)).jobs
      ≡ some r')
    × Noted ended r'
unfolding find_job
run-completed_example =
    run-completed (retry 7 950 ∷ direct 7 forgets_storage ∷ history)
      (db_with (ended ∷ []) (owner_7 ∷ [])) 7 ended refl refl refl

step_absent_example :
    step (db_with (busy ∷ []) (owner_7 ∷ [])) (finish 7 1 2 900 false (ok done))
    ≡ db_with (busy ∷ []) (owner_7 ∷ [])
step_absent_example =
    step_absent (db_with (busy ∷ []) (owner_7 ∷ [])) (finish 7 1 2 900 false (ok done)) 7 1 2 refl
      refl

takeover_example :
    step
      (run
        (step (db_with (queued ∷ []) (owner_7 ∷ [])) (claim 7 2 900))
        (stage 7 2 2 "copying" 910 ∷ finish 7 2 2 920 false (ok done) ∷ []))
      (finish 7 1 1 930 false (err "late"))
    ≡ run
        (step (db_with (queued ∷ []) (owner_7 ∷ [])) (claim 7 2 900))
        (stage 7 2 2 "copying" 910 ∷ finish 7 2 2 920 false (ok done) ∷ [])
unfolding find_job find_owner rows_affected
takeover_example =
    takeover (db_with (queued ∷ []) (owner_7 ∷ [])) 7 2 900 owner_7 queued
      (stage 7 2 2 "copying" 910 ∷ finish 7 2 2 920 false (ok done) ∷ [])
      (finish 7 1 1 930 false (err "late")) refl refl refl refl refl (omega arith) refl refl refl

-- The fourth attempt fails, and the next one is number 1.
retry_claim_restarts_example :
    (claim_image_job
      (step
        (step
          (db_with (busy ∷ []) (record { job_id = 7; worker_id = 1; attempt = 4 } ∷ []))
          (finish 7 1 4 900 false (err "no such tag")))
        (retry 7 1000))
      7
      2
      1100
      (lease_until 1100)).1
    ≡ some 1
unfolding find_job rows_affected find_owner owns
retry_claim_restarts_example =
    retry_claim_restarts
      (db_with (busy ∷ []) (record { job_id = 7; worker_id = 1; attempt = 4 } ∷ [])) 7 1 4 2 900
      1000 1100 "no such tag" busy refl refl refl refl refl refl

-- The cancellation wins over the result.
finish_job_uninterrupted_example :
    let (after, answer) =
      finish_job
        (db_with (cancelling ∷ []) (owner_7 ∷ []))
        (db_with (cancelling ∷ []) (owner_7 ∷ []))
        (db_with (cancelling ∷ []) (owner_7 ∷ []))
        7
        1
        1
        900
        (ok done) in
    (answer ≡ ok tt)
    × ((r' : JobRow) × (find_job 7 after.jobs ≡ some r') × Ended true (ok done) 900 cancelling r')
    × (any (is_token 7 1 1) after.owners ≡ false)
unfolding find_job rows_affected owns find_owner
finish_job_uninterrupted_example =
    finish_job_uninterrupted (db_with (cancelling ∷ []) (owner_7 ∷ [])) 7 1 1 900 (ok done)
      cancelling refl refl refl refl

finish_job_raced_example :
    finish_job
      (db_with (busy ∷ []) (owner_7 ∷ []))
      (db_with (busy ∷ []) (owner_7 ∷ []))
      (db_with (cancelling ∷ []) (owner_7 ∷ []))
      7
      1
      1
      900
      (ok done)
    ≡ (
      db_with (cancelling ∷ []) (owner_7 ∷ []),
      err (bad_request "image job is no longer in a finishable state"),
    )
unfolding find_job rows_affected owns find_owner
finish_job_raced_example =
    finish_job_raced (db_with (busy ∷ []) (owner_7 ∷ [])) (db_with (busy ∷ []) (owner_7 ∷ []))
      (db_with (cancelling ∷ []) (owner_7 ∷ [])) 7 1 1 900 (ok done) busy cancelling refl refl refl
      refl refl

cancel_job_from_status_lem_example :
    let (db', answer) =
      cancel_job_from_status 7 950
        ((alone, alone) ∷ (alone, alone) ∷ [])
        pending
        (db_with (busy ∷ []) (owner_7 ∷ [])) in
    (answer ≡ some (ok tt))
    × (((r' : JobRow) × (find_job 7 db'.jobs ≡ some r') × Stopped running 950 busy r')
        ⊎ ((running ≡ running)
            × (busy.cancel_requested ≡ true)
            × (db' ≡ db_with (busy ∷ []) (owner_7 ∷ []))))
unfolding find_job rows_affected
cancel_job_from_status_lem_example =
    cancel_job_from_status_lem (db_with (busy ∷ []) (owner_7 ∷ [])) 7 950 pending busy refl refl
      refl refl
