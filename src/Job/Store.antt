-- ===== src/Job/Store.antt =====
-- The statements on image jobs of src/db.rs, each one transaction on the tables `image_jobs`,
-- `image_job_owners`, `image_job_lineage` and `image_sync_rules`. Database failures, which roll a
-- transaction back, are left out.
use Prim.Native.String.{String}
use donkey.Base.{
  ℕ, ◌+◌, ◌-◌, ◌^◌, min, Bool, true, false, ◌&&◌, not, Option, none, some, List, [], ◌∷◌, length,
  any, keep, ◌==◌, if◌then◌else◌,
}
use donkey.Job.{JobStatus, pending, running, completed, JobRow, same_status}

pub record Owner : Type 0 where
  pub job_id : ℕ
  pub worker_id : ℕ
  pub attempt : ℕ

pub record SyncRule : Type 0 where
  pub id : ℕ
  pub last_digest : Option String
  pub last_run_at : Option ℕ
  pub updated_at : ℕ

pub record Db : Type 0 where
  pub jobs : List JobRow
  pub owners : List Owner
  pub lineage : List (ℕ × ℕ)
  pub rules : List SyncRule

-- `UPDATE … WHERE`: the rows that the filter picks are changed.
unfoldable pub update_where {ℓ} : {A : Type ℓ} → (A → Bool) → (A → A) → List A → List A
update_where p f [] = []
update_where p f (r ∷ rows) = (if p r then f r else r) ∷ update_where p f rows

-- `rows_affected` of a statement with that filter.
unfoldable pub rows_affected {ℓ} : {A : Type ℓ} → (A → Bool) → List A → ℕ
rows_affected p rows = length (keep p rows)

unfoldable pub find_job : ℕ → List JobRow → Option JobRow
find_job id [] = none
find_job id (r ∷ rows) = if r.id == id then some r else find_job id rows

unfoldable pub find_owner : ℕ → List Owner → Option Owner
find_owner id [] = none
find_owner id (o ∷ owners) = if o.job_id == id then some o else find_owner id owners

-- `INSERT … ON CONFLICT(job_id) DO UPDATE`.
unfoldable pub put_owner : Owner → List Owner → List Owner
put_owner new [] = new ∷ []
put_owner new (o ∷ owners) =
    if o.job_id == new.job_id then new ∷ owners else o ∷ put_owner new owners

abbrev pub is_token : ℕ → ℕ → ℕ → Owner → Bool
is_token job worker attempt o = o.job_id == job && o.worker_id == worker && o.attempt == attempt

-- `DELETE FROM image_job_owners WHERE job_id = ? AND worker_id = ? AND attempt = ?`.
unfoldable pub drop_owner : ℕ → ℕ → ℕ → List Owner → List Owner
drop_owner job worker attempt = keep (λ o. not (is_token job worker attempt o))

-- `id = ? AND status = 'running' AND EXISTS (SELECT 1 FROM image_job_owners WHERE …)`.
abbrev pub owned_filter : Db → ℕ → ℕ → ℕ → JobRow → Bool
owned_filter db job worker attempt r =
    r.id == job && same_status r.status running && any (is_token job worker attempt) db.owners

abbrev pub i64_max : ℕ
i64_max = 2 ^ 63 - 1

-- The attempt that a claim takes: one above that of the owner row, or 1.
abbrev pub next_attempt : Option Owner → ℕ
next_attempt none = 1
next_attempt (some o) = min (o.attempt + 1) i64_max

abbrev pub claim_filter : ℕ → JobRow → Bool
claim_filter job r = r.id == job && same_status r.status pending

abbrev pub claimed : ℕ → ℕ → JobRow → JobRow
claimed now lease r = record r {
  status = running;
  stage = "resolving";
  lease_until = some lease;
  started_at = some now;
  updated_at = now;
}

unfoldable pub claim_image_job : Db → ℕ → ℕ → ℕ → ℕ → Db × Option ℕ
claim_image_job db job worker now lease =
    let attempt = next_attempt (find_owner job db.owners) in
    let jobs = update_where (claim_filter job) (claimed now lease) db.jobs in
    let owner : Owner = record { job_id = job; worker_id = worker; attempt = attempt } in
    if rows_affected (claim_filter job) db.jobs == 1
    then (record db { jobs = jobs; owners = put_owner owner db.owners }, some attempt)
    else (record db { jobs = jobs }, none)

-- An update of the rows under the caller's token; it tells whether one row was changed.
unfoldable pub update_owned : (JobRow → JobRow) → Db → ℕ → ℕ → ℕ → Db × Bool
update_owned change db job worker attempt =
    let filter = owned_filter db job worker attempt in
    (record db { jobs = update_where filter change db.jobs }, rows_affected filter db.jobs == 1)

-- The columns that each of the owned updates sets.
abbrev pub renewed : ℕ → ℕ → JobRow → JobRow
renewed now lease r = record r { lease_until = some lease; updated_at = now }

abbrev pub with_manifest : String → Option String → ℕ → ℕ → JobRow → JobRow
with_manifest digest index total now r = record r {
  resolved_digest = some digest;
  index_digest = index;
  total_bytes = total;
  updated_at = now;
}

abbrev pub with_progress : String → ℕ → ℕ → ℕ → ℕ → JobRow → JobRow
with_progress stage progress total lease now r = record r {
  stage = stage;
  progress_bytes = progress;
  total_bytes = total;
  lease_until = some lease;
  updated_at = now;
}

abbrev pub with_stage : String → ℕ → ℕ → JobRow → JobRow
with_stage stage lease now r = record r {
  stage = stage;
  lease_until = some lease;
  updated_at = now;
}

abbrev pub with_artifact : String → String → ℕ → JobRow → JobRow
with_artifact path name now r = record r {
  artifact_path = some path;
  artifact_name = some name;
  updated_at = now;
}

unfoldable pub renew_image_job : Db → ℕ → ℕ → ℕ → ℕ → ℕ → Db × Bool
renew_image_job db job worker attempt now lease =
    update_owned (renewed now lease) db job worker attempt

-- `CURRENT_TIMESTAMP` is the database's clock, `now`.
unfoldable pub update_image_job_manifest_owned :
    Db → ℕ → ℕ → ℕ → String → Option String → ℕ → ℕ → Db × Bool
update_image_job_manifest_owned db job worker attempt digest index total now =
    update_owned (with_manifest digest index total now) db job worker attempt

unfoldable pub update_image_job_progress_owned : Db → ℕ → ℕ → ℕ → String → ℕ → ℕ → ℕ → ℕ → Db × Bool
update_image_job_progress_owned db job worker attempt stage progress total lease now =
    update_owned (with_progress stage progress total lease now) db job worker attempt

unfoldable pub update_image_job_stage_owned : Db → ℕ → ℕ → ℕ → String → ℕ → ℕ → Db × Bool
update_image_job_stage_owned db job worker attempt stage lease now =
    update_owned (with_stage stage lease now) db job worker attempt

unfoldable pub update_image_job_artifact_owned : Db → ℕ → ℕ → ℕ → String → String → ℕ → Db × Bool
update_image_job_artifact_owned db job worker attempt path name now =
    update_owned (with_artifact path name now) db job worker attempt

pub record ImageJobFinish : Type 0 where
  pub job_id : ℕ
  pub worker_id : ℕ
  pub attempt : ℕ
  pub status : JobStatus
  pub error : Option String
  pub now : ℕ
  pub cancel_requested : Bool

abbrev pub same_bool : Bool → Bool → Bool
same_bool true b = b
same_bool false b = not b

abbrev pub finish_filter : Db → ImageJobFinish → JobRow → Bool
finish_filter db f r =
    owned_filter db f.job_id f.worker_id f.attempt r
    && same_bool r.cancel_requested f.cancel_requested

abbrev pub finished : ImageJobFinish → JobRow → JobRow
finished f r = record r {
  status = f.status;
  error = f.error;
  lease_until = none;
  finished_at = some f.now;
  updated_at = f.now;
}

-- The sync rule that a job came from.
abbrev pub rule_of : ℕ → List (ℕ × ℕ) → Option ℕ
rule_of job [] = none
rule_of job ((j, rule) ∷ lineage) = if j == job then some rule else rule_of job lineage

abbrev pub is_rule : Option ℕ → SyncRule → Bool
is_rule none r = false
is_rule (some id) r = r.id == id

abbrev pub digest_of : Option JobRow → Option String
digest_of none = none
digest_of (some r) = r.resolved_digest

unfoldable pub record_run : Db → ImageJobFinish → List SyncRule
record_run db f =
    update_where (is_rule (rule_of f.job_id db.lineage))
      (λ r. record r {
        last_digest = digest_of (find_job f.job_id db.jobs);
        last_run_at = some f.now;
        updated_at = f.now;
      })
      db.rules

unfoldable pub finish_image_job_owned : Db → ImageJobFinish → Db × Bool
finish_image_job_owned db f =
    let jobs = update_where (finish_filter db f) (finished f) db.jobs in
    let rules = if same_status f.status completed then record_run db f else db.rules in
    if rows_affected (finish_filter db f) db.jobs == 1
    then (
      record db {
        jobs = jobs;
        owners = drop_owner f.job_id f.worker_id f.attempt db.owners;
        rules = rules;
      },
      true,
    )
    else (record db { jobs = jobs }, false)
