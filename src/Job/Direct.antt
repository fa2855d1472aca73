-- ===== src/Job/Direct.antt =====
-- The writes on image jobs that ask for no owner: those of src/image_tools/job_store.rs where no
-- attempt is active in this process, and `remove_job_storage` of src/image_tools.rs, which the
-- cleanup, the quota and the purge call.
use Prim.Native.String.{String}
use donkey.Base.{ℕ, Bool, ◌&&◌, Option, none, some, ◌==◌}
use donkey.Job.{JobRow, running, same_status}
use donkey.Job.Store.{Db, update_where, with_progress, with_stage}
use donkey.Job.Service.{lease_until}

pub data DirectWrite : Type 0 where
  sets_manifest : String → Option String → ℕ → DirectWrite
  sets_progress : String → ℕ → ℕ → ℕ → DirectWrite
  sets_stage : String → ℕ → DirectWrite
  sets_artifact : String → String → DirectWrite
  forgets_storage : DirectWrite

-- Progress and stage are written on running jobs only.
abbrev pub direct_filter : ℕ → DirectWrite → JobRow → Bool
direct_filter job (sets_progress stage current total now) r =
    r.id == job && same_status r.status running
direct_filter job (sets_stage stage now) r = r.id == job && same_status r.status running
direct_filter job _ r = r.id == job

abbrev pub direct_change : DirectWrite → JobRow → JobRow
direct_change (sets_manifest digest index total) r = record r {
  resolved_digest = some digest;
  index_digest = index;
  total_bytes = total;
}
direct_change (sets_progress stage current total now) r =
    with_progress stage current total (lease_until now) now r
direct_change (sets_stage stage now) r = with_stage stage (lease_until now) now r
direct_change (sets_artifact path name) r = record r {
  artifact_path = some path;
  artifact_name = some name;
}
direct_change forgets_storage r = record r { artifact_path = none; artifact_name = none }

unfoldable pub write_direct : Db → ℕ → DirectWrite → Db
write_direct db job write = record db {
  jobs = update_where (direct_filter job write) (direct_change write) db.jobs;
}
