-- ===== src/Job/Status.antt =====
-- Parsing of job kinds and states, and the edges of the state machine, in src/image_tools.rs.
use Prim.Native.String.{String}
use text.Mathlib.Text.{◌==◌}
use donkey.Base.{◌≡◌, refl, Option, none, some, if◌then◌else◌}
use donkey.Job.{
  JobKind, export, extract, copy, JobStatus, pending, running, completed, skipped, failed,
  cancelled, as_str,
}

pub parse_job_kind : String → Option JobKind
parse_job_kind value =
    if value == "export"
    then some export
    else if value == "extract"
    then some extract
    else if value == "copy"
    then some copy
    else none

pub parse_status : String → Option JobStatus
parse_status value =
    if value == "pending"
    then some pending
    else if value == "running"
    then some running
    else if value == "completed"
    then some completed
    else if value == "skipped"
    then some skipped
    else if value == "failed"
    then some failed
    else if value == "cancelled"
    then some cancelled
    else none

-- What is written to the status column is read back as the same state.
pub parse_status-as_str : (s : JobStatus) → parse_status (as_str s) ≡ some s
unfolding parse_status
parse_status-as_str pending = refl
parse_status-as_str _ = refl
