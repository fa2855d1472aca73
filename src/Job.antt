-- ===== src/Job.antt =====
-- Image jobs: the kinds and the states of src/image_tools.rs, and a job's row in the table
-- `image_jobs` of src/db.rs.
--
-- Identifiers and times are numbers. The status column holds `as_str` of a status (a trigger of
-- src/db.rs rejects anything else); the columns that no operation here writes are left out.
pub mod Status
pub mod Store
pub mod Service
pub mod Direct
pub mod Rows
pub mod Fencing
pub mod Lifecycle
pub mod Steps
pub mod Changes
pub mod Requests
pub mod Moves
pub mod Keys
pub mod Owners
pub mod Guard
pub mod Fence
pub mod Takeover
pub mod Cancel
pub mod Finish
pub mod Restart
mod Examples
use Prim.Native.String.{String}
use donkey.Base.{ℕ, Bool, true, false, Option, ◌||◌}

pub data JobKind : Type 0 where
  export extract copy : JobKind

pub data JobStatus : Type 0 where
  pending running completed skipped failed cancelled : JobStatus

pub record JobRow : Type 0 where
  pub id : ℕ
  pub status : JobStatus
  pub stage : String
  pub progress_bytes : ℕ
  pub total_bytes : ℕ
  pub resolved_digest : Option String
  pub index_digest : Option String
  pub artifact_path : Option String
  pub artifact_name : Option String
  pub error : Option String
  pub cancel_requested : Bool
  pub lease_until : Option ℕ
  pub created_at : ℕ
  pub updated_at : ℕ
  pub started_at : Option ℕ
  pub finished_at : Option ℕ

abbrev pub job_kind_str : JobKind → String
job_kind_str export = "export"
job_kind_str extract = "extract"
job_kind_str copy = "copy"

abbrev pub as_str : JobStatus → String
as_str pending = "pending"
as_str running = "running"
as_str completed = "completed"
as_str skipped = "skipped"
as_str failed = "failed"
as_str cancelled = "cancelled"

-- The derived equality of statuses, and of the strings that stand for them in a filter.
abbrev pub same_status : JobStatus → JobStatus → Bool
same_status pending pending = true
same_status running running = true
same_status completed completed = true
same_status skipped skipped = true
same_status failed failed = true
same_status cancelled cancelled = true
same_status _ _ = false

unfoldable pub can_transition_to : JobStatus → JobStatus → Bool
can_transition_to pending next = same_status next running || same_status next cancelled
can_transition_to running next =
    same_status next completed
    || same_status next skipped
    || same_status next failed
    || same_status next cancelled
can_transition_to failed next = same_status next pending
can_transition_to cancelled next = same_status next pending
can_transition_to skipped next = same_status next pending
can_transition_to completed next = false
