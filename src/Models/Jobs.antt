-- ===== src/Models/Jobs.antt =====
-- libs/models/jobs.py. `approval_metadata` is the association list of its entries.
use autonomous_iq.Prelude.{ℕ, String, Option, Bool, true, false, List}
use autonomous_iq.Prelude.Text.{Text}

pub data TransformationJobStatus : Type 0 where
  pending_approval approved running succeeded failed rejected : TransformationJobStatus

abbrev pub is_approved : TransformationJobStatus → Bool
is_approved approved = true
is_approved _ = false

abbrev pub is_pending : TransformationJobStatus → Bool
is_pending pending_approval = true
is_pending _ = false

pub data ExecutionTarget : Type 0 where
  cloud local : ExecutionTarget

-- A value of the metadata: a text, an id, or a time.
pub data Meta : Type 0 where
  text_meta : Text → Meta
  id_meta : ℕ → Meta
  time_meta : ℕ → Meta

pub record TransformationJob : Type 0 where
  pub id : ℕ
  pub dataset_id : ℕ
  pub code_version : Text
  pub dataset_version : ℕ
  pub sample_used : Bool
  pub status : TransformationJobStatus
  pub approval_metadata : List (String × Meta)
  pub cache_key : Text
  pub execution_target : ExecutionTarget

pub data TicketStatus : Type 0 where
  open_ in_progress resolved closed : TicketStatus

pub record Ticket : Type 0 where
  pub id : ℕ
  pub workspace_id : ℕ
  pub status : TicketStatus
  pub category : String
  pub created_by : Option ℕ
  pub title : String
  pub description : Option String

pub data TenantRequestStatus : Type 0 where
  pending approved rejected : TenantRequestStatus

pub record TenantRequest : Type 0 where
  pub id : ℕ
  pub company_name : String
  pub contact_info : String
  pub status : TenantRequestStatus
  pub reviewed_by : Option ℕ
  pub reviewed_at : Option ℕ
