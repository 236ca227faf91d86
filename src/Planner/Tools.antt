-- ===== src/Planner/Tools.antt =====
-- apps/planner/tools.py: the four tools of the planner. The id of a job, a fresh UUID, is an
-- argument.
pub mod Proposing
use autonomous_iq.Prelude.{
  ℕ, Bool, true, false, not, ◌&&◌, List, [], ◌∷◌, map, Option, none, some, take, filter, ◌==◌,
  if◌then◌else◌,
}
use autonomous_iq.Prelude.Text.{Text, codes}
use autonomous_iq.Errors.{Failure}
use autonomous_iq.Models.Content.{Dataset, Tracker, ChatMessage}
use autonomous_iq.Models.Jobs.{TransformationJob, pending_approval, cloud, text_meta, id_meta}
use autonomous_iq.Models.Database.{Database, get_by}
use autonomous_iq.Models.Schema.{insert_job}
use autonomous_iq.Models.Session.{Session, Outcome, done, raised, commit, flush, ◌>>>◌}
use autonomous_iq.Recalc.Coord.{CellCoord}
use autonomous_iq.Recalc.Repository.{TrackerCell}
use autonomous_iq.Planner.Provider.{ToolSchema}
use autonomous_iq.Planner.Rag.{RagHit, search}

-- What the tools use of Python's library: the hexadecimal digest of the SHA-256 of a text, the
-- order in which a set of words is iterated, and uuid.UUID of a text, where it is one; and of the
-- database, how it orders messages by created_at, whose times are left out.
pub record Library : Type 0 where
  pub hexdigest : Text → Text
  pub iterated : List Text → List Text
  pub uuid_of : Text → Option ℕ
  pub by_created_at : List ChatMessage → List ChatMessage

-- TOOL_SCHEMAS
abbrev pub sql_schema : ToolSchema
sql_schema = record {
  name = codes "sql_query_tool";
  description =
      "Run a SQL query against a connected database dataset. Requires human approval before executing.";
  properties = codes "dataset_id" ∷ codes "sql" ∷ [];
  required = codes "dataset_id" ∷ codes "sql" ∷ [];
}

abbrev pub tracker_schema : ToolSchema
tracker_schema = record {
  name = codes "tracker_query_tool";
  description = "Read or propose changes to a Tracker grid. Requires human approval for any write.";
  properties = codes "tracker_id" ∷ codes "prompt" ∷ [];
  required = codes "tracker_id" ∷ [];
}

abbrev pub doc_schema : ToolSchema
doc_schema = record {
  name = codes "doc_search_tool";
  description = "Search uploaded documents via RAG. Read-only, not approval-gated.";
  properties = codes "query" ∷ [];
  required = codes "query" ∷ [];
}

abbrev pub chart_schema : ToolSchema
chart_schema = record {
  name = codes "chart_tool";
  description =
      "Produce a chart spec from a dataset or tracker. Requires human approval before rendering.";
  properties = codes "prompt" ∷ [];
  required = codes "prompt" ∷ [];
}

abbrev pub tool_schemas : List ToolSchema
tool_schemas = sql_schema ∷ tracker_schema ∷ doc_schema ∷ chart_schema ∷ []

pub record CellValue : Type 0 where
  pub coord : CellCoord
  pub value : Option Text

pub record ChartSpec : Type 0 where
  pub type : Text
  pub title : Text
  pub x : Text
  pub y : Text

pub data ErrorMessage : Type 0 where
  no_dataset_selected no_tracker_selected : ErrorMessage
  no_dataset no_tracker : ℕ → ErrorMessage
  not_a_uuid unknown_tool : Text → ErrorMessage

pub data ToolResult : Type 0 where
  job_pending : ℕ → ToolResult
  chart_pending : ChartSpec → ℕ → ToolResult
  cells_read : ℕ → List CellValue → ToolResult
  hits_found : List RagHit → ToolResult
  tool_error : ErrorMessage → ToolResult

-- ValueError, ApprovalRequiredError, and what _dispatch does not catch.
pub data ToolException : Type 0 where
  value_error : ErrorMessage → ToolException
  approval_required : ChartSpec → ℕ → ToolException
  failed : Failure → ToolException

abbrev pub Tool : Type 0
Tool = Session → Outcome ToolException ToolResult

-- `c.computed_value or c.raw_value`
abbrev pub shown_value : Option Text → Option Text → Option Text
shown_value none raw = raw
shown_value (some []) raw = raw
shown_value (some (c ∷ s)) raw = some (c ∷ s)

abbrev pub cell_value : TrackerCell → CellValue
cell_value cell = record {
  coord = cell.coord;
  value = shown_value cell.computed_value cell.raw_value;
}

abbrev pub proposed_spec : Text → ChartSpec
proposed_spec prompt = record {
  type = codes "bar";
  title = take 80 prompt;
  x = codes "category";
  y = codes "value";
}

unfoldable pub chart_tool : Text → ℕ → Tool
chart_tool prompt created_by s = raised (approval_required (proposed_spec prompt) created_by) s

unfoldable pub tracker_query_tool : ℕ → ℕ → Tool
unfolding get_by
tracker_query_tool tenant_id tracker_id s =
    elim (get_by (λ (t : Tracker). t.id) tracker_id s.working.trackers) [
      | none ↦ raised (value_error (no_tracker tracker_id)) s
      | some tracker ↦
          if tracker.tenant_id == tenant_id
          then done
              (cells_read tracker_id (
                map cell_value
                  (filter (λ (c : TrackerCell). c.tracker_id == tracker_id) s.working.cells)))
              s
          else raised (value_error (no_tracker tracker_id)) s
    ]

module _ (lib : Library) where
  abbrev pub proposed_job : ℕ → ℕ → ℕ → Text → ℕ → TransformationJob
  proposed_job new_id dataset_id dataset_version sql created_by =
      let cache_key = take 32 (lib.hexdigest sql) in
      record {
        id = new_id;
        dataset_id = dataset_id;
        code_version = cache_key;
        dataset_version = dataset_version;
        sample_used = true;
        status = pending_approval;
        approval_metadata = ("sql", text_meta sql) ∷ ("proposed_by", id_meta created_by) ∷ [];
        cache_key = cache_key;
        execution_target = cloud;
      }

  unfoldable pub sql_query_tool : ℕ → ℕ → ℕ → Text → ℕ → Tool
  unfolding get_by insert_job
  sql_query_tool new_id tenant_id dataset_id sql created_by s =
      elim (get_by (λ (d : Dataset). d.id) dataset_id s.working.datasets) [
        | none ↦ raised (value_error (no_dataset dataset_id)) s
        | some dataset ↦
            if dataset.tenant_id == tenant_id
            then (flush failed
                  (insert_job (proposed_job new_id dataset_id dataset.version sql created_by)
                    s.working)
                  s
                >>> λ _ s'. done (job_pending new_id) (commit s'))
            else raised (value_error (no_dataset dataset_id)) s
      ]

  unfoldable pub doc_search_tool : ℕ → Text → Tool
  unfolding search
  doc_search_tool tenant_id query s =
      done (hits_found (search lib.iterated s.working.documents tenant_id query)) s
