-- ===== src/Planner/Turn/Cases.antt =====
-- What a tool call of apps/planner/planner.py can come to: one proof for each outcome proves a
-- property of all.
use autonomous_iq.Prelude.{
  ℕ, ◌≡◌, Bool, true, false, List, [], some, ◌==◌, inl, inr, ==_iff, Bool-cases, Option-cases,
  if◌then◌else◌,
}
use autonomous_iq.Prelude.Text.{Text, codes, text_eq}
use autonomous_iq.Errors.{Failure, integrity_error}
use autonomous_iq.Models.Content.{Dataset, Tracker}
use autonomous_iq.Models.Database.{get_by}
use autonomous_iq.Models.Session.{Session, done, raised, opened}
use autonomous_iq.Planner.Provider.{Dict, ToolCallRequest}
use autonomous_iq.Planner.Rag.{search}
use autonomous_iq.Planner.Tools.{
  Library, ErrorMessage, ChartSpec, CellValue, job_pending, cells_read, hits_found, tool_error,
  value_error, approval_required, failed, proposed_job, sql_query_tool, tracker_query_tool,
  doc_search_tool, chart_tool,
}
use autonomous_iq.Planner.Tools.Proposing.{data_id, job_added, insert_cases}
use autonomous_iq.Planner.Turn.{
  Caller, Tried, selected, get_default, try_sql, try_tracker, try_call,
}

abbrev tracker_id : Tracker → ℕ
tracker_id t = t.id

-- The outcomes of a call in a session.
pub record Cases (lib : Library) (caller : Caller) (new_id : ℕ) (query : Text) (s : Session)
    (P : Tried → Type 0) : Type 0 where
  pub refused : (m : ErrorMessage) → P (done (tool_error m) s)
  pub invalid : (m : ErrorMessage) → P (raised (value_error m) s)
  pub uncaught : (e : Failure) → P (raised (failed e) s)
  pub cells : (id : ℕ) (values : List CellValue) → P (done (cells_read id values) s)
  pub chart : (spec : ChartSpec) (by : ℕ) → P (raised (approval_required spec by) s)
  pub hits :
      P (done (hits_found (search lib.iterated s.working.documents caller.tenant_id query)) s)
  pub proposal :
      (id : ℕ) (d : Dataset) (sql : Text)
      → get_by data_id id s.working.datasets ≡ some d
      → d.tenant_id ≡ caller.tenant_id
      → P (
          done (job_pending new_id) (
            opened (job_added (proposed_job lib new_id id d.version sql caller.user_id) s.working)))

module _ (lib : Library) (caller : Caller) (new_id : ℕ) (query : Text) (s : Session)
    (P : Tried → Type 0) (c : Cases lib caller new_id query s P) where
  sql_query_tool-cases :
      (id : ℕ) (sql : Text) → P (sql_query_tool lib new_id caller.tenant_id id sql caller.user_id s)
  unfolding sql_query_tool
  sql_query_tool-cases id sql = elim (Option-cases (get_by data_id id s.working.datasets)) [
    | inl m ↦ rw (m, sql_query_tool) (c.invalid _)
    | inr (d, e) ↦ elim (Bool-cases (d.tenant_id == caller.tenant_id)) [
      | inr f ↦ rw (e, f, sql_query_tool) (c.invalid _)
      | inl f ↦
          elim (insert_cases (proposed_job lib new_id id d.version sql caller.user_id) s.working) [
            | inl g ↦
                rw (e, f, g, sql_query_tool)
                  (c.proposal id d sql e ((==_iff d.tenant_id caller.tenant_id).0 f))
            | inr g ↦ rw (e, f, g, sql_query_tool) (c.uncaught integrity_error)
          ]
    ]
  ]

  tracker_query_tool-cases : (id : ℕ) → P (tracker_query_tool caller.tenant_id id s)
  unfolding tracker_query_tool
  tracker_query_tool-cases id = elim (Option-cases (get_by tracker_id id s.working.trackers)) [
    | inl m ↦ rw (m, tracker_query_tool) (c.invalid _)
    | inr (t, e) ↦ elim (Bool-cases (t.tenant_id == caller.tenant_id)) [
      | inl f ↦ rw (e, f, tracker_query_tool) (c.cells _ _)
      | inr f ↦ rw (e, f, tracker_query_tool) (c.invalid _)
    ]
  ]

  try_sql-cases : (context arguments : Dict) → P (try_sql lib new_id caller context arguments s)
  try_sql-cases context arguments =
      elim (Option-cases (selected (codes "dataset_id") context arguments)) [
        | inl m ↦ rw (m, try_sql) (c.refused _)
        | inr (chosen, e) ↦ elim (Option-cases (lib.uuid_of chosen)) [
          | inl m ↦ rw (e, m, try_sql) (c.invalid _)
          | inr (id, f) ↦
              rw (e, f, try_sql)
                (sql_query_tool-cases id
                  (get_default (codes "sql") (get_default (codes "prompt") [] arguments) arguments))
        ]
      ]

  try_tracker-cases : (context arguments : Dict) → P (try_tracker lib caller context arguments s)
  try_tracker-cases context arguments =
      elim (Option-cases (selected (codes "tracker_id") context arguments)) [
        | inl m ↦ rw (m, try_tracker) (c.refused _)
        | inr (chosen, e) ↦ elim (Option-cases (lib.uuid_of chosen)) [
          | inl m ↦ rw (e, m, try_tracker) (c.invalid _)
          | inr (id, f) ↦ rw (e, f, try_tracker) (tracker_query_tool-cases id)
        ]
      ]

  if-cases : (b : Bool) (m n : Tried) → P m → P n → P (if b then m else n)
  if-cases true m n h k = h
  if-cases false m n h k = k

pub try_call-cases :
    (lib : Library) (caller : Caller) (new_id : ℕ) (context : Dict) (call : ToolCallRequest)
    (s : Session) (P : Tried → Type 0)
    → Cases lib caller new_id (get_default (codes "query") [] call.arguments) s P
    → P (try_call lib new_id caller context call s)
unfolding try_call doc_search_tool chart_tool
try_call-cases lib caller new_id context call s P c =
    let query = get_default (codes "query") [] call.arguments in
    let split = if-cases lib caller new_id query s P c in
    split (text_eq call.tool_name (codes "sql_query_tool")) _ _
      (try_sql-cases lib caller new_id query s P c context call.arguments)
      (split (text_eq call.tool_name (codes "tracker_query_tool")) _ _
        (try_tracker-cases lib caller new_id query s P c context call.arguments)
        (split (text_eq call.tool_name (codes "doc_search_tool")) _ _ c.hits
          (split (text_eq call.tool_name (codes "chart_tool")) _ _ (c.chart _ _) (c.refused _))))
