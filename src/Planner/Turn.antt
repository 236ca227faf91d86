-- ===== src/Planner/Turn.antt =====
-- apps/planner/planner.py: one turn of the chat. The order of `created_at` is the library's.
-- The ids of the rows that a turn adds are fresh UUIDs: `new_id 0` is that of the user's message,
-- `new_id 1` that of the answer, and the later ones are those of the jobs. The model is the
-- argument `provider`.
pub mod Cases
pub mod Proposals
pub mod Keyword
pub mod Reports
pub mod Transcript
pub mod Twice
use autonomous_iq.Prelude.{
  ℕ, suc, String, Bool, true, false, not, ◌&&◌, List, [], ◌∷◌, ◌++◌, map, Option, none, some,
  filter, ◌==◌, if◌then◌else◌,
}
use autonomous_iq.Prelude.Text.{Text, codes, text_eq}
use autonomous_iq.Errors.{Response, ok, err, Failure}
use autonomous_iq.Models.Content.{ChatMessage, ChatRole, user, assistant}
use autonomous_iq.Models.Database.{Database}
use autonomous_iq.Models.Schema.{insert_message}
use autonomous_iq.Models.Session.{Session, Outcome, done, raised, commit, flush, ◌>>>◌}
use autonomous_iq.Planner.Intent.{Intent, sql, tracker, document, chart, general, classify}
use autonomous_iq.Planner.Provider.{
  Dict, dict_get, ToolCallRequest, LlmResponse, Message, ToolSchema, LlmProvider,
}
use autonomous_iq.Planner.Tools.{
  Library, tool_schemas, ToolResult, job_pending, chart_pending, tool_error, ToolException,
  value_error, approval_required, failed, no_dataset_selected, no_tracker_selected, not_a_uuid,
  unknown_tool, sql_query_tool, tracker_query_tool, doc_search_tool, chart_tool,
}

abbrev pub system_prompt : String
system_prompt =
    "You are AutonomousIQ's data assistant. You can search documents, read Trackers, propose SQL queries, and propose charts. SQL queries, Tracker writes, and charts all require human approval before they take effect -- always say so when proposing one."

-- _INTENT_TOOLS
abbrev pub intent_tools : Intent → List Text
intent_tools sql = codes "sql_query_tool" ∷ codes "doc_search_tool" ∷ []
intent_tools tracker = codes "tracker_query_tool" ∷ codes "doc_search_tool" ∷ []
intent_tools chart = codes "chart_tool" ∷ codes "doc_search_tool" ∷ []
intent_tools document = codes "doc_search_tool" ∷ []
intent_tools general = codes "doc_search_tool" ∷ []

abbrev pub is_one_of : List Text → Text → Bool
is_one_of [] name = false
is_one_of (n ∷ names) name =
    let rest = is_one_of names name in if text_eq n name then true else rest

abbrev pub available_tools : Intent → List ToolSchema
available_tools intent =
    filter (λ (t : ToolSchema). is_one_of (intent_tools intent) t.name) tool_schemas

abbrev pub message_of : ChatMessage → Message
message_of m = record { role = m.role; content = m.content }

-- The query of the history: the messages of the chat session, whatever their tenant.
abbrev pub history : Library → Database → ℕ → List Message
history lib db chat_session_id =
    map message_of (
      lib.by_created_at (filter (λ (m : ChatMessage). m.session_id == chat_session_id) db.messages))

-- `context.get(key) or arguments.get(key)`, where the empty text counts as absent.
abbrev pub truthy : Option Text → Option Text
truthy none = none
truthy (some []) = none
truthy (some (c ∷ s)) = some (c ∷ s)

abbrev pub or_else : Option Text → Option Text → Option Text
or_else none other = other
or_else (some t) other = some t

abbrev pub selected : Text → Dict → Dict → Option Text
selected key context arguments =
    or_else (truthy (dict_get key context)) (truthy (dict_get key arguments))

-- `arguments.get(key, default)`
abbrev pub get_default : Text → Text → Dict → Text
get_default key default arguments = elim (dict_get key arguments) [
  | none ↦ default
  | some value ↦ value
]

abbrev pub Tried : Type 0
Tried = Outcome ToolException ToolResult

-- The two handlers of _dispatch: what is not caught goes on.
abbrev pub caught : Tried → Outcome Failure ToolResult
caught (done result s) = done result s
caught (raised (value_error message) s) = done (tool_error message) s
caught (raised (approval_required spec by) s) = done (chart_pending spec by) s
caught (raised (failed e) s) = raised e s

abbrev pub is_pending_result : ToolResult → Bool
is_pending_result (job_pending id) = true
is_pending_result (chart_pending spec by) = true
is_pending_result _ = false

-- The text that the answer gains by a proposal.
abbrev pub note : Text → ToolResult → Text
note name result =
    if is_pending_result result
    then codes "\n\n[" ++ name ++ codes " proposed -- awaiting approval]"
    else []

abbrev pub Results : Type 0
Results = List (Text × ToolResult)

abbrev pub names_of : Results → List Text
names_of [] = []
names_of ((name, result) ∷ results) = name ∷ names_of results

-- `[...] or None`
abbrev pub some_names : List Text → Option (List Text)
some_names [] = none
some_names (n ∷ names) = some (n ∷ names)

-- `response_text or "(no response)"`
abbrev pub some_response : Text → Text
some_response [] = codes "(no response)"
some_response (c ∷ s) = c ∷ s

abbrev pub or_empty : Option Text → Text
or_empty none = []
or_empty (some t) = t

pub record Caller : Type 0 where
  pub tenant_id : ℕ
  pub user_id : ℕ
  pub chat_session_id : ℕ

pub record TurnResult : Type 0 where
  pub message_id : ℕ
  pub intent : Intent
  pub text : Text
  pub tool_results : Results

abbrev pub chat_message : ℕ → Caller → ChatRole → Text → Option (List Text) → ChatMessage
chat_message id caller role content tool_calls = record {
  id = id;
  tenant_id = caller.tenant_id;
  user_id = caller.user_id;
  session_id = caller.chat_session_id;
  role = role;
  content = content;
  tool_calls = tool_calls;
}

abbrev pub same : Failure → Failure
same e = e

-- What follows the calls: the assistant's message, and the commit.
unfoldable pub answer : ℕ → Caller → Intent → Results × Text → Session → Outcome Failure TurnResult
unfolding insert_message
answer id caller intent (results, text) s =
    let content = some_response text in
    flush same
      (insert_message (chat_message id caller assistant content (some_names (names_of results)))
        s.working)
      s
    >>> λ _ s'.
        done (record { message_id = id; intent = intent; text = content; tool_results = results })
          (commit s')

-- provider.complete, which may raise.
abbrev pub completed : Response LlmResponse → Session → Outcome Failure LlmResponse
completed (ok completion) s = done completion s
completed (err e) s = raised e s

module _ (lib : Library) where
  -- The branches of _dispatch, inside its `try`.
  abbrev pub try_sql : ℕ → Caller → Dict → Dict → Session → Tried
  try_sql new_id caller context arguments s =
      elim (selected (codes "dataset_id") context arguments) [
        | none ↦ done (tool_error no_dataset_selected) s
        | some dataset_id ↦ elim (lib.uuid_of dataset_id) [
          | none ↦ raised (value_error (not_a_uuid dataset_id)) s
          | some id ↦
              sql_query_tool lib new_id caller.tenant_id id
                (get_default (codes "sql") (get_default (codes "prompt") [] arguments) arguments)
                caller.user_id s
        ]
      ]

  abbrev pub try_tracker : Caller → Dict → Dict → Session → Tried
  try_tracker caller context arguments s = elim (selected (codes "tracker_id") context arguments) [
    | none ↦ done (tool_error no_tracker_selected) s
    | some tracker_id ↦ elim (lib.uuid_of tracker_id) [
      | none ↦ raised (value_error (not_a_uuid tracker_id)) s
      | some id ↦ tracker_query_tool caller.tenant_id id s
    ]
  ]

  unfoldable pub try_call : ℕ → Caller → Dict → ToolCallRequest → Session → Tried
  unfolding sql_query_tool tracker_query_tool doc_search_tool chart_tool
  try_call new_id caller context call s =
      if text_eq call.tool_name (codes "sql_query_tool")
      then try_sql new_id caller context call.arguments s
      else if text_eq call.tool_name (codes "tracker_query_tool")
      then try_tracker caller context call.arguments s
      else if text_eq call.tool_name (codes "doc_search_tool")
      then doc_search_tool lib caller.tenant_id (get_default (codes "query") [] call.arguments) s
      else if text_eq call.tool_name (codes "chart_tool")
      then chart_tool (get_default (codes "prompt") [] call.arguments) caller.user_id s
      else done (tool_error (unknown_tool call.tool_name)) s

  unfoldable pub dispatch :
      ℕ → Caller → Dict → ToolCallRequest → Session → Outcome Failure ToolResult
  unfolding try_call
  dispatch new_id caller context call s = caught (try_call new_id caller context call s)

  -- The loop over the calls, with the results and the text so far.
  unfoldable pub run_calls :
      (ℕ → ℕ)
      → ℕ
      → Caller
      → Dict
      → List ToolCallRequest
      → Results × Text
      → Session
      → Outcome Failure (Results × Text)
  unfolding dispatch
  run_calls new_id n caller context [] so_far s = done so_far s
  run_calls new_id n caller context (call ∷ calls) (results, text) s =
      dispatch (new_id n) caller context call s >>> λ result.
      run_calls new_id (suc n) caller context calls
        (results ++ (call.tool_name, result) ∷ [], text ++ note call.tool_name result)

  unfoldable pub run_chat_turn :
      LlmProvider → (ℕ → ℕ) → Caller → Text → Dict → Session → Outcome Failure TurnResult
  unfolding insert_message classify run_calls answer
  run_chat_turn provider new_id caller message context s =
      flush same (insert_message (chat_message (new_id 0) caller user message none) s.working) s
      >>> (λ _ s1.
          completed
            (provider system_prompt (history lib s1.working caller.chat_session_id)
              (available_tools (classify message)))
            s1
          >>> (λ completion s2.
              run_calls new_id 2 caller context completion.tool_calls ([], or_empty completion.text)
                s2
              >>> answer (new_id 1) caller (classify message)))
