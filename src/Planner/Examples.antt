-- ===== src/Planner/Examples.antt =====
-- The theorems about the planner on a small tenant with two documents and a dataset.
use autonomous_iq.Models.Database.{Database}
use autonomous_iq.Prelude.{
  ℕ, ◌≡◌, ◌+◌, ◌≤◌, refl, String, false, List, [], ◌∷◌, ◌++◌, map, reverse, Option, none, some,
  filter, All, length, if◌then◌else◌,
}
use autonomous_iq.Prelude.Text.{Text, codes, is_digit, int_from}
use autonomous_iq.Errors.{ok, Failure, integrity_error}
use autonomous_iq.Models.Content.{Document, Dataset, user, assistant, tenant_wide}
use autonomous_iq.Models.Database.{get_by}
use autonomous_iq.Models.Session.{Outcome, done, raised, opened, left}
use autonomous_iq.Api.Deps.{same_tenant}
use autonomous_iq.Api.Approvals.{list_pending_approvals}
use autonomous_iq.Api.Examples.{acme, caller as api_caller}
use autonomous_iq.Planner.Intent.{
  classify, sql, tracker, document, chart, general, chart_words, tracker_words, sql_words,
  document_words,
}
use autonomous_iq.Planner.Intent.Words.{says, classify_lem}
use autonomous_iq.Planner.Provider.{LlmResponse, Message, ToolCallRequest}
use autonomous_iq.Planner.Provider.Naive.{complete, first_user}
use autonomous_iq.Planner.Provider.Naive.Calls.{SoundCalls, complete-SoundCalls}
use autonomous_iq.Planner.Rag.{RagHit, hit, words, search, snippet, scored, sort_hits}
use autonomous_iq.Planner.Rag.Top.{IsTop, matches, search-IsTop}
use autonomous_iq.Planner.Rag.Bounds.{InBounds, search-InBounds}
use autonomous_iq.Planner.Tools.{Library, job_pending, proposed_job, sql_query_tool, tool_schemas}
use autonomous_iq.Planner.Tools.Proposing.{
  data_id, job_added, sql_query_tool-list_pending_approvals,
}
use autonomous_iq.Planner.Turn.{
  Caller, TurnResult, dispatch, run_calls, run_chat_turn, chat_message, names_of, some_names,
}
use autonomous_iq.Planner.Turn.Proposals.{Proposes, run_chat_turn-proposes}
use autonomous_iq.Planner.Turn.Reports.{ids_of, all_reported}
use autonomous_iq.Planner.Turn.Transcript.{run_chat_turn-transcript}
use autonomous_iq.Planner.Turn.Twice.{AsksQuery, run_calls-propose_twice}
use autonomous_iq.Planner.Turn.Keyword.{AllNoHits, run_chat_turn-AllNoHits}

-- An id is written in decimal digits here, and a digest is the text itself.
abbrev number : Text → Option ℕ
number [] = none
number (c ∷ s) = if is_digit c then some (int_from 0 (c ∷ s)) else none

abbrev pub lib : Library
lib = record { hexdigest = λ s. s; iterated = λ ws. ws; uuid_of = number; by_created_at = λ ms. ms }

abbrev file : ℕ → String → String → Document
file id name content = record {
  id = id;
  tenant_id = 1;
  uploaded_by = some 1;
  storage_pointer = codes "p";
  format = codes "txt";
  name = codes name;
  content_text = some (codes content);
}

abbrev files : List Document
files =
    file 1 "leave.txt" "Leave policy: twenty days."
    ∷ file 2 "travel.txt" "Travel costs and the travel policy."
    ∷ []

abbrev member : Caller
member = record { tenant_id = 1; user_id = 2; chat_session_id = 7 }

abbrev pub ids : ℕ → ℕ
ids n = 100 + n

abbrev pub asks : Text
asks = codes "Select all rows"

abbrev chosen_data : List (Text × Text)
chosen_data = (codes "dataset_id", codes "1") ∷ []

abbrev data_row : Dataset
data_row = record {
  id = 1;
  tenant_id = 1;
  visibility = tenant_wide;
  is_processed = false;
  version = 1;
  lineage_pointer = none;
}

classify_lem_example : classify asks ≡ (
    if says chart_words asks
    then chart
    else if says tracker_words asks
    then tracker
    else if says sql_words asks
    then sql
    else if says document_words asks
    then document
    else general)
classify_lem_example = classify_lem asks

said : List Message
said = record { role = user; content = asks } ∷ []

complete-SoundCalls_example :
    (response : LlmResponse) × (complete "s" said tool_schemas ≡ ok response)
    × SoundCalls tool_schemas (first_user (reverse said)) response
complete-SoundCalls_example = complete-SoundCalls "s" said tool_schemas

abbrev query : Text
query = codes "travel policy"

search-IsTop_example :
    IsTop 3
      (map (hit (λ ws. ws) (words query)) (filter (matches 1 (words query)) files))
      (search (λ ws. ws) files 1 query)
search-IsTop_example = search-IsTop (λ ws. ws) files 1 query

search-InBounds_example :
    All InBounds (search (λ ws. ws) files 1 query) × (length (search (λ ws. ws) files 1 query) ≤ 3)
search-InBounds_example = search-InBounds (λ ws. ws) files 1 query

-- The second document shares two words with the query, the first one.
found : map (λ (h : RagHit). h.document_id) (search (λ ws. ws) files 1 query) ≡ 2 ∷ 1 ∷ []
unfolding search words snippet scored sort_hits
found = refl

run_chat_turn-proposes_example :
    Proposes member acme
      (left (run_chat_turn lib complete ids member asks chosen_data (opened acme))).committed
run_chat_turn-proposes_example =
    run_chat_turn-proposes member acme lib complete ids asks chosen_data

abbrev turn : Outcome Failure TurnResult
turn = run_chat_turn lib complete ids member asks chosen_data (opened acme)

abbrev pub value_of : Outcome Failure TurnResult → TurnResult
value_of (done result s) = result
value_of (raised e s) = record { message_id = 0; intent = general; text = []; tool_results = [] }

turn_done : turn ≡ done (value_of turn) (left turn)
unfolding run_chat_turn complete
turn_done = refl

run_chat_turn-transcript_example :
    ((left turn).committed.messages
      ≡ acme.messages
        ++ chat_message 100 member user asks none
          ∷ chat_message 101 member assistant
              (value_of turn).text
              (some_names (names_of (value_of turn).tool_results))
          ∷ [])
    × (ids_of (left turn).committed.jobs
        ≡ ids_of acme.jobs ++ all_reported (value_of turn).tool_results)
    × ((value_of turn).message_id ≡ 101)
    × ((value_of turn).intent ≡ classify asks)
run_chat_turn-transcript_example =
    run_chat_turn-transcript lib member acme complete ids asks chosen_data (value_of turn)
      (left turn) turn_done

abbrev finds : Text
finds = codes "Find the travel policy doc"

abbrev with_files : Database
with_files = record acme { documents = files }

abbrev finding : Outcome Failure TurnResult
finding = run_chat_turn lib complete ids member finds [] (opened with_files)

finding_done : finding ≡ done (value_of finding) (left finding)
unfolding run_chat_turn complete
finding_done = refl

run_chat_turn-AllNoHits_example : AllNoHits (value_of finding).tool_results
run_chat_turn-AllNoHits_example =
    run_chat_turn-AllNoHits lib member [] with_files ids finds (value_of finding) (left finding)
      finding_done

sql_done :
    sql_query_tool lib 9 1 1 asks 2 (opened acme)
    ≡ done (job_pending 9) (opened (job_added (proposed_job lib 9 1 1 asks 2) acme))
unfolding sql_query_tool
sql_done = refl

data_found : get_by data_id 1 acme.datasets ≡ some data_row
unfolding get_by
data_found = refl

abbrev asking : ToolCallRequest
asking = record { tool_name = codes "sql_query_tool"; arguments = (codes "sql", asks) ∷ [] }

asking-AsksQuery : AsksQuery lib chosen_data asking 1 asks
asking-AsksQuery = record {
  tool = refl;
  name = codes "1";
  named = refl;
  is_uuid = refl;
  query = refl;
}

asking_done :
    dispatch lib 9 member chosen_data asking (opened acme)
    ≡ done (job_pending 9) (opened (job_added (proposed_job lib 9 1 1 asks 2) acme))
unfolding dispatch
asking_done = refl

run_calls-propose_twice_example :
    run_calls lib ids 2 member chosen_data
      (asking ∷ [])
      ([], [])
      (opened (job_added (proposed_job lib 9 1 1 asks 2) acme))
    ≡ raised integrity_error (opened (job_added (proposed_job lib 9 1 1 asks 2) acme))
run_calls-propose_twice_example =
    run_calls-propose_twice lib 9 member chosen_data asking 1 asks (opened acme) (job_pending 9)
      (opened (job_added (proposed_job lib 9 1 1 asks 2) acme)) data_row ids 2 member chosen_data
      asking [] ([], []) 1 data_row asking-AsksQuery data_found refl asking_done asking-AsksQuery
      data_found refl refl

sql_query_tool-list_pending_approvals_example :
    list_pending_approvals (job_added (proposed_job lib 9 1 1 asks 2) acme) (api_caller 2)
    ≡ list_pending_approvals acme (api_caller 2)
      ++ (if same_tenant 1 (some 1) then proposed_job lib 9 1 1 asks 2 ∷ [] else [])
sql_query_tool-list_pending_approvals_example =
    sql_query_tool-list_pending_approvals lib 9 1 1 asks 2 (opened acme) (job_pending 9)
      (opened (job_added (proposed_job lib 9 1 1 asks 2) acme)) data_row (api_caller 2) data_found
      sql_done
