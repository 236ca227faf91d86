-- ===== src/Planner/Turn/Proposals.antt =====
-- What a turn of apps/planner/planner.py writes to the database.
use mathlib.Core.List.{append-nil, append_assoc}
use autonomous_iq.Prelude.{
  ℕ, suc, ◌≡◌, refl, ap, ◌∙◌, subst, ◌&&◌, List, [], ◌∷◌, ◌++◌, none, some, inl, inr, Bool-cases,
  All, All-append,
}
use autonomous_iq.Prelude.Text.{Text}
use autonomous_iq.Errors.{Response, ok, err, Failure}
use autonomous_iq.Models.Content.{ChatMessage, Dataset, user, assistant}
use autonomous_iq.Models.Jobs.{TransformationJob, pending_approval}
use autonomous_iq.Models.Database.{Database, get_by}
use autonomous_iq.Models.Schema.{insert_message, tenant_exists, user_exists}
use autonomous_iq.Models.Session.{
  Session, Outcome, done, raised, opened, flush, left, left->>>, ◌>>>◌, commit,
}
use autonomous_iq.Planner.Intent.{Intent, classify}
use autonomous_iq.Planner.Provider.{Dict, ToolCallRequest, LlmProvider, LlmResponse}
use autonomous_iq.Planner.Tools.{Library, value_error, approval_required, failed, proposed_job}
use autonomous_iq.Planner.Turn.Cases.{try_call-cases}
use autonomous_iq.Planner.Turn.{
  Caller, Results, TurnResult, caught, try_call, dispatch, run_calls, answer, run_chat_turn, Tried,
  completed, note, chat_message, some_response, some_names, names_of, same, system_prompt, history,
  available_tools, or_empty,
}

abbrev pub data_id : Dataset → ℕ
data_id d = d.id

-- A message of the caller, in the chat session of the turn.
abbrev pub OwnMessage : Caller → ChatMessage → Type 0
OwnMessage caller m =
    (m.tenant_id ≡ caller.tenant_id)
    × (m.user_id ≡ caller.user_id)
    × (m.session_id ≡ caller.chat_session_id)

-- A job that waits for its approval, on a dataset of the caller's tenant.
pub record GatedJob (caller : Caller) (db : Database) (job : TransformationJob) : Type 0 where
  pub waits : job.status ≡ pending_approval
  pub dataset : Dataset
  pub found : get_by data_id job.dataset_id db.datasets ≡ some dataset
  pub in_tenant : dataset.tenant_id ≡ caller.tenant_id

abbrev pub grown : Database → List ChatMessage → List TransformationJob → Database
grown db messages jobs = record db { messages = db.messages ++ messages; jobs = db.jobs ++ jobs }

-- The second database is the first with such messages and jobs added, and nothing else.
pub record Proposes (caller : Caller) (db db' : Database) : Type 0 where
  pub messages : List ChatMessage
  pub jobs : List TransformationJob
  pub only : db' ≡ grown db messages jobs
  pub own : All (OwnMessage caller) messages
  pub gated : All (GatedJob caller db) jobs

abbrev with_message : ChatMessage → Database → Database
with_message m db = record db { messages = db.messages ++ m ∷ [] }

abbrev with_job : TransformationJob → Database → Database
with_job j db = record db { jobs = db.jobs ++ j ∷ [] }

abbrev replaced : Database → List ChatMessage → List TransformationJob → Database
replaced db messages jobs = record db { messages = messages; jobs = jobs }

module _ (caller : Caller) (db : Database) where
  abbrev nothing : Proposes caller db db
  nothing = record {
    messages = [];
    jobs = [];
    only = rw (append-nil db.messages, append-nil db.jobs) refl;
    own = tt;
    gated = tt;
  }

  add_message :
      (now : Database) (m : ChatMessage)
      → Proposes caller db now
      → OwnMessage caller m
      → Proposes caller db (with_message m now)
  add_message now m p h = record {
    messages = p.messages ++ m ∷ [];
    jobs = p.jobs;
    only =
        ap (with_message m) p.only
        ∙ ap (λ ms. replaced db ms (db.jobs ++ p.jobs))
            (append_assoc db.messages p.messages (m ∷ []));
    own = All-append (OwnMessage caller) p.messages (m ∷ []) p.own (h, tt);
    gated = p.gated;
  }

  add_job :
      (now : Database) (j : TransformationJob)
      → Proposes caller db now
      → GatedJob caller db j
      → Proposes caller db (with_job j now)
  add_job now j p h = record {
    messages = p.messages;
    jobs = p.jobs ++ j ∷ [];
    only =
        ap (with_job j) p.only
        ∙ ap (λ js. replaced db (db.messages ++ p.messages) js)
            (append_assoc db.jobs p.jobs (j ∷ []));
    own = p.own;
    gated = All-append (GatedJob caller db) p.jobs (j ∷ []) p.gated (h, tt);
  }

  abbrev Kept : Session → Type 0
  Kept s = Proposes caller db s.committed × Proposes caller db s.working

  flush_message :
      {E : Type 0} (fail : Failure → E) (m : ChatMessage) (s : Session)
      → Kept s
      → OwnMessage caller m
      → Kept (left (flush fail (insert_message m s.working) s))
  unfolding insert_message
  flush_message fail m s k h =
      elim (Bool-cases (tenant_exists s.working m.tenant_id && user_exists s.working m.user_id)) [
        | inl e ↦ rw e (k.0, add_message s.working m k.1 h)
        | inr e ↦ rw e k
      ]

  caught-Kept : (m : Tried) → Kept (left m) → Kept (left (caught m))
  caught-Kept (done result s) k = k
  caught-Kept (raised (value_error message) s) k = k
  caught-Kept (raised (approval_required spec by) s) k = k
  caught-Kept (raised (failed e) s) k = k

  module _ (lib : Library) where
    try_call-Kept :
        (new_id : ℕ) (context : Dict) (call : ToolCallRequest) (s : Session)
        → Kept s
        → Kept (left (try_call lib new_id caller context call s))
    try_call-Kept new_id context call s k =
        try_call-cases lib caller new_id context call s (λ m. Kept (left m))
          (record {
            refused = λ _. k;
            invalid = λ _. k;
            uncaught = λ _. k;
            cells = λ _ _. k;
            chart = λ _ _. k;
            hits = k;
            proposal = λ id d sql e own.
                let job = proposed_job lib new_id id d.version sql caller.user_id in
                let added = add_job s.working job k.1 (record {
                  waits = refl;
                  dataset = d;
                  found =
                      subst (λ ds. get_by data_id id ds ≡ some d)
                        (ap (λ (x : Database). x.datasets) k.1.only) e;
                  in_tenant = own;
                }) in
                (added, added);
          })

    run_calls-Kept :
        (new_id : ℕ → ℕ) (n : ℕ) (context : Dict) (calls : List ToolCallRequest)
        (so_far : Results × Text) (s : Session)
        → Kept s
        → Kept (left (run_calls lib new_id n caller context calls so_far s))
    unfolding run_calls dispatch
    run_calls-Kept new_id n context [] so_far s k = k
    run_calls-Kept new_id n context (call ∷ calls) (results, text) s k =
        left->>> Kept (dispatch lib (new_id n) caller context call s)
          (λ result.
            run_calls lib new_id (suc n) caller context calls
              (results ++ (call.tool_name, result) ∷ [], text ++ note call.tool_name result))
          (caught-Kept (try_call lib (new_id n) caller context call s)
            (try_call-Kept (new_id n) context call s k))
          (λ result s' k'.
            run_calls-Kept new_id (suc n) context calls
              (results ++ (call.tool_name, result) ∷ [], text ++ note call.tool_name result) s' k')

    answer-Kept :
        (id : ℕ) (intent : Intent) (so_far : Results × Text) (s : Session)
        → Kept s
        → Kept (left (answer id caller intent so_far s))
    unfolding answer
    answer-Kept id intent (results, text) s k =
        let m =
          chat_message id caller assistant (some_response text) (some_names (names_of results)) in
        left->>> Kept (flush same (insert_message m s.working) s)
          (λ _ s'.
            done
              (record {
                message_id = id;
                intent = intent;
                text = some_response text;
                tool_results = results;
              })
              (commit s'))
          (flush_message same m s k (refl, refl, refl)) (λ _ s' k'. (k'.1, k'.1))

    completed-Kept : (r : Response LlmResponse) (s : Session) → Kept s → Kept (left (completed r s))
    completed-Kept (ok completion) s k = k
    completed-Kept (err e) s k = k

    abbrev rest_of : (ℕ → ℕ) → Text → Dict → LlmResponse → Session → Outcome Failure TurnResult
    rest_of new_id message context completion s =
        run_calls lib new_id 2 caller context completion.tool_calls ([], or_empty completion.text) s
        >>> answer (new_id 1) caller (classify message)

    rest_of-Kept :
        (new_id : ℕ → ℕ) (message : Text) (context : Dict) (r : Response LlmResponse) (s : Session)
        → Kept s
        → Kept (left (completed r s >>> rest_of new_id message context))
    rest_of-Kept new_id message context r s k =
        left->>> Kept (completed r s) (rest_of new_id message context) (completed-Kept r s k)
          (λ completion s' k'.
            left->>> Kept
              (run_calls lib new_id 2 caller context completion.tool_calls
                ([], or_empty completion.text) s')
              (answer (new_id 1) caller (classify message))
              (run_calls-Kept new_id 2 context completion.tool_calls ([], or_empty completion.text)
                s' k')
              (answer-Kept (new_id 1) (classify message)))

    run_chat_turn-Kept :
        (provider : LlmProvider) (new_id : ℕ → ℕ) (message : Text) (context : Dict)
        → Kept (left (run_chat_turn lib provider new_id caller message context (opened db)))
    unfolding run_chat_turn
    run_chat_turn-Kept provider new_id message context =
        let sent = chat_message (new_id 0) caller user message none in
        left->>> Kept (flush same (insert_message sent db) (opened db))
          (λ _ s.
            completed
              (provider system_prompt (history lib s.working caller.chat_session_id)
                (available_tools (classify message)))
              s
            >>> rest_of new_id message context)
          (flush_message same sent (opened db) (nothing, nothing) (refl, refl, refl))
          (λ _ s.
            rest_of-Kept new_id message context
              (provider system_prompt (history lib s.working caller.chat_session_id)
                (available_tools (classify message)))
              s)

    -- Whatever the model answers, a turn adds to the database messages of the caller in the chat
    -- session, and jobs that wait for their approval, on datasets of the caller's tenant; it changes
    -- nothing else. That holds of what is committed when the turn succeeds and when it fails.
    pub run_chat_turn-proposes :
        (provider : LlmProvider) (new_id : ℕ → ℕ) (message : Text) (context : Dict)
        → Proposes caller db
            (left (run_chat_turn lib provider new_id caller message context (opened db))).committed
    run_chat_turn-proposes provider new_id message context =
        (run_chat_turn-Kept provider new_id message context).0
