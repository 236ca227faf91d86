-- ===== src/Planner/Turn/Transcript.antt =====
-- What a turn of apps/planner/planner.py that succeeds leaves in the transcript and among the jobs.
use mathlib.Core.List.{append_assoc}
use autonomous_iq.Prelude.{
  ℕ, ◌≡◌, refl, ap, ◌∙◌, subst, [], ◌∷◌, ◌++◌, none, inl, inr, Bool-cases, ◌&&◌,
}
use autonomous_iq.Prelude.Text.{Text}
use autonomous_iq.Errors.{Response, ok, err, Failure}
use autonomous_iq.Models.Content.{ChatMessage, user, assistant}
use autonomous_iq.Models.Database.{Database}
use autonomous_iq.Models.Schema.{insert_message, tenant_exists, user_exists}
use autonomous_iq.Models.Session.{Session, Outcome, done, opened, flush, ◌>>>◌, commit, >>>-done}
use autonomous_iq.Planner.Intent.{Intent, classify}
use autonomous_iq.Planner.Provider.{Dict, LlmProvider, LlmResponse}
use autonomous_iq.Planner.Tools.{Library}
use autonomous_iq.Planner.Turn.{
  Caller, Results, TurnResult, run_calls, answer, run_chat_turn, completed, chat_message,
  some_response, some_names, names_of, same, system_prompt, history, available_tools, or_empty,
}
use autonomous_iq.Planner.Turn.Reports.{ids_of, all_reported, idle, Ran, run_calls-Ran}

abbrev pub message_added : ChatMessage → Database → Database
message_added m db = record db { messages = db.messages ++ m ∷ [] }

flush_message :
    (m : ChatMessage) (s : Session) {u : Unit {0}} {s' : Session}
    → flush same (insert_message m s.working) s ≡ done u s'
    → s' ≡ record s { working = message_added m s.working }
unfolding insert_message
flush_message m s {u} {s'} h =
    elim (Bool-cases (tenant_exists s.working m.tenant_id && user_exists s.working m.user_id)) [
      | inl e ↦ let reached = (rw e at h) in cc
      | inr e ↦ absurd (let clash = (rw e at h) in cc)
    ]

module _ (lib : Library) (caller : Caller) where
  replied : ℕ → Text → Results → ChatMessage
  replied id text results = chat_message id caller assistant text (some_names (names_of results))

  -- What is there after the answer.
  abbrev Closed : Session → ℕ → Intent → TurnResult → Session → Type 0
  Closed base id intent result t =
      (t.committed.messages
        ≡ base.working.messages
          ++ chat_message id caller assistant result.text
              (some_names (names_of result.tool_results))
            ∷ [])
      × (ids_of t.committed.jobs ≡ ids_of base.working.jobs ++ all_reported result.tool_results)
      × (result.message_id ≡ id)
      × (result.intent ≡ intent)

  answer-Closed :
      (base : Session) (id : ℕ) (intent : Intent) (results : Results) (text : Text) (s : Session)
      (result : TurnResult) (t : Session)
      → Ran base results s
      → answer id caller intent (results, text) s ≡ done result t
      → Closed base id intent result t
  unfolding answer
  answer-Closed base id intent results text s result t h e =
      let content = some_response text in
      let message = chat_message id caller assistant content (some_names (names_of results)) in
      let given : TurnResult = record {
        message_id = id;
        intent = intent;
        text = content;
        tool_results = results;
      } in
      let (u, s1, e1, e2) =
        >>>-done (flush same (insert_message message s.working) s) (λ _ s'. done given (commit s'))
          e in
      let at_end = flush_message message s e1 in
      let is_result : given ≡ result = cc in
      let is_end : commit s1 ≡ t = cc in
      subst (λ r. Closed base id intent r t) is_result
        (subst (λ x. Closed base id intent given x) is_end
          (rw at_end (ap (λ ms. ms ++ message ∷ []) h.0, h.1, refl, refl)))

  abbrev asked : LlmProvider → Text → Session → Response LlmResponse
  asked provider message s =
      provider system_prompt (history lib s.working caller.chat_session_id)
        (available_tools (classify message))

  abbrev rest_of : (ℕ → ℕ) → Text → Dict → LlmResponse → Session → Outcome Failure TurnResult
  rest_of new_id message context completion s =
      run_calls lib new_id 2 caller context completion.tool_calls ([], or_empty completion.text) s
      >>> answer (new_id 1) caller (classify message)

  completed_done :
      (r : Response LlmResponse) (s : Session) {completion : LlmResponse} {s' : Session}
      → completed r s ≡ done completion s'
      → s' ≡ s
  completed_done (ok completion) s e = cc
  completed_done (err failure) s e = cc

  from_start :
      (db : Database) (sent : ChatMessage) (id : ℕ) (intent : Intent) (result : TurnResult)
      (base t : Session)
      → base ≡ record (opened db) { working = message_added sent db }
      → Closed base id intent result t
      → (t.committed.messages
          ≡ db.messages
            ++ sent
              ∷ chat_message id caller assistant result.text
                  (some_names (names_of result.tool_results))
              ∷ [])
        × (ids_of t.committed.jobs ≡ ids_of db.jobs ++ all_reported result.tool_results)
        × (result.message_id ≡ id)
        × (result.intent ≡ intent)
  from_start db sent id intent result base t e (messages, jobs, same_id, same_intent) = (
    messages
        ∙ rw e (
            append_assoc db.messages (sent ∷ []) (
              chat_message id caller assistant result.text
                (some_names (names_of result.tool_results))
              ∷ [])),
    jobs ∙ rw e refl,
    same_id,
    same_intent,
  )

  -- A turn that succeeds adds to the transcript the message of the user and the answer that it
  -- returns, in this order, the answer with the names of the tools that were called; and the jobs
  -- that it adds are exactly those that it reports.
  pub run_chat_turn-transcript :
      (db : Database) (provider : LlmProvider) (new_id : ℕ → ℕ) (message : Text) (context : Dict)
      (result : TurnResult) (t : Session)
      → run_chat_turn lib provider new_id caller message context (opened db) ≡ done result t
      → (t.committed.messages
          ≡ db.messages
            ++ chat_message (new_id 0) caller user message none
              ∷ chat_message
                  (new_id 1)
                  caller
                  assistant
                  result.text
                  (some_names (names_of result.tool_results))
              ∷ [])
        × (ids_of t.committed.jobs ≡ ids_of db.jobs ++ all_reported result.tool_results)
        × (result.message_id ≡ new_id 1)
        × (result.intent ≡ classify message)
  unfolding run_chat_turn
  run_chat_turn-transcript db provider new_id message context result t e =
      let sent = chat_message (new_id 0) caller user message none in
      let intent = classify message in
      let (u, s1, e1, f1) =
        >>>-done (flush same (insert_message sent db) (opened db))
          (λ _ s. completed (asked provider message s) s >>> rest_of new_id message context) e in
      let (completion, s2, e2, f2) =
        >>>-done (completed (asked provider message s1) s1) (rest_of new_id message context) f1 in
      let ((results, text), s3, e3, f3) =
        >>>-done
          (run_calls lib new_id 2 caller context completion.tool_calls
            ([], or_empty completion.text) s2)
          (answer (new_id 1) caller intent) f2 in
      let start : s2 ≡ record (opened db) { working = message_added sent db } =
        completed_done (asked provider message s1) s1 e2 ∙ flush_message sent (opened db) e1 in
      let ran_all =
        run_calls-Ran lib caller s2 new_id 2 context completion.tool_calls []
          (or_empty completion.text) s2 (results, text) s3 (refl, idle s2) e3 in
      let closed = answer-Closed s2 (new_id 1) intent results text s3 result t ran_all f3 in
      from_start db sent (new_id 1) intent result s2 t start closed
