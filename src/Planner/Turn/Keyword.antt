-- ===== src/Planner/Turn/Keyword.antt =====
-- What a turn of apps/planner/planner.py finds in the documents when the model is the keyword
-- provider of libs/llm_provider/naive.py.
use autonomous_iq.Prelude.{
  ℕ, suc, ◌≡◌, refl, subst, reverse, true, List, [], ◌∷◌, ◌++◌, none, All, All-append,
}
use autonomous_iq.Prelude.Text.{Text, codes}
use autonomous_iq.Errors.{Failure, Response, ok, err}
use autonomous_iq.Models.Content.{user, assistant}
use autonomous_iq.Models.Database.{Database}
use autonomous_iq.Models.Schema.{insert_message}
use autonomous_iq.Models.Session.{
  Session, Outcome, done, raised, flush, opened, commit, ◌>>>◌, >>>-done,
}
use autonomous_iq.Planner.Intent.{Intent, classify}
use autonomous_iq.Planner.Provider.{Dict, ToolCallRequest, LlmResponse, ToolSchema, offers}
use autonomous_iq.Planner.Provider.Naive.{complete, first_user}
use autonomous_iq.Planner.Provider.Naive.Calls.{complete-SoundCalls}
use autonomous_iq.Planner.Rag.{search, words}
use autonomous_iq.Planner.Tools.{
  Library, ToolResult, hits_found, value_error, approval_required, failed,
}
use autonomous_iq.Planner.Turn.Cases.{try_call-cases}
use autonomous_iq.Planner.Turn.{
  Caller, Results, TurnResult, Tried, caught, try_call, dispatch, run_calls, answer, run_chat_turn,
  completed, note, or_empty, chat_message, same, system_prompt, history, available_tools,
  some_response, some_names, names_of,
}

-- The result is no list of hits, or an empty one.
abbrev pub NoHits : ToolResult → Type 0
NoHits (hits_found hits) = hits ≡ []
NoHits _ = Unit

abbrev pub AllNoHits : Results → Type 0
AllNoHits results = All (λ (r : Text × ToolResult). NoHits r.1) results

abbrev Tries : Tried → Type 0
Tries (done result s) = NoHits result
Tries (raised e s) = Unit

abbrev Gives : Outcome Failure ToolResult → Type 0
Gives (done result s) = NoHits result
Gives (raised e s) = Unit

caught-Gives : (m : Tried) → Tries m → Gives (caught m)
caught-Gives (done result s) h = h
caught-Gives (raised (value_error message) s) h = tt
caught-Gives (raised (approval_required spec by) s) h = tt
caught-Gives (raised (failed e) s) h = tt

-- The arguments of the keyword provider's calls.
abbrev prompt_only : Text → Dict
prompt_only message = (codes "prompt", message) ∷ []

module _ (lib : Library) (caller : Caller) (context : Dict) where
  dispatch-Gives :
      (new_id : ℕ) (call : ToolCallRequest) (message : Text) (s : Session)
      → call.arguments ≡ prompt_only message
      → Gives (dispatch lib new_id caller context call s)
  unfolding dispatch search words
  dispatch-Gives new_id call message s h =
      caught-Gives (try_call lib new_id caller context call s) (
        try_call-cases lib caller new_id context call s Tries (record {
          refused = λ _. tt;
          invalid = λ _. tt;
          uncaught = λ _. tt;
          cells = λ _ _. tt;
          chart = λ _ _. tt;
          hits = rw h refl;
          proposal = λ _ _ _ _ _. tt;
        }))

  abbrev Ends : Outcome Failure (Results × Text) → Type 0
  Ends (done final s) = AllNoHits final.0
  Ends (raised e s) = Unit

  run_calls-AllNoHits :
      (new_id : ℕ → ℕ) (n : ℕ) (calls : List ToolCallRequest) (message : Text) (results : Results)
      (text : Text) (s : Session) (final : Results × Text) (t : Session)
      → All (λ (c : ToolCallRequest). c.arguments ≡ prompt_only message) calls
      → AllNoHits results
      → run_calls lib new_id n caller context calls (results, text) s ≡ done final t
      → AllNoHits final.0
  unfolding run_calls
  run_calls-AllNoHits new_id n [] message results text s final t a h e = subst Ends e h
  run_calls-AllNoHits new_id n (call ∷ calls) message results text s final t a h e =
      let (result, s1, e1, e2) =
        >>>-done (dispatch lib (new_id n) caller context call s)
          (λ r.
            run_calls lib new_id (suc n) caller context calls
              (results ++ (call.tool_name, r) ∷ [], text ++ note call.tool_name r))
          e in
      run_calls-AllNoHits new_id (suc n) calls message (results ++ (call.tool_name, result) ∷ [])
        (text ++ note call.tool_name result) s1 final t a.1
        (All-append (λ (r : Text × ToolResult). NoHits r.1) results ((call.tool_name, result) ∷ [])
          h (subst Gives e1 (dispatch-Gives (new_id n) call message s a.0), tt))
        e2

  answer_results :
      (id : ℕ) (intent : Intent) (results : Results) (text : Text) (s : Session)
      (result : TurnResult) (t : Session)
      → answer id caller intent (results, text) s ≡ done result t
      → result.tool_results ≡ results
  unfolding answer
  answer_results id intent results text s result t e =
      let content = some_response text in
      let message = chat_message id caller assistant content (some_names (names_of results)) in
      let given : TurnResult = record {
        message_id = id;
        intent = intent;
        text = content;
        tool_results = results;
      } in
      let (u, s1, e1, e2) =
        >>>-done (flush same (insert_message message s.working) s) (λ _ s'. done given (commit s'))
          e in
      let is_result : given ≡ result = cc in
      subst (λ (r : TurnResult). r.tool_results ≡ results) is_result refl

  only_prompts :
      (tools : List ToolSchema) (message : Text) (calls : List ToolCallRequest)
      → All
          (λ (c : ToolCallRequest).
            (offers tools c.tool_name ≡ true) × (c.arguments ≡ prompt_only message))
          calls
      → All (λ (c : ToolCallRequest). c.arguments ≡ prompt_only message) calls
  only_prompts tools message [] a = tt
  only_prompts tools message (c ∷ calls) a = (a.0.1, only_prompts tools message calls a.1)

  completed_with :
      (r : Response LlmResponse) (response completion : LlmResponse) (s s' : Session)
      → r ≡ ok response
      → completed r s ≡ done completion s'
      → completion ≡ response
  completed_with (ok given) response completion s s' e h = cc
  completed_with (err failure) response completion s s' e h = cc

  abbrev rest_of : (ℕ → ℕ) → Text → LlmResponse → Session → Outcome Failure TurnResult
  rest_of new_id message completion s =
      run_calls lib new_id 2 caller context completion.tool_calls ([], or_empty completion.text) s
      >>> answer (new_id 1) caller (classify message)

  -- Under the keyword provider no turn ever finds a document, whatever the message, the context and
  -- the documents are: its calls pass only a prompt, and the search reads the argument `query`.
  pub run_chat_turn-AllNoHits :
      (db : Database) (new_id : ℕ → ℕ) (message : Text) (result : TurnResult) (t : Session)
      → run_chat_turn lib complete new_id caller message context (opened db) ≡ done result t
      → AllNoHits result.tool_results
  unfolding run_chat_turn
  run_chat_turn-AllNoHits db new_id message result t e =
      let sent = chat_message (new_id 0) caller user message none in
      let tools = available_tools (classify message) in
      let (u, s1, e1, f1) =
        >>>-done (flush same (insert_message sent db) (opened db))
          (λ _ s.
            completed (complete system_prompt (history lib s.working caller.chat_session_id) tools)
              s
            >>> rest_of new_id message)
          e in
      let messages = history lib s1.working caller.chat_session_id in
      let (completion, s2, e2, f2) =
        >>>-done (completed (complete system_prompt messages tools) s1) (rest_of new_id message)
          f1 in
      let (response, answers, sound) = complete-SoundCalls system_prompt messages tools in
      let same_response =
        completed_with (complete system_prompt messages tools) response completion s1 s2 answers
          e2 in
      let prompt = first_user (reverse messages) in
      let ((results, text), s3, e3, f3) =
        >>>-done
          (run_calls lib new_id 2 caller context completion.tool_calls
            ([], or_empty completion.text) s2)
          (answer (new_id 1) caller (classify message)) f2 in
      let none_found =
        run_calls-AllNoHits new_id 2 completion.tool_calls prompt [] (or_empty completion.text) s2
          (results, text) s3
          (rw same_response (only_prompts tools prompt response.tool_calls sound.0)) tt e3 in
      rw (answer_results (new_id 1) (classify message) results text s3 result t f3) none_found
