-- ===== src/Planner/Turn/Reports.antt =====
-- The jobs that the tool calls of a turn of apps/planner/planner.py make, and those that it reports.
use mathlib.Core.List.{append-nil, append_assoc}
use autonomous_iq.Prelude.{ℕ, suc, ◌≡◌, refl, ap, ◌∙◌, sym, subst, List, [], ◌∷◌, ◌++◌, map}
use autonomous_iq.Prelude.Text.{Text}
use autonomous_iq.Errors.{Failure}
use autonomous_iq.Models.Jobs.{TransformationJob}
use autonomous_iq.Models.Session.{Session, Outcome, done, raised, >>>-done}
use autonomous_iq.Planner.Provider.{Dict, ToolCallRequest}
use autonomous_iq.Planner.Tools.{
  Library, ToolResult, value_error, approval_required, failed, job_pending, chart_pending,
  tool_error, proposed_job,
}
use autonomous_iq.Planner.Turn.Cases.{try_call-cases}
use autonomous_iq.Planner.Turn.{Caller, Results, caught, try_call, dispatch, run_calls, Tried, note}

abbrev pub ids_of : List TransformationJob → List ℕ
ids_of jobs = map (λ (j : TransformationJob). j.id) jobs

-- The job that a result reports.
abbrev pub reported : ToolResult → List ℕ
reported (job_pending id) = id ∷ []
reported _ = []

abbrev pub all_reported : Results → List ℕ
all_reported [] = []
all_reported ((name, result) ∷ results) = reported result ++ all_reported results

-- The step leaves the messages alone and adds the job that its result reports.
abbrev Step : Session → ToolResult → Session → Type 0
Step s result s' =
    (s'.working.messages ≡ s.working.messages)
    × (ids_of s'.working.jobs ≡ ids_of s.working.jobs ++ reported result)

abbrev Stepped : Session → Tried → Type 0
Stepped s (done result s') = Step s result s'
Stepped s (raised (value_error message) s') = Step s (tool_error message) s'
Stepped s (raised (approval_required spec by) s') = Step s (chart_pending spec by) s'
Stepped s (raised (failed e) s') = Unit

pub idle : (s : Session) → ids_of s.working.jobs ≡ ids_of s.working.jobs ++ []
idle s = sym (append-nil (ids_of s.working.jobs))

ids_of-append :
    (jobs : List TransformationJob) (j : TransformationJob)
    → ids_of (jobs ++ j ∷ []) ≡ ids_of jobs ++ j.id ∷ []
ids_of-append [] j = refl
ids_of-append (i ∷ jobs) j = ap (λ r. i.id ∷ r) (ids_of-append jobs j)

all_reported-append :
    (results : Results) (name : Text) (result : ToolResult)
    → all_reported (results ++ (name, result) ∷ []) ≡ all_reported results ++ reported result
all_reported-append [] name result = append-nil (reported result)
all_reported-append ((n, r) ∷ results) name result =
    ap (λ l. reported r ++ l) (all_reported-append results name result)
    ∙ sym (append_assoc (reported r) (all_reported results) (reported result))

abbrev Answered : Session → Outcome Failure ToolResult → Type 0
Answered s (done result s') = Step s result s'
Answered s (raised e s') = Unit

caught-Answered : (s : Session) (m : Tried) → Stepped s m → Answered s (caught m)
caught-Answered s (done result t) h = h
caught-Answered s (raised (value_error message) t) h = h
caught-Answered s (raised (approval_required spec by) t) h = h
caught-Answered s (raised (failed e) t) h = h

-- The messages of `base`, and the jobs of `base` with those that the results report.
abbrev pub Ran : Session → Results → Session → Type 0
Ran base results s =
    (s.working.messages ≡ base.working.messages)
    × (ids_of s.working.jobs ≡ ids_of base.working.jobs ++ all_reported results)

abbrev AllRan : Session → Outcome Failure (Results × Text) → Type 0
AllRan base (done final s) = Ran base final.0 s
AllRan base (raised e s) = Unit

ran :
    (base s t : Session) (results : Results) (name : Text) (result : ToolResult)
    → Ran base results s
    → Step s result t
    → Ran base (results ++ (name, result) ∷ []) t
ran base s t results name result h k = (
  k.0 ∙ h.0,
  k.1
      ∙ ap (λ l. l ++ reported result) h.1
      ∙ append_assoc (ids_of base.working.jobs) (all_reported results) (reported result)
      ∙ ap (λ l. ids_of base.working.jobs ++ l) (sym (all_reported-append results name result)),
)

module _ (lib : Library) (caller : Caller) where
  dispatch-Answered :
      (new_id : ℕ) (context : Dict) (call : ToolCallRequest) (s : Session)
      → Answered s (dispatch lib new_id caller context call s)
  unfolding dispatch
  dispatch-Answered new_id context call s =
      caught-Answered s (try_call lib new_id caller context call s) (
        try_call-cases lib caller new_id context call s (Stepped s) (record {
          refused = λ _. (refl, idle s);
          invalid = λ _. (refl, idle s);
          uncaught = λ _. tt;
          cells = λ _ _. (refl, idle s);
          chart = λ _ _. (refl, idle s);
          hits = (refl, idle s);
          proposal = λ id d sql _ _. (
            refl,
            ids_of-append s.working.jobs (proposed_job lib new_id id d.version sql caller.user_id),
          );
        }))

  pub run_calls-Ran :
      (base : Session) (new_id : ℕ → ℕ) (n : ℕ) (context : Dict) (calls : List ToolCallRequest)
      (results : Results) (text : Text) (s : Session) (final : Results × Text) (t : Session)
      → Ran base results s
      → run_calls lib new_id n caller context calls (results, text) s ≡ done final t
      → Ran base final.0 t
  unfolding run_calls
  run_calls-Ran base new_id n context [] results text s final t h e = subst (AllRan base) e h
  run_calls-Ran base new_id n context (call ∷ calls) results text s final t h e =
      let (result, s1, e1, e2) =
        >>>-done (dispatch lib (new_id n) caller context call s)
          (λ r.
            run_calls lib new_id (suc n) caller context calls
              (results ++ (call.tool_name, r) ∷ [], text ++ note call.tool_name r))
          e in
      run_calls-Ran base new_id (suc n) context calls (results ++ (call.tool_name, result) ∷ [])
        (text ++ note call.tool_name result) s1 final t
        (ran base s s1 results call.tool_name result h
          (subst (Answered s) e1 (dispatch-Answered (new_id n) context call s)))
        e2
