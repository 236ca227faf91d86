-- ===== src/Planner/Provider/Naive/Calls.antt =====
-- The calls that the keyword provider of libs/llm_provider/naive.py makes, and what comes of them in
-- apps/planner/planner.py.
use autonomous_iq.Prelude.{inr}
use autonomous_iq.Prelude.{inl}
use autonomous_iq.Prelude.{Bool-cases}
use autonomous_iq.Prelude.{
  ◌≡◌, refl, String, Bool, true, false, ◌&&◌, List, [], ◌∷◌, map, reverse, Option, none, some, All,
  length, ◌≤◌, if◌then◌else◌, arith,
}
use autonomous_iq.Prelude.Text.{Text, codes, to_lower}
use autonomous_iq.Errors.{ok}
use autonomous_iq.Planner.Provider.{LlmResponse, Message, ToolSchema, ToolCallRequest, offers}
use autonomous_iq.Planner.Provider.Naive.{first_user, Rule, chosen, respond, complete}

abbrev pub OfferedRule : List ToolSchema → Option Rule → Type 0
OfferedRule tools none = Unit
OfferedRule tools (some (name, text)) = offers tools name ≡ true

if-OfferedRule :
    (tools : List ToolSchema) (mentioned : Bool) (name : Text) (text : String) (rest : Option Rule)
    → OfferedRule tools rest
    → OfferedRule tools (if mentioned && offers tools name then some (name, text) else rest)
if-OfferedRule tools false name text rest h = h
if-OfferedRule tools true name text rest h = elim (Bool-cases (offers tools name)) [
  | inl e ↦ rw e e
  | inr e ↦ rw e h
]

chosen-OfferedRule :
    (lowered : Text) (tools : List ToolSchema) → OfferedRule tools (chosen lowered tools)
unfolding chosen
chosen-OfferedRule lowered tools = search if-OfferedRule

-- Every call of a response is of a tool that is offered, with the message as its prompt, and there
-- is at most one.
abbrev pub SoundCalls : List ToolSchema → Text → LlmResponse → Type 0
SoundCalls tools message response =
    All
      (λ (c : ToolCallRequest).
        (offers tools c.tool_name ≡ true) × (c.arguments ≡ (codes "prompt", message) ∷ []))
      response.tool_calls
    × (length response.tool_calls ≤ 1)

respond-SoundCalls :
    (tools : List ToolSchema) (message : Text) (rule : Option Rule)
    → OfferedRule tools rule
    → SoundCalls tools message (respond message rule)
respond-SoundCalls tools message none h = (tt, omega arith)
respond-SoundCalls tools message (some (name, text)) h = (((h, refl), tt), omega arith)

-- The keyword provider always answers, with at most one call, which is of a tool that it is
-- offered and has the last message of the user, unchanged, as its only argument, the prompt.
pub complete-SoundCalls :
    (system_prompt : String) (messages : List Message) (tools : List ToolSchema)
    → (response : LlmResponse) × (complete system_prompt messages tools ≡ ok response)
      × SoundCalls tools (first_user (reverse messages)) response
unfolding complete
complete-SoundCalls system_prompt messages tools =
    let message = first_user (reverse messages) in
    let rule = chosen (map to_lower message) tools in
    (
      respond message rule,
      refl,
      respond-SoundCalls tools message rule (chosen-OfferedRule (map to_lower message) tools),
    )
