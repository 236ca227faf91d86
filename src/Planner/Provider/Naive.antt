-- ===== src/Planner/Provider/Naive.antt =====
-- libs/llm_provider/naive.py: keyword rules in place of a model.

pub mod Calls
use autonomous_iq.Prelude.{
  ◌≡◌, refl, String, Bool, true, false, ◌&&◌, ◌||◌, List, [], ◌∷◌, ◌++◌, map, reverse, Option, none,
  some, any, if◌then◌else◌,
}
use autonomous_iq.Prelude.Text.{Text, codes, is_prefix, to_lower}
use autonomous_iq.Errors.{Response, ok}
use autonomous_iq.Models.Content.{ChatRole, user, assistant}
use autonomous_iq.Planner.Provider.{
  LlmResponse, Message, ToolSchema, LlmProvider, ToolCallRequest, offers,
}

-- `part in text` on strings
abbrev pub contains : Text → Text → Bool
contains part [] = is_prefix part []
contains part (c ∷ s) = is_prefix part (c ∷ s) || contains part s

abbrev pub mentions : List Text → Text → Bool
mentions words lowered = any (λ w. contains w lowered) words

abbrev pub is_user : ChatRole → Bool
is_user user = true
is_user assistant = false

-- next((m["content"] for m in messages if m["role"] == "user"), "")
abbrev pub first_user : List Message → Text
first_user [] = []
first_user (m ∷ messages) =
    let rest = first_user messages in if is_user m.role then m.content else rest

-- The tool that the first rule to apply calls, with the text beside the call.
abbrev pub Rule : Type 0
Rule = Text × String

unfoldable pub chosen : Text → List ToolSchema → Option Rule
chosen lowered tools =
    if mentions (codes "chart" ∷ codes "graph" ∷ codes "plot" ∷ []) lowered
      && offers tools (codes "chart_tool")
    then some (
      codes "chart_tool",
      "I'll put together a chart for that -- it needs approval before it runs.",
    )
    else if mentions (codes "tracker" ∷ codes "cell" ∷ codes "formula" ∷ codes "spreadsheet" ∷ [])
          lowered
        && offers tools (codes "tracker_query_tool")
    then some (codes "tracker_query_tool", "Let me check the Tracker for that.")
    else if mentions
          (codes "select"
            ∷ codes "sql"
            ∷ codes "query"
            ∷ codes "database"
            ∷ codes "rows"
            ∷ codes "table"
            ∷ [])
          lowered
        && offers tools (codes "sql_query_tool")
    then some (
      codes "sql_query_tool",
      "That looks like a data query -- I'll draft it, but it needs approval before running.",
    )
    else if mentions
          (codes "doc" ∷ codes "policy" ∷ codes "sop" ∷ codes "procedure" ∷ codes "find" ∷ [])
          lowered
        && offers tools (codes "doc_search_tool")
    then some (codes "doc_search_tool", "Searching your uploaded documents for that.")
    else none

abbrev pub demo_text : Text
demo_text =
    codes "I'm running in demo mode (no Vertex AI configured), so I can only route obvious "
    ++ codes "keywords to a tool. Try mentioning \"chart\", \"tracker\", \"query\"/\"sql\", or "
    ++ codes "\"document\" to see a tool call, or configure LLM_PROVIDER=vertex for real "
    ++ codes "reasoning."

abbrev pub call_of : Text → Text → ToolCallRequest
call_of name message = record { tool_name = name; arguments = (codes "prompt", message) ∷ [] }

abbrev pub respond : Text → Option Rule → LlmResponse
respond message none = record { text = some demo_text; tool_calls = [] }
respond message (some (name, text)) = record {
  text = some (codes text);
  tool_calls = call_of name message ∷ [];
}

unfoldable pub complete : LlmProvider
unfolding chosen
complete system_prompt messages tools =
    let last_user_message = first_user (reverse messages) in
    ok (respond last_user_message (chosen (map to_lower last_user_message) tools))
