-- ===== src/Planner/Provider/Vertex.antt =====
-- libs/llm_provider/vertex.py. The package vertexai is the parameter `generate`: from the system
-- instruction, the declarations of the tools and the history it gives the parts of the response's
-- first candidate, or raises. The lazy initialisation of the package is part of it.
use autonomous_iq.Prelude.{String, ◌++◌, List, [], ◌∷◌, map, Option, none, some}
use autonomous_iq.Prelude.Text.{Text}
use autonomous_iq.Errors.{Response, ok, ◌>>=◌}
use autonomous_iq.Models.Content.{ChatRole, user, assistant}
use autonomous_iq.Planner.Provider.{LlmResponse, Message, ToolSchema, LlmProvider, ToolCallRequest}

-- A part of the response: a text, a function call, both or neither.
pub record Part : Type 0 where
  pub text : Option Text
  pub function_call : Option ToolCallRequest

pub record Content : Type 0 where
  pub role : String
  pub parts : List Text

abbrev pub role_name : ChatRole → String
role_name user = "user"
role_name assistant = "model"

abbrev pub content_of : Message → Content
content_of m = record { role = role_name m.role; parts = m.content ∷ [] }

-- `if available_tools: tools = [Tool(...)]`
abbrev pub declared : List ToolSchema → Option (List ToolSchema)
declared [] = none
declared (t ∷ tools) = some (t ∷ tools)

-- `(text or "") + part.text`, if the part has a text that is not empty.
abbrev pub add_text : Option Text → Option Text → Option Text
add_text text none = text
add_text text (some []) = text
add_text none (some (c ∷ s)) = some (c ∷ s)
add_text (some before) (some (c ∷ s)) = some (before ++ c ∷ s)

abbrev pub add_call : List ToolCallRequest → Option ToolCallRequest → List ToolCallRequest
add_call calls none = calls
add_call calls (some call) = calls ++ call ∷ []

-- The loop over the parts.
unfoldable pub read_parts : LlmResponse → List Part → LlmResponse
read_parts response [] = response
read_parts response (part ∷ parts) =
    read_parts
      (record {
        text = add_text response.text part.text;
        tool_calls = add_call response.tool_calls part.function_call;
      })
      parts

module _ (generate : String → Option (List ToolSchema) → List Content → Response (List Part)) where
  unfoldable pub complete : LlmProvider
  unfolding read_parts
  complete system_prompt messages tools =
      generate system_prompt (declared tools) (map content_of messages) >>= λ parts.
      ok (read_parts (record { text = none; tool_calls = [] }) parts)
