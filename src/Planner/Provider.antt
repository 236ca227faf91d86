-- ===== src/Planner/Provider.antt =====
-- libs/llm_provider: the interface of a model (base.py), the keyword provider (naive.py), the
-- provider of Vertex AI around a call of the package vertexai (vertex.py), and the choice between
-- them (factory.py). A dictionary is the association list of its entries; the values of a tool
-- call's arguments are texts. Letters are lowered as the ASCII ones.
pub mod Naive
pub mod Vertex
pub mod Factory
use autonomous_iq.Prelude.{
  String, Bool, true, false, ◌||◌, List, [], ◌∷◌, map, reverse, Option, none, some, any,
  if◌then◌else◌,
}
use autonomous_iq.Prelude.Text.{Text, codes, text_eq}
use autonomous_iq.Errors.{Response}
use autonomous_iq.Models.Content.{ChatRole}

abbrev pub Dict : Type 0
Dict = List (Text × Text)

-- dict.get
abbrev pub dict_get : Text → Dict → Option Text
dict_get key [] = none
dict_get key ((k, v) ∷ rest) =
    let found = dict_get key rest in if text_eq key k then some v else found

pub record ToolCallRequest : Type 0 where
  pub tool_name : Text
  pub arguments : Dict

pub record LlmResponse : Type 0 where
  pub text : Option Text
  pub tool_calls : List ToolCallRequest

-- A message of the history, and the schema of a tool as a model is told of it.
pub record Message : Type 0 where
  pub role : ChatRole
  pub content : Text

pub record ToolSchema : Type 0 where
  pub name : Text
  pub description : String
  pub properties : List Text
  pub required : List Text

-- complete(system_prompt, messages, available_tools)
abbrev pub LlmProvider : Type 0
LlmProvider = String → List Message → List ToolSchema → Response LlmResponse

abbrev pub offers : List ToolSchema → Text → Bool
offers tools name = any (λ (t : ToolSchema). text_eq t.name name) tools
