-- ===== src/Planner/Provider/Factory.antt =====
-- libs/llm_provider/factory.py: the choice of the provider by the variable LLM_PROVIDER.
use autonomous_iq.Prelude.{map, Option, none, some, if◌then◌else◌}
use autonomous_iq.Prelude.Text.{Text, codes, text_eq, to_lower}
use autonomous_iq.Planner.Provider.{LlmProvider}
use autonomous_iq.Planner.Provider.Naive.{complete}

-- The provider of Vertex AI is an argument.
unfoldable pub get_llm_provider : LlmProvider → Option Text → LlmProvider
get_llm_provider vertex none = complete
get_llm_provider vertex (some name) =
    if text_eq (map to_lower name) (codes "vertex") then vertex else complete
