-- ===== src/Planner/Intent.antt =====
-- apps/planner/intent_classifier.py. A pattern `\b(w1|w2|...)\b` is the list of the words it
-- matches, its optional letters written out, and a search tries every position of the message.
-- Case and word characters are the ASCII ones.
pub mod Words
use autonomous_iq.Prelude.{
  ℕ, Bool, true, false, not, ◌&&◌, ◌||◌, List, [], ◌∷◌, any, ◌==◌, if◌then◌else◌,
}
use autonomous_iq.Prelude.Text.{Text, codes, to_lower, is_word}

pub data Intent : Type 0 where
  sql tracker document chart general : Intent

abbrev pub chart_words : List Text
chart_words =
    codes "chart" ∷ codes "graph" ∷ codes "plot" ∷ codes "visualise" ∷ codes "visualize" ∷ []

abbrev pub tracker_words : List Text
tracker_words =
    codes "tracker" ∷ codes "cell" ∷ codes "formula" ∷ codes "spreadsheet" ∷ codes "grid" ∷ []

abbrev pub sql_words : List Text
sql_words =
    codes "sql"
    ∷ codes "select"
    ∷ codes "query"
    ∷ codes "database"
    ∷ codes "table"
    ∷ codes "row"
    ∷ codes "rows"
    ∷ []

abbrev pub document_words : List Text
document_words =
    codes "doc"
    ∷ codes "docs"
    ∷ codes "document"
    ∷ codes "documents"
    ∷ codes "policy"
    ∷ codes "sop"
    ∷ codes "procedure"
    ∷ []

-- A word of the pattern stands at the start of the text, and `\b` holds behind it.
abbrev pub stands : Text → Text → Bool
stands [] [] = true
stands [] (c ∷ s) = not (is_word c)
stands (k ∷ word) [] = false
stands (k ∷ word) (c ∷ s) = k == to_lower c && stands word s

-- pattern.search, behind a character that is or is not one of a word.
unfoldable pub search_from : List Text → Bool → Text → Bool
search_from words in_word [] = false
search_from words in_word (c ∷ s) =
    not in_word && any (λ w. stands w (c ∷ s)) words || search_from words (is_word c) s

unfoldable pub search : List Text → Text → Bool
unfolding search_from
search words message = search_from words false message

unfoldable pub classify : Text → Intent
unfolding search
classify message =
    if search chart_words message
    then chart
    else if search tracker_words message
    then tracker
    else if search sql_words message
    then sql
    else if search document_words message
    then document
    else general
