-- ===== src/Planner/Rag.antt =====
-- apps/planner/rag.py: the keyword search over the documents of a tenant. A set of words is the
-- list of its elements; the order in which a set is iterated is the parameter `iterated`. The score
-- of a hit, a float, is the pair of the two counts whose quotient it is. Words are ASCII, as in the
-- source; letters are lowered and white space is stripped as ASCII.

pub mod Top
pub mod Bounds
use autonomous_iq.Prelude.{
  ℕ, zero, suc, ◌-◌, ◌+◌, Bool, true, false, not, ◌&&◌, ◌||◌, List, [], ◌∷◌, map, reverse, Option,
  none, some, any, take, filter, length, ◌==◌, leb, if◌then◌else◌,
}
use autonomous_iq.Prelude.Text.{
  Text, text_eq, is_prefix, is_letter, is_digit, to_lower, drop, strip,
}
use autonomous_iq.Models.Content.{Document}

pub record RagHit : Type 0 where
  pub document_id : ℕ
  pub document_name : Text
  pub overlap : ℕ
  pub query_size : ℕ
  pub snippet : Text

-- [a-zA-Z0-9]
abbrev pub is_alnum : ℕ → Bool
is_alnum c = is_letter c || is_digit c

-- The run of such characters that the text begins with, lowered, and the runs behind it.
abbrev pub runs : Text → Text × List Text
runs [] = ([], [])
runs (c ∷ s) =
    let (word, found) = runs s in
    if is_alnum c then (to_lower c ∷ word, found) else ([], word ∷ found)

abbrev pub has_word : Text → List Text → Bool
has_word word found = any (λ w. text_eq word w) found

-- The set of the words that are not empty.
abbrev pub add_word : Text → List Text → List Text
add_word [] found = found
add_word (c ∷ word) found = if has_word (c ∷ word) found then found else (c ∷ word) ∷ found

abbrev pub word_set : List Text → List Text
word_set [] = []
word_set (w ∷ found) = add_word w (word_set found)

-- _words
unfoldable pub words : Text → List Text
words s = let (word, found) = runs s in word_set (word ∷ found)

-- str.find, as an option
abbrev pub find_in : Text → Text → Option ℕ
find_in part [] = if is_prefix part [] then some 0 else none
find_in part (c ∷ s) =
    let later = find_in part s in
    if is_prefix part (c ∷ s) then some 0 else elim later [ none ↦ none | some n ↦ some (suc n) ]

abbrev pub window : ℕ
window = 160

-- `content[start : start + window].strip()` around the first of the words that occurs.
unfoldable pub snippet_from : Text → Text → List Text → Text
snippet_from content lowered [] = strip (take window content)
snippet_from content lowered (word ∷ query_words) = elim (find_in word lowered) [
  | none ↦ snippet_from content lowered query_words
  | some idx ↦ strip (take window (drop (idx - 80) content))
]

-- _snippet
unfoldable pub snippet : Text → List Text → Text
unfolding snippet_from
snippet content query_words = snippet_from content (map to_lower content) query_words

-- `query_words & doc_words`
abbrev pub common : List Text → List Text → List Text
common query_words doc_words = filter (λ w. has_word w doc_words) query_words

-- What the query selects.
abbrev pub is_searchable : ℕ → Document → Bool
is_searchable tenant_id doc =
    doc.tenant_id == tenant_id && elim doc.content_text [ none ↦ false | some content ↦ true ]

abbrev pub content_of : Document → Text
content_of doc = elim doc.content_text [ none ↦ [] | some content ↦ content ]

-- scored.sort(key=lambda h: h.score, reverse=True), which is stable. The scores of one search
-- have one denominator.
unfoldable pub insert_hit : RagHit → List RagHit → List RagHit
insert_hit h [] = h ∷ []
insert_hit h (x ∷ hits) =
    let rest = insert_hit h hits in if leb x.overlap h.overlap then h ∷ x ∷ hits else x ∷ rest

unfoldable pub sort_hits : List RagHit → List RagHit
unfolding insert_hit
sort_hits [] = []
sort_hits (h ∷ hits) = insert_hit h (sort_hits hits)

module _ (iterated : List Text → List Text) where
  abbrev pub hit : List Text → Document → RagHit
  hit query_words doc = record {
    document_id = doc.id;
    document_name = doc.name;
    overlap = length (common query_words (words (content_of doc)));
    query_size = length query_words;
    snippet = snippet (content_of doc) (iterated query_words);
  }

  -- The loop over the documents.
  unfoldable pub scored : List Text → List Document → List RagHit
  unfolding words snippet
  scored query_words [] = []
  scored query_words (doc ∷ docs) =
      let rest = scored query_words docs in
      if (hit query_words doc).overlap == 0 then rest else hit query_words doc ∷ rest

  abbrev pub top_k : ℕ
  top_k = 3

  unfoldable pub search : List Document → ℕ → Text → List RagHit
  unfolding words scored sort_hits
  search documents tenant_id query = elim (words query) [
    | [] ↦ []
    | w ∷ ws ↦ take top_k (sort_hits (scored (w ∷ ws) (filter (is_searchable tenant_id) documents)))
  ]
