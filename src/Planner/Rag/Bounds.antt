-- ===== src/Planner/Rag/Bounds.antt =====
-- The sizes of what search in apps/planner/rag.py returns.
use autonomous_iq.Prelude.{
  ℕ, ◌+◌, ◌-◌, ◌≡◌, refl, ◌≤◌, false, List, [], ◌∷◌, map, All, take, filter, length,
  length-filter-le, length-take-le, All-take, ◌==◌, reverse, Option-cases, inl, inr, arith,
  Bool-cases,
}
use mathlib.Core.List.{reverse_aux}
use autonomous_iq.Prelude.Text.{drop, lstrip, strip, Text, to_lower}
use autonomous_iq.Models.Content.{Document}
use autonomous_iq.Planner.Rag.{
  RagHit, words, has_word, is_searchable, content_of, find_in, snippet_from, snippet, hit, scored,
  sort_hits, search,
}
use autonomous_iq.Planner.Rag.Top.{sort_hits-All}

length-reverse_aux : (s t : Text) → length (reverse_aux s t) ≡ length s + length t
length-reverse_aux [] t = omega arith
length-reverse_aux (c ∷ s) t = omega (arith, length-reverse_aux s (c ∷ t))

length-lstrip-le : (s : Text) → length (lstrip s) ≤ length s
length-lstrip-le [] = omega arith
length-lstrip-le (c ∷ s) = ground (arith, length-lstrip-le s)

length-strip-le : (s : Text) → length (strip s) ≤ length s
length-strip-le s = omega (
  arith,
  length-reverse_aux (lstrip (reverse (lstrip s))) [],
  length-lstrip-le (reverse (lstrip s)),
  length-reverse_aux (lstrip s) [],
  length-lstrip-le s,
)

window_le : (s : Text) → length (strip (take 160 s)) ≤ 160
window_le s = omega (arith, length-strip-le (take 160 s), length-take-le 160 s)

snippet_le :
    (content lowered : Text) (query_words : List Text)
    → length (snippet_from content lowered query_words) ≤ 160
unfolding snippet_from
snippet_le content lowered [] = window_le content
snippet_le content lowered (w ∷ query_words) = elim (Option-cases (find_in w lowered)) [
  | inl e ↦ rw (e, snippet_from) (snippet_le content lowered query_words)
  | inr (n, e) ↦ rw (e, snippet_from) (window_le (drop (n - 80) content))
]

-- A score in (0, 1], and a snippet of at most 160 characters.
abbrev pub InBounds : RagHit → Type 0
InBounds h = (1 ≤ h.overlap) × (h.overlap ≤ h.query_size) × (length h.snippet ≤ 160)

module _ (iterated : List Text → List Text) where
  hit-InBounds :
      (query_words : List Text) (doc : Document)
      → ((hit iterated query_words doc).overlap == 0) ≡ false
      → InBounds (hit iterated query_words doc)
  unfolding snippet
  hit-InBounds query_words doc e = (
    ground arith,
    length-filter-le (λ w. has_word w (words (content_of doc))) query_words,
    snippet_le (content_of doc) (map to_lower (content_of doc)) (iterated query_words),
  )

  scored-InBounds :
      (query_words : List Text) (docs : List Document)
      → All InBounds (scored iterated query_words docs)
  unfolding scored
  scored-InBounds query_words [] = tt
  scored-InBounds query_words (doc ∷ docs) =
      elim (Bool-cases ((hit iterated query_words doc).overlap == 0)) [
        | inl e ↦ rw (e, scored) (scored-InBounds query_words docs)
        | inr e ↦ rw (e, scored) (hit-InBounds query_words doc e, scored-InBounds query_words docs)
      ]

  top-InBounds :
      (query_words : List Text) (docs : List Document)
      → All InBounds (take 3 (sort_hits (scored iterated query_words docs)))
  top-InBounds query_words docs =
      All-take InBounds 3 (sort_hits (scored iterated query_words docs)) (
        sort_hits-All InBounds (scored iterated query_words docs)
          (scored-InBounds query_words docs))

  search-words :
      (documents : List Document) (tenant_id : ℕ) (query : Text) (query_words : List Text)
      → words query ≡ query_words
      → All InBounds (search iterated documents tenant_id query)
        × (length (search iterated documents tenant_id query) ≤ 3)
  unfolding search
  search-words documents tenant_id query [] e = rw (e, search) (tt, omega arith)
  search-words documents tenant_id query (w ∷ ws) e =
      rw (e, search)
        (
          top-InBounds (w ∷ ws) (filter (is_searchable tenant_id) documents),
          length-take-le 3
              (sort_hits (scored iterated (w ∷ ws) (filter (is_searchable tenant_id) documents))),
        )

  -- A search returns at most three hits; each shares at least one word with the query and at most
  -- as many as the query has, and its snippet has at most 160 characters.
  pub search-InBounds :
      (documents : List Document) (tenant_id : ℕ) (query : Text)
      → All InBounds (search iterated documents tenant_id query)
        × (length (search iterated documents tenant_id query) ≤ 3)
  search-InBounds documents tenant_id query =
      search-words documents tenant_id query (words query) refl
