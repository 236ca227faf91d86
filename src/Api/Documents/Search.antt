-- ===== src/Api/Documents/Search.antt =====
-- What a document that apps/api/documents.py adds changes for the searches of apps/planner/rag.py.
use autonomous_iq.Prelude.{
  ℕ, ◌≡◌, refl, ap, subst, Bool, true, false, ◌&&◌, List, [], ◌∷◌, ◌++◌, map, any, filter, ◌==◌,
  if◌then◌else◌, Bool-cases, Option-cases, inl, inr, arith,
}
use autonomous_iq.Prelude.Text.{Text}
use autonomous_iq.Models.Content.{Document}
use autonomous_iq.Planner.Rag.{RagHit, words, has_word, content_of, hit, search}
use autonomous_iq.Planner.Rag.Top.{IsTop, matches, search-IsTop}
use autonomous_iq.Api.Documents.{is_present}

-- The text of the document has one of the words.
abbrev pub shares_word : List Text → Document → Bool
shares_word query_words d = any (λ w. has_word w (words (content_of d))) query_words

no_word : (query_words : List Text) → any (λ w. has_word w (words [])) query_words ≡ false
unfolding words
no_word [] = refl
no_word (w ∷ query_words) = no_word query_words

and_false : (b : Bool) → b && false ≡ false
and_false b = ground arith

matches_lem :
    (tenant_id : ℕ) (query_words : List Text) (d : Document)
    → matches tenant_id query_words d ≡ (d.tenant_id == tenant_id && shares_word query_words d)
matches_lem tenant_id query_words d = elim (Option-cases d.content_text) [
  | inl e ↦ rw (e, no_word query_words) (ground arith)
  | inr (t, e) ↦ rw e (ground arith)
]

-- What has a word has a text.
pub shares_word-is_present :
    (query_words : List Text) (d : Document)
    → shares_word query_words d ≡ true
    → is_present d.content_text ≡ true
shares_word-is_present query_words d h = elim (Option-cases d.content_text) [
  | inl e ↦ absurd (let never = no_word query_words in let clash = (rw e at h) in cc)
  | inr (t, e) ↦ rw e refl
]

module _ (iterated : List Text → List Text) where
  abbrev pub matching_hits : ℕ → Text → List Document → List RagHit
  matching_hits tenant_id query docs =
      map (hit iterated (words query)) (filter (matches tenant_id (words query)) docs)

  -- The hit that the document is for a query, if it is one.
  abbrev pub new_hits : ℕ → Text → Document → List RagHit
  new_hits tenant_id query d =
      if d.tenant_id == tenant_id && shares_word (words query) d
      then hit iterated (words query) d ∷ []
      else []

  matching_hits-append :
      (tenant_id : ℕ) (query : Text) (docs : List Document) (d : Document)
      → matching_hits tenant_id query (docs ++ d ∷ [])
        ≡ matching_hits tenant_id query docs ++ new_hits tenant_id query d
  matching_hits-append tenant_id query [] d =
      rw (matches_lem tenant_id (words query) d)
        (elim (Bool-cases (d.tenant_id == tenant_id && shares_word (words query) d)) [
          | inl e ↦ rw e refl
          | inr e ↦ rw e refl
        ])
  matching_hits-append tenant_id query (x ∷ docs) d =
      elim (Bool-cases (matches tenant_id (words query) x)) [
        | inl e ↦ rw e (
            ap (λ r. hit iterated (words query) x ∷ r)
              (matching_hits-append tenant_id query docs d))
        | inr e ↦ rw e (matching_hits-append tenant_id query docs d)
      ]

  pub search-append :
      (tenant_id : ℕ) (query : Text) (docs : List Document) (d : Document)
      → IsTop 3
          (matching_hits tenant_id query docs ++ new_hits tenant_id query d)
          (search iterated (docs ++ d ∷ []) tenant_id query)
  search-append tenant_id query docs d =
      subst (λ hits. IsTop 3 hits (search iterated (docs ++ d ∷ []) tenant_id query))
        (matching_hits-append tenant_id query docs d)
        (search-IsTop iterated (docs ++ d ∷ []) tenant_id query)
