-- ===== src/Planner/Rag/Top.antt =====
-- The hits of search in apps/planner/rag.py among all the documents that match.
use mathlib.Core.List.{Perm}
use mathlib.Core.List.Perm
use autonomous_iq.Prelude.{
  ℕ, zero, suc, ◌≡◌, refl, ap, subst, ◌⊎◌, inl, inr, ◌≤◌, Bool, not, ◌&&◌, List, [], ◌∷◌, ◌++◌, map,
  All, any, take, filter, length, length-take-le, ◌==◌, leb, arith, Bool-cases,
}
use autonomous_iq.Prelude.Text.{Text}
use autonomous_iq.Models.Content.{Document}
use autonomous_iq.Planner.Rag.{
  RagHit, words, has_word, common, is_searchable, content_of, hit, scored, insert_hit, sort_hits,
  search,
}

-- Every hit scores at least what those behind it do.
abbrev pub IsDescending : List RagHit → Type 0
IsDescending [] = Unit
IsDescending (h ∷ hits) = All (λ (x : RagHit). x.overlap ≤ h.overlap) hits × IsDescending hits

-- The best of the hits, `k` of them or all, in descending order of their scores.
pub record IsTop (k : ℕ) (hits result : List RagHit) : Type 0 where
  pub rest : List RagHit
  pub same_hits : Perm (result ++ rest) hits
  pub descending : IsDescending (result ++ rest)
  pub bounded : length result ≤ k
  pub full : (length result ≡ k) ⊎ (rest ≡ [])

All-weaken :
    {A : Type 0} (f : A → ℕ) (m n : ℕ) (xs : List A)
    → m ≤ n
    → All (λ x. f x ≤ m) xs
    → All (λ x. f x ≤ n) xs
All-weaken f m n [] h a = tt
All-weaken f m n (x ∷ xs) h a = (omega (arith, a.0), All-weaken f m n xs h a.1)

insert_hit-All :
    (P : RagHit → Type 0) (h : RagHit) (hits : List RagHit)
    → P h
    → All P hits
    → All P (insert_hit h hits)
unfolding insert_hit
insert_hit-All P h [] p a = (p, tt)
insert_hit-All P h (x ∷ hits) p a = elim (Bool-cases (leb x.overlap h.overlap)) [
  | inl e ↦ rw e (p, a)
  | inr e ↦ rw e (a.0, insert_hit-All P h hits p a.1)
]

insert_hit-IsDescending :
    (h : RagHit) (hits : List RagHit) → IsDescending hits → IsDescending (insert_hit h hits)
unfolding insert_hit
insert_hit-IsDescending h [] d = (tt, tt)
insert_hit-IsDescending h (x ∷ hits) d = elim (Bool-cases (leb x.overlap h.overlap)) [
  | inl e ↦
      let below : x.overlap ≤ h.overlap = ground arith in
      rw e ((below, All-weaken (λ (y : RagHit). y.overlap) x.overlap h.overlap hits below d.0), d)
  | inr e ↦
      let above : h.overlap ≤ x.overlap = ground arith in
      rw e (
        insert_hit-All (λ y. y.overlap ≤ x.overlap) h hits above d.0,
        insert_hit-IsDescending h hits d.1,
      )
]

insert_hit-perm : (h : RagHit) (hits : List RagHit) → Perm (insert_hit h hits) (h ∷ hits)
unfolding insert_hit
insert_hit-perm h [] = Perm.rfl
insert_hit-perm h (x ∷ hits) = elim (Bool-cases (leb x.overlap h.overlap)) [
  | inl e ↦ rw e Perm.rfl
  | inr e ↦ rw e (Perm.trans (Perm.cons x (insert_hit-perm h hits)) (Perm.swap h x hits))
]

sort_hits-IsDescending : (hits : List RagHit) → IsDescending (sort_hits hits)
unfolding sort_hits
sort_hits-IsDescending [] = tt
sort_hits-IsDescending (h ∷ hits) =
    insert_hit-IsDescending h (sort_hits hits) (sort_hits-IsDescending hits)

sort_hits-perm : (hits : List RagHit) → Perm (sort_hits hits) hits
unfolding sort_hits
sort_hits-perm [] = Perm.rfl
sort_hits-perm (h ∷ hits) =
    Perm.trans (insert_hit-perm h (sort_hits hits)) (Perm.cons h (sort_hits-perm hits))

pub sort_hits-All : (P : RagHit → Type 0) (hits : List RagHit) → All P hits → All P (sort_hits hits)
unfolding sort_hits
sort_hits-All P [] a = tt
sort_hits-All P (h ∷ hits) a = insert_hit-All P h (sort_hits hits) a.0 (sort_hits-All P hits a.1)

-- What `take` leaves.
abbrev left_out : ℕ → List RagHit → List RagHit
left_out zero hits = hits
left_out (suc k) [] = []
left_out (suc k) (h ∷ hits) = left_out k hits

take-left_out : (k : ℕ) (hits : List RagHit) → take k hits ++ left_out k hits ≡ hits
take-left_out zero hits = refl
take-left_out (suc k) [] = refl
take-left_out (suc k) (h ∷ hits) = ap (λ r. h ∷ r) (take-left_out k hits)

take-full : (k : ℕ) (hits : List RagHit) → (length (take k hits) ≡ k) ⊎ (left_out k hits ≡ [])
take-full zero hits = inl refl
take-full (suc k) [] = inr refl
take-full (suc k) (h ∷ hits) = elim (take-full k hits) [
  | inl e ↦ inl (ap (λ n. suc n) e)
  | inr e ↦ inr e
]

take_sorted-IsTop : (k : ℕ) (hits : List RagHit) → IsTop k hits (take k (sort_hits hits))
take_sorted-IsTop k hits =
    let whole = take-left_out k (sort_hits hits) in
    record {
      rest = left_out k (sort_hits hits);
      same_hits = rw whole (sort_hits-perm hits);
      descending = rw whole (sort_hits-IsDescending hits);
      bounded = length-take-le k (sort_hits hits);
      full = take-full k (sort_hits hits);
    }

-- The document is one of the tenant with a text, and shares a word with the query.
abbrev pub matches : ℕ → List Text → Document → Bool
matches tenant_id query_words doc =
    is_searchable tenant_id doc && any (λ w. has_word w (words (content_of doc))) query_words

module _ (iterated : List Text → List Text) where
  common_lem :
      (query_words doc_words : List Text)
      → (length (common query_words doc_words) == 0)
        ≡ not (any (λ w. has_word w doc_words) query_words)
  common_lem [] doc_words = refl
  common_lem (w ∷ query_words) doc_words = elim (Bool-cases (has_word w doc_words)) [
    | inl e ↦ rw e (ground arith)
    | inr e ↦ rw e (common_lem query_words doc_words)
  ]

  scored_lem :
      (tenant_id : ℕ) (query_words : List Text) (docs : List Document)
      → scored iterated query_words (filter (is_searchable tenant_id) docs)
        ≡ map (hit iterated query_words) (filter (matches tenant_id query_words) docs)
  unfolding scored
  scored_lem tenant_id query_words [] = refl
  scored_lem tenant_id query_words (doc ∷ docs) =
      let again = scored_lem tenant_id query_words docs in
      elim (Bool-cases (is_searchable tenant_id doc)) [
        | inr e ↦ rw e again
        | inl e ↦ elim (Bool-cases (any (λ w. has_word w (words (content_of doc))) query_words)) [
          | inl f ↦ rw (e, scored, common_lem query_words (words (content_of doc)), f, again) refl
          | inr f ↦ rw (e, scored, common_lem query_words (words (content_of doc)), f) again
        ]
      ]

  no_words : (tenant_id : ℕ) (docs : List Document) → filter (matches tenant_id []) docs ≡ []
  no_words tenant_id [] = refl
  no_words tenant_id (doc ∷ docs) = elim (Bool-cases (is_searchable tenant_id doc)) [
    | inl e ↦ rw e (no_words tenant_id docs)
    | inr e ↦ rw e (no_words tenant_id docs)
  ]

  nothing-IsTop : IsTop 3 [] []
  nothing-IsTop = record {
    rest = [];
    same_hits = Perm.rfl;
    descending = tt;
    bounded = omega arith;
    full = inr refl;
  }

  search-words :
      (documents : List Document) (tenant_id : ℕ) (query : Text) (query_words : List Text)
      → words query ≡ query_words
      → IsTop 3
          (map (hit iterated query_words) (filter (matches tenant_id query_words) documents))
          (search iterated documents tenant_id query)
  unfolding search
  search-words documents tenant_id query [] e =
      rw (no_words tenant_id documents, e, search) nothing-IsTop
  search-words documents tenant_id query (w ∷ ws) e =
      rw (e, search)
        (subst
          (λ hits. IsTop 3 hits (
            take 3
              (sort_hits (scored iterated (w ∷ ws) (filter (is_searchable tenant_id) documents)))))
          (scored_lem tenant_id (w ∷ ws) documents)
          (take_sorted-IsTop 3
            (scored iterated (w ∷ ws) (filter (is_searchable tenant_id) documents))))

  -- A search returns, in descending order of their scores, the three best hits of the documents of
  -- the tenant that have a text and share a word with the query, or all of them if they are fewer.
  pub search-IsTop :
      (documents : List Document) (tenant_id : ℕ) (query : Text)
      → IsTop 3
          (map (hit iterated (words query)) (filter (matches tenant_id (words query)) documents))
          (search iterated documents tenant_id query)
  search-IsTop documents tenant_id query = search-words documents tenant_id query (words query) refl
