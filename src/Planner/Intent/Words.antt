-- ===== src/Planner/Intent/Words.antt =====
-- The intent of apps/planner/intent_classifier.py and the words of the message.
use autonomous_iq.Prelude.{
  ℕ, ◌≡◌, refl, Bool, true, false, not, ◌&&◌, ◌||◌, List, [], ◌∷◌, any, ◌==◌, if◌then◌else◌, arith,
  Bool-cases, inl, inr,
}
use autonomous_iq.Prelude.Text.{Text, text_eq, to_lower, is_word}
use autonomous_iq.Planner.Intent.{
  sql, tracker, document, chart, general, chart_words, tracker_words, sql_words, document_words,
  stands, search_from, search, classify,
}

-- The word that the text begins with, in lower case, and the words behind it.
unfoldable pub split_words : Text → Text × List Text
split_words [] = ([], [])
split_words (c ∷ s) =
    let (word, words) = split_words s in
    if is_word c then (to_lower c ∷ word, words) else ([], word ∷ words)

unfoldable pub words_of : Text → List Text
unfolding split_words
words_of s = let (word, words) = split_words s in word ∷ words

-- One of the keywords is a word of the message.
abbrev pub says : List Text → Text → Bool
says keywords message = any (λ w. any (λ k. text_eq k w) keywords) (words_of message)

abbrev pub is_keyword : List Text → Text → Bool
is_keyword keywords w = any (λ k. text_eq k w) keywords

-- A keyword is not empty and has no character of which a word ends.
abbrev pub is_word_text : Text → Bool
is_word_text [] = true
is_word_text (c ∷ s) = is_word c && is_word_text s

abbrev pub sound_keywords : List Text → Bool
sound_keywords [] = true
sound_keywords ([] ∷ keywords) = false
sound_keywords ((c ∷ k) ∷ keywords) = is_word c && is_word_text k && sound_keywords keywords

lower-word : (k c : ℕ) → is_word c ≡ false → is_word k ≡ true → (k == to_lower c) ≡ false
lower-word k c h i = ground arith

stands_lem : (k s : Text) → is_word_text k ≡ true → stands k s ≡ text_eq k (split_words s).0
unfolding split_words
stands_lem [] [] h = refl
stands_lem [] (c ∷ s) h = elim (Bool-cases (is_word c)) [ inl e ↦ rw e refl | inr e ↦ rw e refl ]
stands_lem (k ∷ word) [] h = refl
stands_lem (k ∷ word) (c ∷ s) h = elim (Bool-cases (is_word c)) [
  | inl e ↦ rw e (ground (arith, stands_lem word s))
  | inr e ↦ rw e (ground (arith, lower-word k c e))
]

any-stands :
    (keywords : List Text) (c : ℕ) (s : Text)
    → sound_keywords keywords ≡ true
    → any (λ w. stands w (c ∷ s)) keywords ≡ is_keyword keywords (split_words (c ∷ s)).0
any-stands [] c s h = refl
any-stands ([] ∷ keywords) c s h = cc
any-stands ((k ∷ word) ∷ keywords) c s h =
    ground (arith, stands_lem (k ∷ word) (c ∷ s), any-stands keywords c s)

no_empty : (keywords : List Text) → sound_keywords keywords ≡ true → is_keyword keywords [] ≡ false
no_empty [] h = refl
no_empty ([] ∷ keywords) h = cc
no_empty ((k ∷ word) ∷ keywords) h = ground (arith, no_empty keywords)

search_from_lem :
    (keywords : List Text) (in_word : Bool) (s : Text)
    → sound_keywords keywords ≡ true
    → search_from keywords in_word s ≡ (
        not in_word && is_keyword keywords (split_words s).0
        || any (is_keyword keywords) (split_words s).1)
unfolding search_from split_words
search_from_lem keywords in_word [] h = ground (arith, no_empty keywords h)
search_from_lem keywords in_word (c ∷ s) h = elim (Bool-cases (is_word c)) [
  | inl e ↦ ground (arith, e, any-stands keywords c s h, search_from_lem keywords true s h)
  | inr e ↦
      ground (
        arith,
        e,
        any-stands keywords c s h,
        no_empty keywords h,
        search_from_lem keywords false s h,
      )
]

pub search_lem :
    (keywords : List Text) (s : Text)
    → sound_keywords keywords ≡ true
    → search keywords s ≡ says keywords s
unfolding search words_of
search_lem keywords s h = search_from_lem keywords false s h

-- The intent of a message is that of the first list of keywords, of those of charts, trackers,
-- queries and documents in this order, of which a word of the message is one, in whatever case; if
-- there is none it is general.
pub classify_lem :
    (message : Text)
    → classify message ≡ (
        if says chart_words message
        then chart
        else if says tracker_words message
        then tracker
        else if says sql_words message
        then sql
        else if says document_words message
        then document
        else general)
unfolding classify
classify_lem message =
    rw
      (
        search_lem chart_words message refl,
        search_lem tracker_words message refl,
        search_lem sql_words message refl,
        search_lem document_words message refl,
      )
      refl
