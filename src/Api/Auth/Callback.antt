-- ===== src/Api/Auth/Callback.antt =====
-- A second sign-in with the same account of a provider.
use autonomous_iq.Prelude.{
  ℕ, String, ◌≡◌, refl, sym, ◌∙◌, Bool, true, not, ◌&&◌, List, [], ◌∷◌, ◌++◌, Option, none, some,
  ◌==◌, find, arith, Bool-cases, Option-cases, inl, inr, ap, subst, str_eq_iff,
}
use autonomous_iq.Errors.{ok, >>=-ok}
use autonomous_iq.Models.Tenancy.{User, OAuthProvider, google, facebook, linkedin, OAuthIdentity}
use autonomous_iq.Models.Database.{Database, get_by, IsKeyed}
use autonomous_iq.Models.Schema.{tenant_exists, email_taken}
use autonomous_iq.Api.Auth.{
  new_viewer, has_email, provider_eq, is_identity, add_viewer, find_or_create, linked, sign_in,
}

abbrev pub user_id : User → ℕ
user_id u = u.id

find-append {ℓ} :
    {A : Type ℓ} (p : A → Bool) (xs : List A) (y : A)
    → find p xs ≡ none
    → p y ≡ true
    → find p (xs ++ y ∷ []) ≡ some y
find-append p [] y h t = ground arith
find-append p (x ∷ xs) y h t = elim (Bool-cases (p x)) [
  | inl e ↦ absurd (let clash = (rw e at h) in cc)
  | inr e ↦ rw e (find-append p xs y (rw e at h) t)
]

get_by-append :
    (id : ℕ) (xs : List User) (y : User)
    → get_by user_id id xs ≡ none
    → y.id ≡ id
    → get_by user_id id (xs ++ y ∷ []) ≡ some y
unfolding get_by
get_by-append id [] y h same = ground arith
get_by-append id (x ∷ xs) y h same = elim (Bool-cases (x.id == id)) [
  | inl e ↦ absurd (let clash = (rw (e, get_by) at h) in cc)
  | inr e ↦ rw (e, get_by) (get_by-append id xs y (rw (e, get_by) at h) same)
]

find-get_by :
    (p : User → Bool) (users : List User) (u : User)
    → IsKeyed user_id users
    → find p users ≡ some u
    → get_by user_id u.id users ≡ some u
unfolding get_by IsKeyed
find-get_by p [] u k h = cc
find-get_by p (x ∷ users) u k h = elim (Bool-cases (p x)) [
  | inl e ↦ let same : x ≡ u = (let s = (rw e at h) in cc) in ground arith
  | inr e ↦
      let rest = find-get_by p users u k.1 (rw e at h) in
      elim (Bool-cases (x.id == u.id)) [
        | inl t ↦ absurd (let none_there = k.0 in ground arith)
        | inr t ↦ rw (t, get_by) rest
      ]
]

provider_eq_refl : (p : OAuthProvider) → provider_eq p p ≡ true
provider_eq_refl google = refl
provider_eq_refl facebook = refl
provider_eq_refl linkedin = refl

is_identity_own :
    (provider : OAuthProvider) (account : String) (id : ℕ)
    → is_identity provider account
        (record { user_id = id; provider = provider; provider_user_id = account })
      ≡ true
is_identity_own provider account id =
    ground (arith, provider_eq_refl provider, str_eq_iff account account)

-- A user that is the row of its id, in a database with the identities of another.
abbrev pub Stored : Database → User → Database → Type 0
Stored db u db' = (get_by user_id u.id db'.users ≡ some u) × (db'.identities ≡ db.identities)

created :
    (new_id tenant : ℕ) (email : String) (db db' : Database) (u : User)
    → get_by user_id new_id db.users ≡ none
    → add_viewer (new_viewer new_id tenant email none) db ≡ ok (u, db')
    → Stored db u db'
unfolding add_viewer
created new_id tenant email db db' u fresh h =
    elim (Bool-cases (tenant_exists db tenant && not (email_taken db tenant email))) [
      | inl free ↦
          let got = (rw (free, add_viewer) at h) in
          let same : new_viewer new_id tenant email none ≡ u = cc in
          let same_users : db.users ++ new_viewer new_id tenant email none ∷ [] ≡ db'.users = cc in
          let same_identities : db.identities ≡ db'.identities = cc in
          (
            subst (λ (us : List User). get_by user_id u.id us ≡ some u) same_users
                (subst
                  (λ (v : User).
                    get_by user_id v.id (db.users ++ new_viewer new_id tenant email none ∷ [])
                    ≡ some v)
                  same
                  (get_by-append new_id db.users (new_viewer new_id tenant email none) fresh refl)),
            sym same_identities,
          )
      | inr taken ↦ absurd (let got = (rw (taken, add_viewer) at h) in cc)
    ]

-- The user that find_or_create gives is the row of its id afterwards.
find_or_create-get_by :
    (new_id tenant : ℕ) (email : Option String) (db db' : Database) (u : User)
    → IsKeyed user_id db.users
    → get_by user_id new_id db.users ≡ none
    → find_or_create new_id tenant email db ≡ ok (u, db')
    → Stored db u db'
unfolding find_or_create
find_or_create-get_by new_id tenant none db db' u k fresh h = absurd (let clash = h in cc)
find_or_create-get_by new_id tenant (some email) db db' u k fresh h =
    elim (Option-cases (find (has_email tenant email) db.users)) [
      | inl m ↦ created new_id tenant email db db' u fresh (rw (m, find_or_create) at h)
      | inr (found, e) ↦
          let got = (rw (e, find_or_create) at h) in
          let same : found ≡ u = cc in
          let same_users : db.users ≡ db'.users = cc in
          let same_identities : db.identities ≡ db'.identities = cc in
          (
            subst (λ (us : List User). get_by user_id u.id us ≡ some u) same_users
                (find-get_by (has_email tenant email) db.users u k (e ∙ ap some same)),
            sym same_identities,
          )
    ]

-- A sign-in with an account that is linked to a stored user.
linked_sign_in :
    (id : ℕ) (provider : OAuthProvider) (account : String) (email : Option String) (tenant : ℕ)
    (db : Database) (u : User) (i : OAuthIdentity)
    → find (is_identity provider account) db.identities ≡ some i
    → get_by user_id i.user_id db.users ≡ some u
    → sign_in id provider account email tenant db ≡ ok (u, db)
unfolding sign_in
linked_sign_in id provider account email tenant db u i e g = rw (e, sign_in, g) refl

-- If the ids of the users are distinct and the new id is fresh, then after a sign-in that succeeds
-- every later one with the same account of the same provider gives the same user and changes
-- nothing, whatever email and tenant it comes with.
pub sign_in_again :
    (new_id : ℕ) (provider : OAuthProvider) (account : String) (email : Option String) (tenant : ℕ)
    (db db' : Database) (u : User)
    → IsKeyed user_id db.users
    → get_by user_id new_id db.users ≡ none
    → sign_in new_id provider account email tenant db ≡ ok (u, db')
    → (id : ℕ) (email' : Option String) (tenant' : ℕ)
    → sign_in id provider account email' tenant' db' ≡ ok (u, db')
unfolding sign_in
sign_in_again new_id provider account email tenant db db' u k fresh h id email' tenant' =
    elim (Option-cases (find (is_identity provider account) db.identities)) [
      | inl m ↦
          let ((v, db1), got, done) =
            >>=-ok (find_or_create new_id tenant email db)
              (λ (v, db1). ok (v, linked provider account v db1)) (rw (m, sign_in) at h) in
          let (stored, same_ids) = find_or_create-get_by new_id tenant email db db1 v k fresh got in
          let same : v ≡ u = cc in
          let same_db : linked provider account v db1 ≡ db' = cc in
          let own : OAuthIdentity = record {
            user_id = v.id;
            provider = provider;
            provider_user_id = account;
          } in
          subst (λ (d : Database). sign_in id provider account email' tenant' d ≡ ok (u, d)) same_db
            (linked_sign_in id provider account email' tenant' (linked provider account v db1) u own
              (find-append (is_identity provider account) db1.identities own (rw same_ids m)
                (is_identity_own provider account v.id))
              (stored ∙ ap some same))
      | inr (i, e) ↦ elim (Option-cases (get_by user_id i.user_id db.users)) [
        | inl m ↦ absurd (let clash = (rw (e, sign_in, m) at h) in cc)
        | inr (v, g) ↦
            let got = (rw (e, sign_in, g) at h) in
            let same : v ≡ u = cc in
            let same_db : db ≡ db' = cc in
            subst (λ (d : Database). sign_in id provider account email' tenant' d ≡ ok (u, d))
              same_db
              (linked_sign_in id provider account email' tenant' db u i e (g ∙ ap some same))
      ]
    ]
