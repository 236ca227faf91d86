-- ===== src/Api/Auth/Providers.antt =====
-- libs/auth/oauth.py and oauth_login of apps/api/auth.py. The environment is a function of the name
-- of a variable; the redirect to a provider is the work of the package authlib and an argument.
use autonomous_iq.Prelude.{
  ◌≡◌, refl, String, Bool, true, false, ◌&&◌, ◌||◌, List, [], ◌∷◌, ◌++◌, map, any, Option, none,
  some, arith,
}
use autonomous_iq.Prelude.Text.{Text, codes, to_upper}
use autonomous_iq.Errors.{Response, ok, err, domain, authentication_failed, require, ◌>>◌}
use autonomous_iq.Models.Tenancy.{OAuthProvider, google, facebook, linkedin}
use autonomous_iq.Api.Auth.{provider_eq, supported_provider}

pub record ProviderConfig : Type 0 where
  pub server_metadata_url : Option String
  pub access_token_url : Option String
  pub authorize_url : Option String
  pub api_base_url : Option String
  pub scope : String

-- _PROVIDER_CONFIG
abbrev pub provider_config : OAuthProvider → ProviderConfig
provider_config google = record {
  server_metadata_url = some "https://accounts.google.com/.well-known/openid-configuration";
  access_token_url = none;
  authorize_url = none;
  api_base_url = none;
  scope = "openid email profile";
}
provider_config facebook = record {
  server_metadata_url = none;
  access_token_url = some "https://graph.facebook.com/v18.0/oauth/access_token";
  authorize_url = some "https://www.facebook.com/v18.0/dialog/oauth";
  api_base_url = some "https://graph.facebook.com/v18.0/";
  scope = "email public_profile";
}
provider_config linkedin = record {
  server_metadata_url = none;
  access_token_url = some "https://www.linkedin.com/oauth/v2/accessToken";
  authorize_url = some "https://www.linkedin.com/oauth/v2/authorization";
  api_base_url = some "https://api.linkedin.com/v2/";
  scope = "openid email profile";
}

abbrev pub provider_name : OAuthProvider → Text
provider_name google = codes "google"
provider_name facebook = codes "facebook"
provider_name linkedin = codes "linkedin"

-- What oauth.register keeps of a provider.
pub record Client : Type 0 where
  pub name : OAuthProvider
  pub client_id : Text
  pub client_secret : Text
  pub config : ProviderConfig

abbrev pub Environment : Type 0
Environment = Text → Option Text

abbrev pub client_id_of : Environment → OAuthProvider → Option Text
client_id_of env p = env (map to_upper (provider_name p) ++ codes "_OAUTH_CLIENT_ID")

abbrev pub client_secret_of : Environment → OAuthProvider → Option Text
client_secret_of env p = env (map to_upper (provider_name p) ++ codes "_OAUTH_CLIENT_SECRET")

-- One round of the loop: a variable that is absent or empty skips the provider.
abbrev pub client_of : OAuthProvider → Option Text → Option Text → List Client
client_of p (some (c ∷ id)) (some (d ∷ secret)) =
    record { name = p; client_id = c ∷ id; client_secret = d ∷ secret; config = provider_config p }
    ∷ []
client_of p _ _ = []

unfoldable pub register_configured_providers : Environment → List Client
register_configured_providers env =
    client_of google (client_id_of env google) (client_secret_of env google)
    ++ (client_of facebook (client_id_of env facebook) (client_secret_of env facebook)
        ++ client_of linkedin (client_id_of env linkedin) (client_secret_of env linkedin))

unfoldable pub is_provider_configured : List Client → OAuthProvider → Bool
is_provider_configured clients p = any (λ (c : Client). provider_eq c.name p) clients

module _ {Redirect : Type 0} (authorize_redirect : OAuthProvider → Redirect) where
  unfoldable pub oauth_login : List Client → String → Response Redirect
  unfolding supported_provider is_provider_configured
  oauth_login clients name = elim (supported_provider name) [
    | none ↦ err (domain authentication_failed)
    | some p ↦
        require (is_provider_configured clients p) authentication_failed
        >> ok (authorize_redirect p)
  ]

-- The variable is set and not empty.
abbrev pub is_set : Option Text → Bool
is_set none = false
is_set (some []) = false
is_set (some (c ∷ s)) = true

any-append : (p : Client → Bool) (xs ys : List Client) → any p (xs ++ ys) ≡ any p xs || any p ys
any-append p [] ys = refl
any-append p (x ∷ xs) ys = ground (arith, any-append p xs ys)

any-client_of :
    (q p : OAuthProvider) (id secret : Option Text)
    → any (λ (c : Client). provider_eq c.name p) (client_of q id secret)
      ≡ (provider_eq q p && (is_set id && is_set secret))
any-client_of q p none secret = ground arith
any-client_of q p (some []) secret = ground arith
any-client_of q p (some (c ∷ id)) none = ground arith
any-client_of q p (some (c ∷ id)) (some []) = ground arith
any-client_of q p (some (c ∷ id)) (some (d ∷ secret)) = ground arith

one_of_three :
    (p : OAuthProvider) (set : OAuthProvider → Bool)
    → (provider_eq google p && set google
        || (provider_eq facebook p && set facebook || provider_eq linkedin p && set linkedin))
      ≡ set p
one_of_three google set = ground arith
one_of_three facebook set = ground arith
one_of_three linkedin set = ground arith

-- After the startup a provider is configured exactly if both of its variables are set and not empty.
pub register-is_provider_configured :
    (env : Environment) (p : OAuthProvider)
    → is_provider_configured (register_configured_providers env) p
      ≡ (is_set (client_id_of env p) && is_set (client_secret_of env p))
unfolding is_provider_configured register_configured_providers
register-is_provider_configured env p =
    let named : Client → Bool = λ c. provider_eq c.name p in
    let round : OAuthProvider → List Client =
      λ q. client_of q (client_id_of env q) (client_secret_of env q) in
    rw
      (
        any-append named (round google) (round facebook ++ round linkedin),
        any-append named (round facebook) (round linkedin),
        any-client_of google p (client_id_of env google) (client_secret_of env google),
        any-client_of facebook p (client_id_of env facebook) (client_secret_of env facebook),
        any-client_of linkedin p (client_id_of env linkedin) (client_secret_of env linkedin),
      )
      (one_of_three p (λ q. is_set (client_id_of env q) && is_set (client_secret_of env q)))
