-- ===== src/Auth.antt =====
-- Bearer authorizers: crates/depot-auth/src/chain.rs, crates/depot-auth/src/static_token.rs and crates/depot-auth/src/error.rs.
-- `I` is the type of identities.
pub mod Precedence
use nix_project_cache.Prelude.{
  ◌≡◌, Bool, true, false, Option, none, some, List, [], ◌∷◌, Result, ok, err, ok_or, ◌>>=◌,
  if◌then◌else◌,
}
use nix_project_cache.Prelude.Text.{Text, text_eq}

pub data AuthError : Type 0 where
  disabled : AuthError
  unavailable : Text → AuthError
  missing_token invalid_token : AuthError

-- An authorizer answers a bearer token, if there is one.
abbrev pub Authorizer : Type 0 → Type 0
Authorizer I = Option Text → Result AuthError I

-- The local variables of the loop over the authorizers.
pub record Seen : Type 0 where
  pub saw_enabled : Bool
  pub saw_missing : Bool
  pub saw_invalid : Bool
  pub unavailable_message : Option Text

abbrev pub nothing_seen : Seen
nothing_seen = record {
  saw_enabled = false;
  saw_missing = false;
  saw_invalid = false;
  unavailable_message = none;
}

-- `if unavailable.is_none() { unavailable = Some(message) }`.
abbrev pub first_message : Option Text → Text → Option Text
first_message none message = some message
first_message (some old) message = some old

-- The arms of the `match` that do not return.
unfoldable pub see : AuthError → Seen → Seen
see disabled s = s
see missing_token s = record s { saw_enabled = true; saw_missing = true }
see invalid_token s = record s { saw_enabled = true; saw_invalid = true }
see (unavailable message) s = record s {
  saw_enabled = true;
  unavailable_message = first_message s.unavailable_message message;
}

-- What the chain answers when no authorizer accepts.
unfoldable pub verdict_of : Seen → AuthError
verdict_of s =
    if s.saw_enabled
    then elim s.unavailable_message [
      | some message ↦ unavailable message
      | none ↦
          if s.saw_invalid then invalid_token else if s.saw_missing then missing_token else disabled
    ]
    else disabled

module _ {I : Type 0} where
  unfoldable pub try_all : List (Authorizer I) → Option Text → Seen → Result AuthError I
  try_all [] token s = err (verdict_of s)
  try_all (a ∷ rest) token s = elim (a token) [
    | ok identity ↦ ok identity
    | err e ↦ try_all rest token (see e s)
  ]

  -- `ChainAuthorizer::authorize_bearer`.
  unfoldable pub authorize_bearer : List (Authorizer I) → Authorizer I
  authorize_bearer authorizers token = try_all authorizers token nothing_seen

  -- `StaticTokenAuthorizer::authorize_bearer`; `admin` is `AuthenticatedIdentity::bootstrap_admin()`.
  unfoldable pub static_token : I → Option Text → Authorizer I
  static_token admin configured_token bearer_token = do
    configured ← ok_or configured_token disabled
    provided ← ok_or bearer_token missing_token
    if text_eq provided configured then ok admin else err invalid_token
