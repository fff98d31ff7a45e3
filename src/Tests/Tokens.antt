-- ===== src/Tests/Tokens.antt =====
-- Runs of the models of the bearer authorizers.
use nix_project_cache.Prelude.{◌≡◌, ◌↔◌, some, List, [], ◌∷◌, ok}
use nix_project_cache.Prelude.Text.{Text, text}
use nix_project_cache.Auth.{Authorizer, authorize_bearer, static_token}
use nix_project_cache.Auth.Precedence.{IsFirst, authorize_bearer_iff}

abbrev two_tokens : List (Authorizer Text)
two_tokens =
    static_token (text "first") (some (text "secret"))
    ∷ static_token (text "second") (some (text "other"))
    ∷ []

authorize_bearer_iff_example :
    (authorize_bearer two_tokens (some (text "other")) ≡ ok (text "second"))
    ↔ IsFirst two_tokens (some (text "other")) (text "second")
authorize_bearer_iff_example = authorize_bearer_iff two_tokens (some (text "other")) (text "second")
