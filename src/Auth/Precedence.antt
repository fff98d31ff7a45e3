-- ===== src/Auth/Precedence.antt =====
-- Which answer of its authorizers a chain gives.
use nix_project_cache.Prelude.{
  ◌≡◌, ◌≢◌, ◌↔◌, refl, sym, ap, subst, ◌∙◌, inl, inr, Option, List, [], ◌∷◌, ◌++◌, Result, ok, err,
  Result-cases, All,
}
use nix_project_cache.Prelude.Text.{Text}
use nix_project_cache.Auth.{
  AuthError, Authorizer, Seen, nothing_seen, see, try_all, authorize_bearer,
}

module _ {I : Type 0} where
  -- The authorizer does not accept the token.
  abbrev pub IsRefusing : Option Text → Authorizer I → Type 0
  IsRefusing token a = (e : AuthError) × (a token ≡ err e)

  -- The first authorizer of the list that accepts the token gives the identity.
  abbrev pub IsFirst : List (Authorizer I) → Option Text → I → Type 0
  IsFirst authorizers token i =
      (before : List (Authorizer I)) × (a : Authorizer I) × (after : List (Authorizer I))
      × (authorizers ≡ before ++ a ∷ after)
      × All (IsRefusing token) before
      × (a token ≡ ok i)

  try_all-IsFirst :
      (l : List (Authorizer I)) (token : Option Text) (s : Seen) {i : I}
      → try_all l token s ≡ ok i
      → IsFirst l token i
  unfolding try_all
  try_all-IsFirst [] token s e = absurd (refused e)
    where
      refused : {E A : Type 0} {x : E} {a : A} → ◌≢◌ {A = Result E A} (err x) (ok a)
      refused e = cc
  try_all-IsFirst (a ∷ l) token s {i} e = elim (Result-cases (a token)) [
    | inl (j, accepts) ↦ ([], a, l, refl, tt, accepts ∙ rw (accepts, try_all) at e)
    | inr (x, refuses) ↦
        let (before, b, after, parts, refusing, accepts) =
          try_all-IsFirst l token (see x s) (rw (refuses, try_all) at e) in
        (a ∷ before, b, after, ap (λ r. a ∷ r) parts, ((x, refuses), refusing), accepts)
  ]

  IsFirst-try_all :
      (before : List (Authorizer I)) (a : Authorizer I) (after : List (Authorizer I))
      (token : Option Text) (s : Seen) {i : I}
      → All (IsRefusing token) before
      → a token ≡ ok i
      → try_all (before ++ a ∷ after) token s ≡ ok i
  unfolding try_all
  IsFirst-try_all [] a after token s h e = rw (e, try_all)
  IsFirst-try_all (b ∷ before) a after token s h e =
      rw (h.0.1, try_all) (IsFirst-try_all before a after token (see h.0.0 s) h.1 e)

  -- A chain accepts a token with an identity exactly if that is what the first authorizer says that
  -- accepts the token, and all before it refuse it.
  pub authorize_bearer_iff :
      (l : List (Authorizer I)) (token : Option Text) (i : I)
      → (authorize_bearer l token ≡ ok i) ↔ IsFirst l token i
  unfolding authorize_bearer
  authorize_bearer_iff l token i = (
    try_all-IsFirst l token nothing_seen,
    λ (before, a, after, parts, refusing, accepts).
        subst (λ l. authorize_bearer l token ≡ ok i) (sym parts)
          (IsFirst-try_all before a after token nothing_seen refusing accepts),
  )
