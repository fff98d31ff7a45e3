-- ===== src/Authz/Admin.antt =====
-- How far the principal of an authorized identity reaches.
use nix_project_cache.Prelude.{
  ◌≡◌, ◌↔◌, ◌⊎◌, refl, sym, ap, subst, inl, inr, Bool, true, false, not, Option, some, List, Result,
  ok, err, bind-ok, guard, ok_inj, if◌then◌else◌, Bool-cases,
}
use nix_project_cache.Prelude.Text.{Text, text_eq, text_eq_refl, text_eq_iff}
use nix_project_cache.Prelude.Rows.{select}
use nix_project_cache.Ident.{ProjectSlug}
use nix_project_cache.Principal.{
  AuthenticatedIdentity, IdentityKind, bootstrap_admin_kind, oidc_kind, access_token_kind,
}
use nix_project_cache.Authz.{
  AuthorizedPrincipal, AuthorizationServiceError, AuthorizationQueries, is_empty,
  ref_pattern_matches, principal_of, require_admin, require_project, authorize_project,
  authorize_project_ref, authorize_oidc_project, authorize_oidc_project_ref,
  authorize_access_token_project, authorize_access_token_project_ref, matching_oidc_bindings,
  active_access_token_records, binding_patterns, token_patterns, is_own_ref, forbidden,
}

-- The principal is the identity's, reaches the project, no other project unless the identity is the
-- administrator's, and the administrator's routes only then.
abbrev pub IsConfined : AuthenticatedIdentity → ProjectSlug → AuthorizedPrincipal → Type 0
IsConfined identity project p =
    (p.identity ≡ identity)
    × (require_project p project ≡ ok tt)
    × ((other : ProjectSlug)
        → require_project p other ≡ ok tt
        → (other.slug ≡ project.slug) ⊎ (identity.kind ≡ bootstrap_admin_kind))
    × ((require_admin p ≡ ok tt) ↔ (identity.kind ≡ bootstrap_admin_kind))

abbrev is_admin_kind : IdentityKind → Bool
is_admin_kind bootstrap_admin_kind = true
is_admin_kind _ = false

same_slug :
    (own other : Text)
    → ◌≡◌ {A = Result AuthorizationServiceError (Unit {0})}
        (if text_eq own other then ok tt else err forbidden)
        (ok tt)
    → other ≡ own
same_slug own other h = elim (Bool-cases (text_eq own other)) [
  | inl e ↦ sym ((text_eq_iff own other).0 e)
  | inr e ↦ refused (rw e at h)
]
  where
    refused :
        ◌≡◌ {A = Result AuthorizationServiceError (Unit {0})} (err forbidden) (ok tt) → other ≡ own
    refused h = cc

principal_of-IsConfined :
    (identity : AuthenticatedIdentity) (project : ProjectSlug) (patterns : List (Option Text))
    {p : AuthorizedPrincipal}
    → is_admin_kind identity.kind ≡ false
    → principal_of identity project patterns ≡ ok p
    → IsConfined identity project p
unfolding principal_of require_project require_admin
principal_of-IsConfined identity project patterns {p} other_kind h =
    let (u, filled, h1) = bind-ok (guard (not (is_empty patterns)) forbidden) _ h in
    subst (IsConfined identity project) (ok_inj h1) (
      refl,
      rw (text_eq_refl project.slug) refl,
      λ other e. inl (same_slug project.slug other.slug e),
      ((λ e. refused e), λ e. absurd (not_admin e)),
    )
  where
    refused :
        ◌≡◌ {A = Result AuthorizationServiceError (Unit {0})} (err forbidden) (ok tt)
        → identity.kind ≡ bootstrap_admin_kind
    refused h = cc

    not_admin : identity.kind ≡ bootstrap_admin_kind → ⊥
    not_admin e = let same : is_admin_kind identity.kind ≡ true = ap is_admin_kind e in cc

module _ {T : Type 0} (db : AuthorizationQueries T) where
  abbrev identity_of : Text → Option Text → IdentityKind → AuthenticatedIdentity
  identity_of subject provider kind = record { subject = subject; provider = provider; kind = kind }

  project-IsConfined :
      (subject : Text) (provider : Option Text) (kind : IdentityKind) (project : ProjectSlug)
      {p : AuthorizedPrincipal}
      → authorize_project db (identity_of subject provider kind) project ≡ ok p
      → IsConfined (identity_of subject provider kind) project p
  unfolding authorize_project authorize_oidc_project authorize_access_token_project require_project
      require_admin
  project-IsConfined subject provider bootstrap_admin_kind project h =
      subst (IsConfined (identity_of subject provider bootstrap_admin_kind) project) (ok_inj h)
        (refl, refl, (λ other e. inr refl), ((λ e. refl), λ e. refl))
  project-IsConfined subject provider (oidc_kind o) project h =
      let identity = identity_of subject provider (oidc_kind o) in
      let (bindings, found, h1) = bind-ok (matching_oidc_bindings db identity o) _ h in
      principal_of-IsConfined identity project (binding_patterns project bindings) refl h1
  project-IsConfined subject provider (access_token_kind t) project h =
      let identity = identity_of subject provider (access_token_kind t) in
      let (records, found, h1) = bind-ok (active_access_token_records db t.token_id) _ h in
      principal_of-IsConfined identity project (token_patterns project records) refl h1

  module _ (matches : Text → Text → Bool) where
    ref-IsConfined :
        (subject : Text) (provider : Option Text) (kind : IdentityKind) (project : ProjectSlug)
        (ref_name : Text) {p : AuthorizedPrincipal}
        → authorize_project_ref db matches (identity_of subject provider kind) project ref_name
          ≡ ok p
        → IsConfined (identity_of subject provider kind) project p
    unfolding authorize_project_ref authorize_oidc_project_ref authorize_access_token_project_ref
        require_project require_admin
    ref-IsConfined subject provider bootstrap_admin_kind project ref_name h =
        subst (IsConfined (identity_of subject provider bootstrap_admin_kind) project) (ok_inj h)
          (refl, refl, (λ other e. inr refl), ((λ e. refl), λ e. refl))
    ref-IsConfined subject provider (oidc_kind o) project ref_name h =
        let identity = identity_of subject provider (oidc_kind o) in
        let (u, own, h1) = bind-ok (guard (is_own_ref o.ref_name ref_name) forbidden) _ h in
        let (bindings, found, h2) = bind-ok (matching_oidc_bindings db identity o) _ h1 in
        principal_of-IsConfined identity project
          (select (λ p. ref_pattern_matches matches p o.ref_name)
            (binding_patterns project bindings))
          refl h2
    ref-IsConfined subject provider (access_token_kind t) project ref_name h =
        let identity = identity_of subject provider (access_token_kind t) in
        let (records, found, h1) = bind-ok (active_access_token_records db t.token_id) _ h in
        principal_of-IsConfined identity project
          (select (λ p. ref_pattern_matches matches p (some ref_name))
            (token_patterns project records))
          refl h1

    -- A principal authorized for a project, or for a ref of it, carries the identity that asked, passes
    -- `require_project` for that project, for another one only if the identity is the bootstrap
    -- administrator, and passes `require_admin` exactly if the identity is.
    pub authorize-IsConfined :
        (identity : AuthenticatedIdentity) (project : ProjectSlug) (ref_name : Text)
        {p : AuthorizedPrincipal}
        → (authorize_project db identity project ≡ ok p)
          ⊎ (authorize_project_ref db matches identity project ref_name ≡ ok p)
        → IsConfined identity project p
    authorize-IsConfined identity project ref_name (inl h) =
        project-IsConfined identity.subject identity.provider identity.kind project h
    authorize-IsConfined identity project ref_name (inr h) =
        ref-IsConfined identity.subject identity.provider identity.kind project ref_name h
