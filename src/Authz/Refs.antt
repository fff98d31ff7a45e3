-- ===== src/Authz/Refs.antt =====
-- What a principal may write to agrees with what its identity was authorized for.
use nix_project_cache.Prelude.{
  ◌≡◌, refl, sym, ap, subst, ◌∙◌, inl, inr, Bool, true, false, not, ◌||◌, Option, none, some, List,
  [], ◌∷◌, Result, ok, err, ◌>>=◌, any, is_none, bind-ok, guard-ok, Bool-cases, List-cases,
  if◌then◌else◌, ok_inj, guard,
}
use nix_project_cache.Prelude.Text.{Text, text_eq_refl, text_eq_iff}
use nix_project_cache.Prelude.Text.Order.{sort, any-sort}
use nix_project_cache.Prelude.Rows.{select, dedup, any-dedup, select-row, row-any}
use nix_project_cache.Ident.{ProjectSlug}
use nix_project_cache.Principal.{
  AuthenticatedIdentity, IdentityKind, OidcIdentity, bootstrap_admin_kind, oidc_kind,
  access_token_kind,
}
use nix_project_cache.Authz.{
  AuthorizedPrincipal, AuthorizationServiceError, AuthorizationQueries, project_scope, is_empty,
  ref_patterns_from, sorted_ref_patterns, ref_pattern_matches, admits, principal_of,
  require_project_ref, authorize_project, authorize_project_ref, authorize_oidc_project,
  authorize_oidc_project_ref, authorize_access_token_project, authorize_access_token_project_ref,
  matching_oidc_bindings, active_access_token_records, binding_patterns, token_patterns, is_own_ref,
  forbidden,
}
use nix_project_cache.Db.Tokens.{AccessTokenRecord}
use nix_project_cache.Db.Bindings.{ProjectOidcIdentityRecord}
use mathlib.Core.List.{Memᴰ, filter_map}

is_empty-any : {A : Type 0} (l : List A) → is_empty l ≡ not (any (λ _. true) l)
is_empty-any [] = refl
is_empty-any (x ∷ l) = refl

is_empty-select : {A : Type 0} (p : A → Bool) (l : List A) → is_empty (select p l) ≡ not (any p l)
is_empty-select p [] = refl
is_empty-select p (x ∷ l) = elim (Bool-cases (p x)) [
  | inl e ↦ rw e refl
  | inr e ↦ rw e (is_empty-select p l)
]

module _ (matches : Text → Text → Bool) (ref_name : Text) where
  abbrev matched : Option Text → Bool
  matched p = ref_pattern_matches matches p (some ref_name)

  none-matched : (l : List (Option Text)) → any is_none l ≡ true → any matched l ≡ true
  unfolding ref_pattern_matches
  none-matched [] h = cc
  none-matched (none ∷ l) h = refl
  none-matched (some p ∷ l) h =
      let later = none-matched l h in
      elim (Bool-cases (matches p ref_name)) [ inl e ↦ rw e refl | inr e ↦ rw e later ]

  some-matched :
      (l : List (Option Text))
      → any is_none l ≡ false
      → any (λ p. matches p ref_name) (filter_map (λ p. p) l) ≡ any matched l
  unfolding ref_pattern_matches filter_map
  some-matched [] h = refl
  some-matched (none ∷ l) h = cc
  some-matched (some p ∷ l) h = ap (λ b. matches p ref_name || b) (some-matched l h)

  -- Records left, their patterns admit the ref exactly if one of them does.
  admits-ref_patterns_from :
      (l : List (Option Text))
      → is_empty l ≡ false
      → admits matches (ref_patterns_from l) ref_name ≡ any matched l
  unfolding ref_patterns_from admits sorted_ref_patterns filter_map
  admits-ref_patterns_from [] h = cc
  admits-ref_patterns_from (p ∷ l) h = elim (Bool-cases (any is_none (p ∷ l))) [
    | inl e ↦ rw e (sym (none-matched (p ∷ l) e))
    | inr e ↦ rw e (not_empty p l e)
  ]
    where
      not_empty :
          (p : Option Text) (l : List (Option Text))
          → any is_none (p ∷ l) ≡ false
          → (is_empty (dedup (sort (filter_map (λ p. p) (p ∷ l))))
              || any (λ p. matches p ref_name) (dedup (sort (filter_map (λ p. p) (p ∷ l)))))
            ≡ any matched (p ∷ l)
      not_empty none l e = cc
      not_empty (some p) l e =
          let ps = filter_map (λ p. p) (some p ∷ l) in
          rw
            (
              is_empty-any (dedup (sort ps)),
              any-dedup (λ _. true) (sort ps),
              any-sort (λ _. true) ps,
              any-dedup (λ p. matches p ref_name) (sort ps),
              any-sort (λ p. matches p ref_name) ps,
            )
            (some-matched (some p ∷ l) e)

  abbrev principal : AuthenticatedIdentity → ProjectSlug → List (Option Text) → AuthorizedPrincipal
  principal identity project patterns = record {
    identity = identity;
    scope = project_scope project (ref_patterns_from patterns);
  }

  require-principal :
      (identity : AuthenticatedIdentity) (project : ProjectSlug) (l : List (Option Text))
      → is_empty l ≡ false
      → require_project_ref matches (principal identity project l) project ref_name
        ≡ (if any matched l then ok tt else err forbidden)
  unfolding require_project_ref admits
  require-principal identity project l h =
      rw (text_eq_refl project.slug)
        (ap (λ b. if b then ok tt else err forbidden) (admits-ref_patterns_from l h))

  require-selected :
      (q : Option Text → Bool) (project : ProjectSlug) (identity : AuthenticatedIdentity)
      (l : List (Option Text)) {p : AuthorizedPrincipal}
      → ((x : Option Text) → q x ≡ true → matched x ≡ true)
      → principal_of identity project (select q l) ≡ ok p
      → require_project_ref matches p project ref_name ≡ ok tt
  unfolding principal_of
  require-selected q project identity l {p} implies h = elim (List-cases (select q l)) [
    | inl e ↦ refused (rw e at h)
    | inr (x, xs, e) ↦
        let passes : any matched (select q l) ≡ true =
          row-any matched (subst (Memᴰ x) (sym e) (Memᴰ.head refl))
            (implies x (select-row q l (subst (Memᴰ x) (sym e) (Memᴰ.head refl))).1) in
        let filled : is_empty (select q l) ≡ false = rw e refl in
        let own : principal identity project (select q l) ≡ p = ok_inj (rw filled at h) in
        subst (λ p. require_project_ref matches p project ref_name ≡ ok tt) own
          (require-principal identity project (select q l) filled
            ∙ ap (λ b. if b then ok tt else err forbidden) passes)
  ]
    where
      refused :
          ◌≡◌ {A = Result AuthorizationServiceError AuthorizedPrincipal} (err forbidden) (ok p)
          → require_project_ref matches p project ref_name ≡ ok tt
      refused h = cc

  -- Requiring the ref of the principal of all records is what it is to keep the records of the ref.
  principal_of-require :
      (identity : AuthenticatedIdentity) (project : ProjectSlug) (l : List (Option Text))
      → (principal_of identity project l >>= λ p. require_project_ref matches p project ref_name)
        ≡ (principal_of identity project (select matched l) >>= λ _. ok tt)
  unfolding principal_of
  principal_of-require identity project [] = refl
  principal_of-require identity project (x ∷ l) =
      require-principal identity project (x ∷ l) refl ∙ (elim (Bool-cases (any matched (x ∷ l))) [
        | inl e ↦ rw (is_empty-select matched (x ∷ l), e) refl
        | inr e ↦ rw (is_empty-select matched (x ∷ l), e) refl
      ])

-- The identity names the ref, if it is one of OIDC.
abbrev pub NamesRef : AuthenticatedIdentity → Text → Type 0
NamesRef identity ref_name =
    (o : OidcIdentity) → identity.kind ≡ oidc_kind o → o.ref_name ≡ some ref_name

module _ {T : Type 0} (db : AuthorizationQueries T) (matches : Text → Text → Bool)
    (ref_name : Text) where
  own-matched :
      (o : Option Text)
      → is_own_ref o ref_name ≡ true
      → (x : Option Text) → ref_pattern_matches matches x o ≡ true
      → ref_pattern_matches matches x (some ref_name) ≡ true
  unfolding ref_pattern_matches
  own-matched o own none h = refl
  own-matched none own (some p) h = cc
  own-matched (some r) own (some p) h =
      subst (λ r. matches p r ≡ true) ((text_eq_iff r ref_name).0 own) h

  abbrev identity_of : Text → Option Text → IdentityKind → AuthenticatedIdentity
  identity_of subject provider kind = record { subject = subject; provider = provider; kind = kind }

  kind-passes :
      (subject : Text) (provider : Option Text) (kind : IdentityKind) (project : ProjectSlug)
      {p : AuthorizedPrincipal}
      → authorize_project_ref db matches (identity_of subject provider kind) project ref_name ≡ ok p
      → require_project_ref matches p project ref_name ≡ ok tt
  unfolding authorize_project_ref authorize_oidc_project_ref authorize_access_token_project_ref
      require_project_ref
  kind-passes subject provider bootstrap_admin_kind project {p} h =
      subst (λ p. require_project_ref matches p project ref_name ≡ ok tt) (ok_inj h) refl
  kind-passes subject provider (oidc_kind o) project h =
      let identity = identity_of subject provider (oidc_kind o) in
      let (u, own, h1) = bind-ok (guard (is_own_ref o.ref_name ref_name) forbidden) _ h in
      let (bindings, found, h2) = bind-ok (matching_oidc_bindings db identity o) _ h1 in
      require-selected matches ref_name (λ x. ref_pattern_matches matches x o.ref_name) project
        identity (binding_patterns project bindings)
        (own-matched o.ref_name (guard-ok (is_own_ref o.ref_name ref_name) forbidden own)) h2
  kind-passes subject provider (access_token_kind t) project h =
      let identity = identity_of subject provider (access_token_kind t) in
      let (records, found, h1) = bind-ok (active_access_token_records db t.token_id) _ h in
      require-selected matches ref_name (λ x. ref_pattern_matches matches x (some ref_name)) project
        identity (token_patterns project records) (λ x e. e) h1

  -- Who is authorized for a ref of a project may write to that ref of that project: the principal that
  -- `authorize_project_ref` gives passes `require_project_ref` for the same project and ref.
  pub authorize_project_ref-require :
      (identity : AuthenticatedIdentity) (project : ProjectSlug) {p : AuthorizedPrincipal}
      → authorize_project_ref db matches identity project ref_name ≡ ok p
      → require_project_ref matches p project ref_name ≡ ok tt
  authorize_project_ref-require identity project h =
      kind-passes identity.subject identity.provider identity.kind project h

  oidc-agrees :
      (identity : AuthenticatedIdentity) (project : ProjectSlug)
      (found : Result AuthorizationServiceError (List (ProjectOidcIdentityRecord T)))
      (r : Option Text)
      → r ≡ some ref_name
      → ((found >>= λ b. principal_of identity project (binding_patterns project b)) >>= λ p.
          require_project_ref matches p project ref_name)
        ≡ ((guard (is_own_ref r ref_name) forbidden >>= λ _. found >>= λ b.
              principal_of identity project
                (select (λ p. ref_pattern_matches matches p r) (binding_patterns project b)))
            >>= λ _. ok tt)
  oidc-agrees identity project (err e) r named = rw (named, text_eq_refl ref_name) refl
  oidc-agrees identity project (ok b) r named =
      rw (named, text_eq_refl ref_name)
        (principal_of-require matches ref_name identity project (binding_patterns project b))

  token-agrees :
      (identity : AuthenticatedIdentity) (project : ProjectSlug)
      (found : Result AuthorizationServiceError (List (AccessTokenRecord T)))
      → ((found >>= λ b. principal_of identity project (token_patterns project b)) >>= λ p.
          require_project_ref matches p project ref_name)
        ≡ ((found >>= λ b. principal_of identity project (
              select
                (λ p. ref_pattern_matches matches p (some ref_name))
                (token_patterns project b)))
            >>= λ _. ok tt)
  token-agrees identity project (err e) = refl
  token-agrees identity project (ok b) =
      principal_of-require matches ref_name identity project (token_patterns project b)

  kind-agrees :
      (subject : Text) (provider : Option Text) (kind : IdentityKind) (project : ProjectSlug)
      → NamesRef (identity_of subject provider kind) ref_name
      → (authorize_project db (identity_of subject provider kind) project >>= λ p.
          require_project_ref matches p project ref_name)
        ≡ (authorize_project_ref db matches (identity_of subject provider kind) project ref_name
            >>= λ _. ok tt)
  unfolding authorize_project authorize_project_ref authorize_oidc_project
      authorize_oidc_project_ref authorize_access_token_project authorize_access_token_project_ref
      require_project_ref
  kind-agrees subject provider bootstrap_admin_kind project named = refl
  kind-agrees subject provider (oidc_kind o) project named =
      let identity = identity_of subject provider (oidc_kind o) in
      oidc-agrees identity project (matching_oidc_bindings db identity o) o.ref_name (named o refl)
  kind-agrees subject provider (access_token_kind t) project named =
      token-agrees (identity_of subject provider (access_token_kind t)) project
        (active_access_token_records db t.token_id)

  -- Authorizing for a project and requiring the ref of the principal gives the verdict of authorizing
  -- for the ref at once, errors included, where an OIDC identity names that ref.
  pub authorize_project-require :
      (identity : AuthenticatedIdentity) (project : ProjectSlug)
      → NamesRef identity ref_name
      → (authorize_project db identity project >>= λ p.
          require_project_ref matches p project ref_name)
        ≡ (authorize_project_ref db matches identity project ref_name >>= λ _. ok tt)
  authorize_project-require identity project named =
      kind-agrees identity.subject identity.provider identity.kind project named
