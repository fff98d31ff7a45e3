-- ===== src/Db/Lifecycle.antt =====
-- What happens to a revoked token as its tables go on to change.
use nix_project_cache.Prelude.{
  ◌≡◌, refl, sym, ap, subst, ◌∙◌, inl, inr, Bool, true, false, not, ◌&&◌, ◌||◌, Option, List, [],
  ◌∷◌, map, ok, bind-ok, guard, guard-ok, ok_inj, Bool-cases, Result-cases, is_some, any, All,
  and-split, collect, arith,
}
use nix_project_cache.Prelude.Text.{Text, text_eq, text_eq_iff}
use nix_project_cache.Prelude.Text.Search.{trim}
use nix_project_cache.Prelude.Rows.{select, any-row, row-any}
use nix_project_cache.Prelude.Sort.{sort_by}
use nix_project_cache.Ident.{ProjectSlug, StorageId}
use nix_project_cache.Db.{empty_token_name, constraint, Formats}
use nix_project_cache.Db.Projects.{insert_project, project_id_by_slug}
use nix_project_cache.Db.Tokens.{
  TokenRow, TokenTables, normalized_patterns, is_active, lookup, revoke_row, revoke_access_token,
  insert_token, insert_patterns, create_transaction, create_access_token,
  list_active_access_token_records_by_id, formatted_expiry,
}
use mathlib.Core.List.{flat_map}

module _ {U T : Type 0} (formats : Formats U T) (hash_access_token : Text → Text) where
  -- A change of the tables by one of the operations, whatever its answer is.
  pub data TokenStep : TokenTables → TokenTables → Type 0 where
    revoked :
        (now token_id : Text) {t : TokenTables} → TokenStep t (revoke_access_token now token_id t).1
    created :
        (token_id token created_at name : Text) (project : ProjectSlug) (ref_patterns : List Text)
        (expires_at : Option T) {t : TokenTables}
        → TokenStep t
            (create_access_token formats hash_access_token token_id token created_at name project
              ref_patterns expires_at t).1
    project_inserted :
        (id created_at : Text) (slug : ProjectSlug) (name : Text) (public : Bool)
        (storage : StorageId) {t : TokenTables}
        → TokenStep t (record t {
          projects = insert_project id created_at slug name public storage t.projects;
        })

  pub data TokenSteps : TokenTables → TokenTables → Type 0 where
    done : {t : TokenTables} → TokenSteps t t
    next : {t u v : TokenTables} → TokenStep t u → TokenSteps u v → TokenSteps t v

-- The row is not one of the token that could still be used.
abbrev IsDead : Text → TokenRow → Type 0
IsDead token_id t = text_eq t.id token_id ≡ true → is_some t.revoked_at ≡ true

-- The token has a row, and each row it has is revoked.
abbrev pub IsRevoked : Text → List TokenRow → Type 0
IsRevoked token_id tokens =
    (any (λ (t : TokenRow). text_eq t.id token_id) tokens ≡ true) × All (IsDead token_id) tokens

revoke_row-id : (now token_id : Text) (t : TokenRow) → (revoke_row now token_id t).id ≡ t.id
unfolding revoke_row
revoke_row-id now token_id t =
    elim (Bool-cases (text_eq t.id token_id && not (is_some t.revoked_at))) [
      | inl e ↦ rw e refl
      | inr e ↦ rw e refl
    ]

revoke_row-kept :
    (now token_id : Text) (t : TokenRow)
    → is_some t.revoked_at ≡ true
    → is_some (revoke_row now token_id t).revoked_at ≡ true
unfolding revoke_row
revoke_row-kept now token_id t h =
    elim (Bool-cases (text_eq t.id token_id && not (is_some t.revoked_at))) [
      | inl e ↦ rw e refl
      | inr e ↦ rw e h
    ]

revoke_row-IsDead :
    (now token_id : Text) (t : TokenRow) → IsDead token_id (revoke_row now token_id t)
unfolding revoke_row
revoke_row-IsDead now token_id t =
    elim (Bool-cases (text_eq t.id token_id && not (is_some t.revoked_at))) [
      | inl e ↦ rw e (λ _. refl)
      | inr e ↦ rw e (dead (text_eq t.id token_id) (is_some t.revoked_at) e)
    ]
  where
    dead : (a b : Bool) → (a && not b) ≡ false → a ≡ true → b ≡ true
    dead a b h k = ground arith

map-revoked :
    (now token_id : Text) (tokens : List TokenRow)
    → All (IsDead token_id) (map (revoke_row now token_id) tokens)
map-revoked now token_id [] = tt
map-revoked now token_id (t ∷ tokens) =
    (revoke_row-IsDead now token_id t, map-revoked now token_id tokens)

map-kept :
    (now other token_id : Text) (tokens : List TokenRow)
    → All (IsDead token_id) tokens
    → All (IsDead token_id) (map (revoke_row now other) tokens)
map-kept now other token_id [] h = tt
map-kept now other token_id (t ∷ tokens) h = (
  λ same.
      revoke_row-kept now other t
        (h.0 (subst (λ i. text_eq i token_id ≡ true) (revoke_row-id now other t) same)),
  map-kept now other token_id tokens h.1,
)

any-map-revoke :
    (now other token_id : Text) (tokens : List TokenRow)
    → any (λ (t : TokenRow). text_eq t.id token_id) (map (revoke_row now other) tokens)
      ≡ any (λ (t : TokenRow). text_eq t.id token_id) tokens
any-map-revoke now other token_id [] = refl
any-map-revoke now other token_id (t ∷ tokens) =
    rw (revoke_row-id now other t, any-map-revoke now other token_id tokens) refl

module _ {U T : Type 0} (formats : Formats U T) (hash_access_token : Text → Text) where
  insert-kept :
      (token_id : Text) (t : TokenRow) (tokens : List TokenRow) {after : List TokenRow}
      → insert_token t tokens ≡ ok after
      → IsRevoked token_id tokens
      → IsRevoked token_id after
  unfolding insert_token
  insert-kept token_id t tokens {after} h (there, dead) =
      let (u, fresh, h1) =
        bind-ok
          (guard
            (not (
              any (λ (u : TokenRow). text_eq u.id t.id || text_eq u.token_hash t.token_hash)
                tokens))
            constraint)
          _ h in
      subst (IsRevoked token_id) (ok_inj h1) (
        later (text_eq t.id token_id) there,
        (λ same. absurd (clash same (guard-ok _ constraint fresh)), dead),
      )
    where
      later : (b : Bool) {c : Bool} → c ≡ true → (b || c) ≡ true
      later b h = ground arith

      -- A row of the token's id is there, so the insert of another is refused.
      clash :
          text_eq t.id token_id ≡ true
          → not (
              any (λ (u : TokenRow). text_eq u.id t.id || text_eq u.token_hash t.token_hash) tokens)
            ≡ true
          → ⊥
      clash same fresh =
          let (u, m, owns) = any-row (λ (u : TokenRow). text_eq u.id token_id) tokens there in
          let equal : u.id ≡ t.id =
            (text_eq_iff u.id token_id).0 owns ∙ sym ((text_eq_iff t.id token_id).0 same) in
          let taken : any (λ (u : TokenRow). text_eq u.id t.id || text_eq u.token_hash t.token_hash)
                tokens
              ≡ true =
            row-any (λ (u : TokenRow). text_eq u.id t.id || text_eq u.token_hash t.token_hash) m
              (ap (λ b. b || text_eq u.token_hash t.token_hash)
                ((text_eq_iff u.id t.id).1 equal)) in
          cc

  create-kept :
      (token_id new_id token created_at name : Text) (project : ProjectSlug)
      (ref_patterns : List Text) (expires_at : Option T) (t : TokenTables) {after : TokenTables}
      → create_transaction formats hash_access_token new_id token created_at name project
          ref_patterns expires_at t
        ≡ ok after
      → IsRevoked token_id t.tokens
      → IsRevoked token_id after.tokens
  unfolding create_transaction
  create-kept token_id new_id token created_at name project ref_patterns expires_at t h r =
      let (u, named, h1) = bind-ok (guard (not (text_eq (trim name) [])) empty_token_name) _ h in
      let (project_id, known, h2) = bind-ok (project_id_by_slug t.projects project) _ h1 in
      let (expiry, printed, h3) =
        bind-ok (formatted_expiry formats hash_access_token expires_at) _ h2 in
      let (tokens, inserted, h4) = bind-ok (insert_token _ t.tokens) _ h3 in
      let (patterns, filled, h5) =
        bind-ok (insert_patterns new_id (normalized_patterns ref_patterns) t.ref_patterns) _ h4 in
      subst (λ (a : TokenTables). IsRevoked token_id a.tokens) (ok_inj h5)
        (insert-kept token_id _ t.tokens inserted r)

  step-IsRevoked :
      (token_id : Text) {t u : TokenTables}
      → TokenStep formats hash_access_token t u
      → IsRevoked token_id t.tokens
      → IsRevoked token_id u.tokens
  unfolding revoke_access_token create_access_token
  step-IsRevoked token_id (revoked now other {t}) (there, dead) = (
    any-map-revoke now other token_id t.tokens ∙ there,
    map-kept now other token_id t.tokens dead,
  )
  step-IsRevoked token_id (created new_id token created_at name project ref_patterns expires_at {t})
        r =
      elim (Result-cases (
        create_transaction formats hash_access_token new_id token created_at name project
          ref_patterns expires_at t)) [
            | inl (after, e) ↦
                rw (create_access_token, e)
                  (create-kept token_id new_id token created_at name project ref_patterns expires_at
                    t e r)
            | inr (refused, e) ↦ rw (create_access_token, e) r
          ]
  step-IsRevoked token_id (project_inserted id created_at slug name public storage) r = r

  -- A revoked token stays revoked, whatever the operations do.
  pub steps-IsRevoked :
      (token_id : Text) {t u : TokenTables}
      → TokenSteps formats hash_access_token t u
      → IsRevoked token_id t.tokens
      → IsRevoked token_id u.tokens
  steps-IsRevoked token_id done r = r
  steps-IsRevoked token_id (next s rest) r =
      steps-IsRevoked token_id rest (step-IsRevoked token_id s r)

  select-dead :
      (token_id now : Text) (tokens : List TokenRow)
      → All (IsDead token_id) tokens
      → select (λ (t : TokenRow). text_eq t.id token_id && is_active now t) tokens ≡ []
  select-dead token_id now [] h = refl
  select-dead token_id now (t ∷ tokens) h =
      rw (inactive (text_eq t.id token_id) (is_some t.revoked_at) _ h.0)
        (select-dead token_id now tokens h.1)
    where
      inactive : (a b : Bool) (c : Bool) → (a ≡ true → b ≡ true) → (a && (not b && c)) ≡ false
      inactive a b c h = ground arith

  -- No active record is found of a revoked token.
  pub list_active_access_token_records_by_id-IsRevoked :
      (token_id now : Text) (t : TokenTables)
      → IsRevoked token_id t.tokens
      → list_active_access_token_records_by_id formats hash_access_token t now token_id ≡ ok []
  unfolding list_active_access_token_records_by_id lookup sort_by flat_map collect
  list_active_access_token_records_by_id-IsRevoked token_id now t r =
      rw (select-dead token_id now t.tokens r.1) refl

  -- A token that a revocation changed is revoked.
  pub revoke_access_token-IsRevoked :
      (now token_id : Text) (t : TokenTables)
      → (revoke_access_token now token_id t).0 ≡ true
      → IsRevoked token_id (revoke_access_token now token_id t).1.tokens
  unfolding revoke_access_token
  revoke_access_token-IsRevoked now token_id t h =
      let (row, m, owns) =
        any-row (λ (t : TokenRow). text_eq t.id token_id && not (is_some t.revoked_at)) t.tokens
          h in
      (
        any-map-revoke now token_id token_id t.tokens
            ∙ row-any (λ (t : TokenRow). text_eq t.id token_id) m
                (and-split (text_eq row.id token_id) (not (is_some row.revoked_at)) owns).0,
        map-revoked now token_id t.tokens,
      )
