-- ===== src/Db/Tokens.antt =====
-- Access tokens: crates/depot-db/src/access_tokens.rs. A stored time is a text, and SQLite compares texts by
-- their code points. `hash_access_token` is the hex text of the SHA-256 digest.
use nix_project_cache.Prelude.{
  Bool, true, not, ◌&&◌, ◌||◌, Option, none, some, List, [], ◌∷◌, map, Result, ok, err, ◌>>=◌, ◌>>◌,
  guard, ok_or, collect, if◌then◌else◌, any, is_some,
}
use nix_project_cache.Prelude.Text.{Text, text_eq}
use nix_project_cache.Prelude.Text.Order.{text_leb, sort}
use nix_project_cache.Prelude.Text.Search.{trim}
use nix_project_cache.Prelude.Rows.{select, dedup}
use nix_project_cache.Prelude.Sort.{sort_by}
use nix_project_cache.Ident.{ProjectSlug}
use nix_project_cache.Db.{
  empty_token_name, unformatted_time, invalid_time, constraint, DbError, Formats,
}
use nix_project_cache.Db.Projects.{ProjectLookupRow, parse_slug, project_id_by_slug}
use mathlib.Core.List.{flat_map}

pub record TokenRow : Type 0 where
  pub id : Text
  pub token_hash : Text
  pub name : Text
  pub project_id : Text
  pub created_at : Text
  pub expires_at : Option Text
  pub revoked_at : Option Text

pub record RefPatternRow : Type 0 where
  pub token_id : Text
  pub ref_pattern : Text

-- The tables `projects`, `access_tokens` and `access_token_ref_patterns`.
pub record TokenTables : Type 0 where
  pub projects : List ProjectLookupRow
  pub tokens : List TokenRow
  pub ref_patterns : List RefPatternRow

pub record AccessTokenLookupRow : Type 0 where
  pub id : Text
  pub name : Text
  pub project_slug : Text
  pub ref_pattern : Text
  pub created_at : Text
  pub expires_at : Option Text
  pub revoked_at : Option Text

pub record AccessTokenRecord (T : Type 0) : Type 0 where
  pub id : Text
  pub name : Text
  pub project_slug : ProjectSlug
  pub ref_pattern : Option Text
  pub created_at : T
  pub expires_at : Option T
  pub revoked_at : Option T

pub record CreatedAccessToken (T : Type 0) : Type 0 where
  pub token : Text
  pub records : List (AccessTokenRecord T)

-- The pattern column holds the empty text where there is no pattern.
abbrev pub stored_pattern : Text → Option Text
stored_pattern p = if text_eq p [] then none else some p

-- Trimmed, without empty ones and repetitions; the empty text alone stands for no pattern.
unfoldable pub normalized_patterns : List Text → List Text
normalized_patterns ref_patterns =
    elim (dedup (sort (select (λ p. not (text_eq p [])) (map trim ref_patterns)))) [
      | [] ↦ [] ∷ []
      | p ∷ ps ↦ p ∷ ps
    ]

-- `t.expires_at IS NULL OR t.expires_at > ?`.
abbrev pub is_unexpired : Text → Option Text → Bool
is_unexpired now none = true
is_unexpired now (some expires_at) = not (text_leb expires_at now)

abbrev pub is_active : Text → TokenRow → Bool
is_active now t = not (is_some t.revoked_at) && is_unexpired now t.expires_at

abbrev lookup_row : ProjectLookupRow → TokenRow → RefPatternRow → AccessTokenLookupRow
lookup_row p t r = record {
  id = t.id;
  name = t.name;
  project_slug = p.slug;
  ref_pattern = r.ref_pattern;
  created_at = t.created_at;
  expires_at = t.expires_at;
  revoked_at = t.revoked_at;
}

-- The rows of a token joined with its project and its patterns.
abbrev joined : List ProjectLookupRow → List RefPatternRow → TokenRow → List AccessTokenLookupRow
joined projects patterns t =
    flat_map
      (λ (p : ProjectLookupRow).
        map (lookup_row p t) (select (λ (r : RefPatternRow). text_eq r.token_id t.id) patterns))
      (select (λ (p : ProjectLookupRow). text_eq p.id t.project_id) projects)

abbrev by_pattern : AccessTokenLookupRow → AccessTokenLookupRow → Bool
by_pattern a b = text_leb a.ref_pattern b.ref_pattern

-- The order of `list_access_tokens`: slug, name, pattern.
abbrev by_slug_and_name : AccessTokenLookupRow → AccessTokenLookupRow → Bool
by_slug_and_name a b =
    if text_eq a.project_slug b.project_slug
    then if text_eq a.name b.name then by_pattern a b else text_leb a.name b.name
    else text_leb a.project_slug b.project_slug

unfoldable pub lookup : TokenTables → (TokenRow → Bool) → List AccessTokenLookupRow
lookup tables wanted =
    sort_by by_pattern
      (flat_map (joined tables.projects tables.ref_patterns) (select wanted tables.tokens))

-- `UPDATE access_tokens SET revoked_at = ? WHERE id = ? AND revoked_at IS NULL`.
unfoldable pub revoke_row : Text → Text → TokenRow → TokenRow
revoke_row now token_id t =
    if text_eq t.id token_id && not (is_some t.revoked_at)
    then record t { revoked_at = some now }
    else t

-- The answer is whether a row was changed.
unfoldable pub revoke_access_token : Text → Text → TokenTables → Bool × TokenTables
revoke_access_token now token_id tables = (
  any (λ (t : TokenRow). text_eq t.id token_id && not (is_some t.revoked_at)) tables.tokens,
  record tables { tokens = map (revoke_row now token_id) tables.tokens },
)

-- The inserts of the transaction: an id, a hash or a pattern that is there already is refused.
unfoldable pub insert_token : TokenRow → List TokenRow → Result DbError (List TokenRow)
insert_token t tokens = do
  guard
      (not (any (λ (u : TokenRow). text_eq u.id t.id || text_eq u.token_hash t.token_hash) tokens))
      constraint
  ok (t ∷ tokens)

unfoldable pub insert_patterns :
    Text → List Text → List RefPatternRow → Result DbError (List RefPatternRow)
insert_patterns token_id [] rows = ok rows
insert_patterns token_id (p ∷ ps) rows = do
  guard
      (not
        (any (λ (r : RefPatternRow). text_eq r.token_id token_id && text_eq r.ref_pattern p) rows))
      constraint
  insert_patterns token_id ps (record { token_id = token_id; ref_pattern = p } ∷ rows)

module _ {U T : Type 0} (formats : Formats U T) (hash_access_token : Text → Text) where
  abbrev parse_stored : Text → Result DbError T
  parse_stored t = ok_or (formats.parse_time t) (invalid_time t)

  abbrev parse_optional : Option Text → Result DbError (Option T)
  parse_optional none = ok none
  parse_optional (some t) = do time ← parse_stored t; ok (some time)

  unfoldable pub token_record : AccessTokenLookupRow → Result DbError (AccessTokenRecord T)
  token_record r = do
    slug ← parse_slug r.project_slug
    created_at ← parse_stored r.created_at
    expires_at ← parse_optional r.expires_at
    revoked_at ← parse_optional r.revoked_at
    ok (record {
      id = r.id;
      name = r.name;
      project_slug = slug;
      ref_pattern = stored_pattern r.ref_pattern;
      created_at = created_at;
      expires_at = expires_at;
      revoked_at = revoked_at;
    })

  unfoldable pub list_active_access_token_records_by_token :
      TokenTables → Text → Text → Result DbError (List (AccessTokenRecord T))
  list_active_access_token_records_by_token tables now token = collect token_record (
      lookup tables
        (λ (t : TokenRow). text_eq t.token_hash (hash_access_token token) && is_active now t))

  unfoldable pub list_access_token_records_by_id :
      TokenTables → Text → Result DbError (List (AccessTokenRecord T))
  list_access_token_records_by_id tables token_id =
      collect token_record (lookup tables (λ (t : TokenRow). text_eq t.id token_id))

  unfoldable pub list_active_access_token_records_by_id :
      TokenTables → Text → Text → Result DbError (List (AccessTokenRecord T))
  list_active_access_token_records_by_id tables now token_id =
      collect token_record
        (lookup tables (λ (t : TokenRow). text_eq t.id token_id && is_active now t))

  unfoldable pub list_access_tokens :
      TokenTables → Option ProjectSlug → Result DbError (List (AccessTokenRecord T))
  list_access_tokens tables project = collect token_record (
      sort_by by_slug_and_name (
        select
          (λ (r : AccessTokenLookupRow). elim project [
            | none ↦ true
            | some p ↦ text_eq r.project_slug p.slug
          ])
          (flat_map (joined tables.projects tables.ref_patterns) tables.tokens)))

  abbrev pub formatted_expiry : Option T → Result DbError (Option Text)
  formatted_expiry none = ok none
  formatted_expiry (some time) = do
    expiry ← ok_or (formats.format_time time) unformatted_time
    ok (some expiry)

  -- What `create_access_token` commits; `token_id`, `token` and `created_at` are what it generates.
  unfoldable pub create_transaction :
      Text
      → Text
      → Text
      → Text
      → ProjectSlug
      → List Text
      → Option T
      → TokenTables
      → Result DbError TokenTables
  create_transaction token_id token created_at name project ref_patterns expires_at tables = do
    guard (not (text_eq (trim name) [])) empty_token_name
    project_id ← project_id_by_slug tables.projects project
    expiry ← formatted_expiry expires_at
    tokens ←
        insert_token
          (record {
            id = token_id;
            token_hash = hash_access_token token;
            name = trim name;
            project_id = project_id;
            created_at = created_at;
            expires_at = expiry;
            revoked_at = none;
          })
          tables.tokens
    patterns ← insert_patterns token_id (normalized_patterns ref_patterns) tables.ref_patterns
    ok (record tables { tokens = tokens; ref_patterns = patterns })

  unfoldable pub create_access_token :
      Text
      → Text
      → Text
      → Text
      → ProjectSlug
      → List Text
      → Option T
      → TokenTables
      → Result DbError (CreatedAccessToken T) × TokenTables
  create_access_token token_id token created_at name project ref_patterns expires_at tables =
      elim (create_transaction token_id token created_at name project ref_patterns expires_at
        tables) [
          | err e ↦ (err e, tables)
          | ok committed ↦ (
            (do
              records ← list_access_token_records_by_id committed token_id
              ok (record { token = token; records = records })),
            committed,
          )
        ]
