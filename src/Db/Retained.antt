-- ===== src/Db/Retained.antt =====
-- The builds that the garbage collector keeps: `list_retained_build_ids_for_gc` of
-- crates/depot-db/src/retention.rs. `matches` is the wildcard matcher of the `wildmatch` package, the pattern
-- first; `since now t` are the whole seconds of `now - t`, of the `time` package; `clock r` is what the clock shows
-- when the loop over the refs comes to `r`.
pub mod Rules
pub mod Newest
pub mod Listed
pub mod Default
use nix_project_cache.Prelude.{
  ℕ, zero, suc, Bool, true, false, ◌&&◌, Option, none, some, List, [], ◌∷◌, ◌++◌, map, Result, ok,
  ◌>>=◌, ok_or, if◌then◌else◌, leb, is_some,
}
use nix_project_cache.Prelude.Int.{ℤ, pos, ltb_ℤ}
use nix_project_cache.Prelude.Text.{Text, text, text_eq}
use nix_project_cache.Prelude.Text.Order.{text_leb, sort}
use nix_project_cache.Prelude.Rows.{select, dedup}
use nix_project_cache.Prelude.Sort.{sort_by}
use nix_project_cache.Ident.{ProjectSlug}
use nix_project_cache.Db.{DbError, Formats, invalid_time}
use nix_project_cache.Db.Projects.{ProjectLookupRow, parse_slug, project_id_by_slug}
use nix_project_cache.Db.Builds.{ProjectRefRow, BuildRow}
use nix_project_cache.Db.Retention.{
  ProjectRetentionRuleRecord, ProjectRetentionPolicyRecord, RetentionTables, i64_try_from,
  get_project_retention_policy,
}
use mathlib.Core.List.{flat_map}

-- `min_by_key` of the priority: the first of the least.
unfoldable pub least_priority : List ProjectRetentionRuleRecord → Option ProjectRetentionRuleRecord
least_priority [] = none
least_priority (r ∷ rules) = elim (least_priority rules) [
  | none ↦ some r
  | some q ↦ if leb r.priority q.priority then some r else some q
]

unfoldable pub matching_retention_rule :
    (Text → Text → Bool)
    → List ProjectRetentionRuleRecord
    → Text
    → Option ProjectRetentionRuleRecord
matching_retention_rule matches rules ref_name =
    least_priority
      (select (λ (r : ProjectRetentionRuleRecord). matches r.ref_pattern ref_name) rules)

-- `LIMIT`.
unfoldable pub take : {A : Type 0} → ℕ → List A → List A
take zero l = []
take (suc n) [] = []
take (suc n) (x ∷ l) = x ∷ take n l

-- `finalized_at DESC, created_at DESC`, of rows that have a `finalized_at`.
abbrev pub optional_leb : Option Text → Option Text → Bool
optional_leb none o = true
optional_leb (some s) none = false
optional_leb (some s) (some t) = text_leb s t

abbrev pub is_newer : BuildRow → BuildRow → Bool
is_newer a b =
    if optional_leb b.finalized_at a.finalized_at
    then if optional_leb a.finalized_at b.finalized_at
      then text_leb b.created_at a.created_at
      else true
    else false

abbrev pub is_finalized_for : Text → Text → BuildRow → Bool
is_finalized_for project_id ref_name b =
    text_eq b.project_id project_id
    && (text_eq b.ref_name ref_name
        && (text_eq b.status (text "finalized") && is_some b.finalized_at))

unfoldable pub newest_builds : List BuildRow → Text → Text → ℕ → List BuildRow
newest_builds builds project_id ref_name limit =
    take limit (sort_by is_newer (select (is_finalized_for project_id ref_name) builds))

-- A row of `project_refs` joined with its project's slug.
pub record ProjectRefRetentionRow : Type 0 where
  pub project_slug : Text
  pub ref_name : Text
  pub updated_at : Text

abbrev pub ref_joined : List ProjectLookupRow → ProjectRefRow → List ProjectRefRetentionRow
ref_joined projects r =
    map
      (λ (p : ProjectLookupRow). record {
        project_slug = p.slug;
        ref_name = r.ref_name;
        updated_at = r.updated_at;
      })
      (select (λ (p : ProjectLookupRow). text_eq p.id r.project_id) projects)

abbrev pub by_slug_and_ref : ProjectRefRetentionRow → ProjectRefRetentionRow → Bool
by_slug_and_ref a b =
    if text_eq a.project_slug b.project_slug
    then text_leb a.ref_name b.ref_name
    else text_leb a.project_slug b.project_slug

abbrev pub keep_of : ProjectRetentionPolicyRecord → ProjectRetentionRuleRecord → ℕ
keep_of policy rule = elim rule.keep_builds [
  | none ↦ policy.keep_latest_builds_per_ref
  | some n ↦ n
]

module _ {U T : Type 0} (formats : Formats U T) (since : T → T → ℤ) where
  -- `now` is what `now_utc` gives.
  unfoldable pub ref_is_active : T → Text → Option ℕ → Result DbError Bool
  ref_is_active now updated_at none = ok true
  ref_is_active now updated_at (some ttl_seconds) = do
    time ← ok_or (formats.parse_time updated_at) (invalid_time updated_at)
    ttl ← i64_try_from ttl_seconds
    ok (ltb_ℤ (since now time) (pos ttl))

module _ {U T : Type 0} (formats : Formats U T) (since : T → T → ℤ)
    (clock : ProjectRefRetentionRow → T) (matches : Text → Text → Bool) where
  -- The builds that a ref keeps by the rule that matches it, once it is found active or not.
  unfoldable pub retained_if_active :
      RetentionTables → ProjectSlug → Text → ℕ → Bool → Result DbError (List Text)
  retained_if_active tables project ref_name keep false = ok []
  retained_if_active tables project ref_name keep true = do
    project_id ← project_id_by_slug tables.projects project
    ok (map (λ (b : BuildRow). b.id) (newest_builds tables.builds project_id ref_name keep))

  -- The part of the loop's body that has the policy.
  unfoldable pub retained_by_policy :
      RetentionTables
      → ProjectSlug
      → ProjectRefRetentionRow
      → ProjectRetentionPolicyRecord
      → Result DbError (List Text)
  retained_by_policy tables project r policy =
      elim (matching_retention_rule matches policy.rules r.ref_name) [
        | none ↦ ok []
        | some rule ↦
            ref_is_active formats since (clock r) r.updated_at rule.ttl_seconds
            >>= retained_if_active tables project r.ref_name (keep_of policy rule)
      ]

  -- The body of the loop over the refs.
  unfoldable pub retained_of_ref :
      RetentionTables → ProjectRefRetentionRow → Result DbError (List Text)
  retained_of_ref tables r = do
    project ← parse_slug r.project_slug
    policy ← get_project_retention_policy tables project
    retained_by_policy tables project r policy

  unfoldable pub retained_of_refs :
      RetentionTables → List ProjectRefRetentionRow → Result DbError (List Text)
  retained_of_refs tables [] = ok []
  retained_of_refs tables (r ∷ refs) = do
    builds ← retained_of_ref tables r
    rest ← retained_of_refs tables refs
    ok (builds ++ rest)

  unfoldable pub list_retained_build_ids_for_gc : RetentionTables → Result DbError (List Text)
  list_retained_build_ids_for_gc tables = do
    retained ←
        retained_of_refs tables
          (sort_by by_slug_and_ref (flat_map (ref_joined tables.projects) tables.refs))
    ok (dedup (sort retained))
