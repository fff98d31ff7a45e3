-- ===== src/Db/Retention.antt =====
-- Which builds a project keeps: crates/depot-db/src/retention.rs. The
-- numbers of the tables are never negative, since `replace_project_retention_policy` alone writes them. The
-- row ids that the code generates are left out.
pub mod Policy
use nix_project_cache.Prelude.{
  ℕ, zero, suc, ◌^◌, ◌*◌, Bool, true, false, not, ◌&&◌, Option, none, some, List, [], ◌∷◌, ◌++◌,
  map, Result, ok, err, ◌>>=◌, ◌>>◌, guard, ok_or, collect, if◌then◌else◌, ◌==◌, ltb, leb, any,
  is_some,
}
use nix_project_cache.Prelude.Text.{Text, text, text_eq}
use nix_project_cache.Prelude.Text.Order.{text_leb, sort}
use nix_project_cache.Prelude.Text.Search.{trim}
use nix_project_cache.Prelude.Rows.{select, dedup}
use nix_project_cache.Prelude.Sort.{sort_by}
use nix_project_cache.Ident.{ProjectSlug}
use nix_project_cache.Db.{
  constraint, no_rules, empty_ref_pattern, invalid_time, keep_latest_zero, priority_zero,
  number_out_of_range, DbError, Formats,
}
use nix_project_cache.Db.Builds.{ProjectRefRow, BuildRow}
use nix_project_cache.Db.Projects.{ProjectLookupRow, parse_slug, project_id_by_slug}
use mathlib.Core.List.{flat_map}

pub record ProjectRetentionRuleRecord : Type 0 where
  pub priority : ℕ
  pub ref_pattern : Text
  pub ttl_seconds : Option ℕ
  pub keep_builds : Option ℕ

pub record ProjectRetentionPolicyRecord : Type 0 where
  pub project_slug : ProjectSlug
  pub inherited_default : Bool
  pub keep_latest_builds_per_ref : ℕ
  pub object_delete_grace_seconds : ℕ
  pub rules : List ProjectRetentionRuleRecord

pub record PolicyRow : Type 0 where
  pub project_id : Text
  pub keep_latest_builds_per_ref : ℕ
  pub object_delete_grace_seconds : ℕ

pub record RuleRow : Type 0 where
  pub project_id : Text
  pub priority : ℕ
  pub ref_pattern : Text
  pub ttl_seconds : Option ℕ
  pub keep_builds : Option ℕ

pub record RetentionTables : Type 0 where
  pub projects : List ProjectLookupRow
  pub policies : List PolicyRow
  pub rules : List RuleRow
  pub refs : List ProjectRefRow
  pub builds : List BuildRow

abbrev pub default_keep_latest_builds_per_ref : ℕ
default_keep_latest_builds_per_ref = 2

abbrev pub default_object_delete_grace_seconds : ℕ
default_object_delete_grace_seconds = 24 * 60 * 60

abbrev pub retention_rule : ℕ → Text → Option ℕ → Option ℕ → ProjectRetentionRuleRecord
retention_rule priority ref_pattern ttl_seconds keep_builds = record {
  priority = priority;
  ref_pattern = ref_pattern;
  ttl_seconds = ttl_seconds;
  keep_builds = keep_builds;
}

abbrev pub default_retention_rules : List ProjectRetentionRuleRecord
default_retention_rules =
    retention_rule 10 (text "refs/heads/main") none (some 2)
    ∷ retention_rule 20 (text "refs/heads/master") none (some 2)
    ∷ retention_rule 30 (text "refs/heads/trunk") none (some 2)
    ∷ retention_rule 40 (text "refs/tags/*") none (some 1)
    ∷ retention_rule 50 (text "refs/heads/release/*") (some (180 * 24 * 60 * 60)) (some 2)
    ∷ retention_rule 60 (text "refs/pull/*") (some (14 * 24 * 60 * 60)) (some 1)
    ∷ retention_rule 70 (text "refs/merge-requests/*") (some (14 * 24 * 60 * 60)) (some 1)
    ∷ retention_rule 80 (text "refs/heads/*") (some (60 * 24 * 60 * 60)) (some 2)
    ∷ retention_rule 90 (text "*") (some (30 * 24 * 60 * 60)) (some 1)
    ∷ []

-- `i64::try_from` of a number that is not negative, and `u32::try_from`.
abbrev pub i64_try_from : ℕ → Result DbError ℕ
i64_try_from n = do guard (ltb n (2 ^ 63)) (number_out_of_range n); ok n

abbrev pub u32_try_from : ℕ → Result DbError ℕ
u32_try_from n = do guard (ltb n (2 ^ 32)) (number_out_of_range n); ok n

abbrev pub optional : (ℕ → Result DbError ℕ) → Option ℕ → Result DbError (Option ℕ)
optional convert none = ok none
optional convert (some n) = do m ← convert n; ok (some m)

unfoldable pub rule_record : RuleRow → Result DbError ProjectRetentionRuleRecord
rule_record r = do
  priority ← u32_try_from r.priority
  keep_builds ← optional u32_try_from r.keep_builds
  ok (retention_rule priority r.ref_pattern r.ttl_seconds keep_builds)

unfoldable pub row_of_id : List ProjectLookupRow → Text → Option ProjectLookupRow
row_of_id [] id = none
row_of_id (p ∷ projects) id =
    let later = row_of_id projects id in if text_eq p.id id then some p else later

unfoldable pub policy_of : List PolicyRow → Text → Option PolicyRow
policy_of [] project_id = none
policy_of (r ∷ rows) project_id =
    let later = policy_of rows project_id in
    if text_eq r.project_id project_id then some r else later

abbrev pub default_policy : ProjectSlug → ProjectRetentionPolicyRecord
default_policy project = record {
  project_slug = project;
  inherited_default = true;
  keep_latest_builds_per_ref = default_keep_latest_builds_per_ref;
  object_delete_grace_seconds = default_object_delete_grace_seconds;
  rules = default_retention_rules;
}

abbrev pub by_priority : RuleRow → RuleRow → Bool
by_priority r q = leb r.priority q.priority

unfoldable pub rules_of_project : List RuleRow → Text → List RuleRow
rules_of_project rules project_id =
    sort_by by_priority (select (λ (r : RuleRow). text_eq r.project_id project_id) rules)

-- `into_record` of the policy's row, joined with its project.
unfoldable pub policy_record :
    PolicyRow
    → ProjectLookupRow
    → List ProjectRetentionRuleRecord
    → Result DbError ProjectRetentionPolicyRecord
policy_record row p rules = do
  slug ← parse_slug p.slug
  keep ← u32_try_from row.keep_latest_builds_per_ref
  ok (record {
    project_slug = slug;
    inherited_default = false;
    keep_latest_builds_per_ref = keep;
    object_delete_grace_seconds = row.object_delete_grace_seconds;
    rules = rules;
  })

-- The row of a project's own policy joined with the project.
unfoldable pub custom_policy : RetentionTables → Text → Option (PolicyRow × ProjectLookupRow)
custom_policy tables project_id = elim (policy_of tables.policies project_id) [
  | none ↦ none
  | some row ↦ elim (row_of_id tables.projects project_id) [ none ↦ none | some p ↦ some (row, p) ]
]

-- The policy of a project's id: its own, or the default one.
unfoldable pub policy_of_id :
    RetentionTables → ProjectSlug → Text → Result DbError ProjectRetentionPolicyRecord
policy_of_id tables project project_id = elim (custom_policy tables project_id) [
  | none ↦ ok (default_policy project)
  | some (row, p) ↦ do
    rules ← collect rule_record (rules_of_project tables.rules project_id)
    policy_record row p rules
]

unfoldable pub get_project_retention_policy :
    RetentionTables → ProjectSlug → Result DbError ProjectRetentionPolicyRecord
get_project_retention_policy tables project = do
  project_id ← project_id_by_slug tables.projects project
  policy_of_id tables project project_id

unfoldable pub upsert_policy : PolicyRow → List PolicyRow → List PolicyRow
upsert_policy row [] = row ∷ []
upsert_policy row (r ∷ rows) =
    let rest = upsert_policy row rows in
    if text_eq r.project_id row.project_id then row ∷ rows else r ∷ rest

-- The loop over the rules; a priority that the project has already is refused by the schema.
unfoldable pub insert_rules :
    Text → List ProjectRetentionRuleRecord → List RuleRow → Result DbError (List RuleRow)
insert_rules project_id [] rows = ok rows
insert_rules project_id (rule ∷ rules) rows = do
  guard (not (rule.priority == 0)) priority_zero
  guard (not (text_eq (trim rule.ref_pattern) [])) empty_ref_pattern
  ttl_seconds ← optional i64_try_from rule.ttl_seconds
  guard
      (not (
        any (λ (r : RuleRow). text_eq r.project_id project_id && (r.priority == rule.priority))
          rows))
      constraint
  insert_rules project_id rules (
      rows
      ++ record {
        project_id = project_id;
        priority = rule.priority;
        ref_pattern = trim rule.ref_pattern;
        ttl_seconds = ttl_seconds;
        keep_builds = rule.keep_builds;
      }
        ∷ [])

abbrev pub has_rules : List ProjectRetentionRuleRecord → Bool
has_rules [] = false
has_rules (r ∷ rules) = true

-- An error leaves the tables as they were, since the transaction is not committed.
unfoldable pub replace_project_retention_policy :
    ProjectSlug
    → ℕ
    → ℕ
    → List ProjectRetentionRuleRecord
    → RetentionTables
    → Result DbError RetentionTables
replace_project_retention_policy project keep grace rules tables = do
  guard (not (keep == 0)) keep_latest_zero
  guard (has_rules rules) no_rules
  project_id ← project_id_by_slug tables.projects project
  grace_seconds ← i64_try_from grace
  rows ←
      insert_rules project_id rules
        (select (λ (r : RuleRow). not (text_eq r.project_id project_id)) tables.rules)
  ok (record tables {
    policies =
        upsert_policy
          (record {
            project_id = project_id;
            keep_latest_builds_per_ref = keep;
            object_delete_grace_seconds = grace_seconds;
          })
          tables.policies;
    rules = rows;
  })

-- The answer is whether a row was deleted; the rules stay, without effect while there is no policy.
unfoldable pub delete_project_retention_policy :
    ProjectSlug → RetentionTables → Result DbError (Bool × RetentionTables)
delete_project_retention_policy project tables = do
  project_id ← project_id_by_slug tables.projects project
  ok (
    any (λ (r : PolicyRow). text_eq r.project_id project_id) tables.policies,
    record tables {
      policies = select (λ (r : PolicyRow). not (text_eq r.project_id project_id)) tables.policies;
    },
  )
