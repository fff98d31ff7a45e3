-- ===== src/Db/Retention/Policy.antt =====
-- The policy that was stored is the policy that is read.
use nix_project_cache.Prelude.{
  ℕ, ◌≡◌, ◌<◌, ◌^◌, refl, sym, ap, ap₂, subst, ◌∙◌, inl, inr, Bool, true, false, not, ◌&&◌, Option,
  none, some, List, [], ◌∷◌, ◌++◌, map, append_assoc, append-nil, ok, ◌>>=◌, bind-ok, guard, ok_inj,
  ok_or, ok_or-ok, collect, collect-map, ◌==◌, ltb, leb, any, All, All-at, Bool-cases, some_inj,
  arith,
}
use nix_project_cache.Prelude.Text.{Text, text_eq, text_eq_refl, text_eq_iff}
use nix_project_cache.Prelude.Text.Search.{trim}
use nix_project_cache.Prelude.Rows.{select, select-append, select-select-not, select-map}
use nix_project_cache.Prelude.Sort.{sort_by, sort_by-row, sort_by-map}
use nix_project_cache.Ident.{ProjectSlug}
use nix_project_cache.Ident
use nix_project_cache.Db.{
  project_not_found, no_rules, keep_latest_zero, constraint, empty_ref_pattern, priority_zero,
  DbError,
}
use nix_project_cache.Db.Projects.{ProjectLookupRow, row_of_slug, project_id_by_slug}
use nix_project_cache.Db.Retention.{
  ProjectRetentionRuleRecord, ProjectRetentionPolicyRecord, PolicyRow, RuleRow, RetentionTables,
  retention_rule, i64_try_from, u32_try_from, optional, rule_record, row_of_id, policy_of,
  custom_policy, policy_of_id, by_priority, rules_of_project, policy_record,
  get_project_retention_policy, upsert_policy, insert_rules, has_rules,
  replace_project_retention_policy,
}
use mathlib.Core.List.Memᴰ

-- A rule as it is stored.
abbrev pub trimmed : ProjectRetentionRuleRecord → ProjectRetentionRuleRecord
trimmed r = record r { ref_pattern = trim r.ref_pattern }

abbrev rule_row : Text → ProjectRetentionRuleRecord → RuleRow
rule_row project_id r = record {
  project_id = project_id;
  priority = r.priority;
  ref_pattern = trim r.ref_pattern;
  ttl_seconds = r.ttl_seconds;
  keep_builds = r.keep_builds;
}

abbrev record_of : RuleRow → ProjectRetentionRuleRecord
record_of r = retention_rule r.priority r.ref_pattern r.ttl_seconds r.keep_builds

abbrev pub by_rule_priority : ProjectRetentionRuleRecord → ProjectRetentionRuleRecord → Bool
by_rule_priority r q = leb r.priority q.priority

-- The numbers of a rule are of the source's type `u32`.
abbrev pub IsU32 : Option ℕ → Type 0
IsU32 none = Unit
IsU32 (some n) = n < 2 ^ 32

abbrev pub IsTyped : ProjectRetentionRuleRecord → Type 0
IsTyped r = (r.priority < 2 ^ 32) × IsU32 r.keep_builds

converted : (b : Bool) (n : ℕ) (e : DbError) {m : ℕ} → (guard b e >>= λ _. ok n) ≡ ok m → n ≡ m
converted true n e h = ok_inj h
converted false n e h = cc

same_ttl : (o : Option ℕ) {p : Option ℕ} → optional i64_try_from o ≡ ok p → p ≡ o
same_ttl none h = sym (ok_inj h)
same_ttl (some n) {p} h =
    let (m, e, h1) = bind-ok (i64_try_from n) (λ m. ok (some m)) h in
    sym (ok_inj h1) ∙ ap some (sym (converted (ltb n (2 ^ 63)) n _ e))

insert_rules-append :
    (project_id : Text) (rules : List ProjectRetentionRuleRecord) (rows : List RuleRow)
    {after : List RuleRow}
    → insert_rules project_id rules rows ≡ ok after
    → after ≡ rows ++ map (rule_row project_id) rules
unfolding insert_rules
insert_rules-append project_id [] rows h = sym (ok_inj h) ∙ sym (append-nil rows)
insert_rules-append project_id (r ∷ rules) rows {after} h =
    let (u, positive, h1) = bind-ok (guard (not (r.priority == 0)) priority_zero) _ h in
    let (v, named, h2) =
      bind-ok (guard (not (text_eq (trim r.ref_pattern) [])) empty_ref_pattern) _ h1 in
    let (ttl, fits, h3) = bind-ok (optional i64_try_from r.ttl_seconds) _ h2 in
    let (w, fresh, h4) =
      bind-ok
        (guard
          (not (
            any (λ (q : RuleRow). text_eq q.project_id project_id && (q.priority == r.priority))
              rows))
          constraint)
        _ h3 in
    let row = λ (t : Option ℕ). record (rule_row project_id r) { ttl_seconds = t } in
    insert_rules-append project_id rules (rows ++ row ttl ∷ []) h4
    ∙ ap (λ t. (rows ++ row t ∷ []) ++ map (rule_row project_id) rules)
        (same_ttl r.ttl_seconds fits)
    ∙ append_assoc rows (rule_row project_id r ∷ []) (map (rule_row project_id) rules)

u32-ok : (n : ℕ) → n < 2 ^ 32 → u32_try_from n ≡ ok n
u32-ok n h = let e : ltb n (2 ^ 32) ≡ true = ground arith in rw e refl

optional-ok : (o : Option ℕ) → IsU32 o → optional u32_try_from o ≡ ok o
optional-ok none h = refl
optional-ok (some n) h = rw (u32-ok n h) refl

rule_record-ok :
    (project_id : Text) (r : ProjectRetentionRuleRecord)
    → IsTyped r
    → rule_record (rule_row project_id r) ≡ ok (record_of (rule_row project_id r))
unfolding rule_record
rule_record-ok project_id r h = rw (u32-ok r.priority h.0, optional-ok r.keep_builds h.1) refl

upsert-policy_of :
    (row : PolicyRow) (rows : List PolicyRow)
    → policy_of (upsert_policy row rows) row.project_id ≡ some row
unfolding upsert_policy policy_of
upsert-policy_of row [] = rw (text_eq_refl row.project_id) refl
upsert-policy_of row (r ∷ rows) = elim (Bool-cases (text_eq r.project_id row.project_id)) [
  | inl e ↦ rw e (rw (text_eq_refl row.project_id) refl)
  | inr e ↦ rw e (rw e (upsert-policy_of row rows))
]

row_of_slug-slug :
    (projects : List ProjectLookupRow) (slug : Text) {r : ProjectLookupRow}
    → row_of_slug projects slug ≡ some r
    → r.slug ≡ slug
unfolding row_of_slug
row_of_slug-slug [] slug h = cc
row_of_slug-slug (p ∷ projects) slug {r} h = elim (Bool-cases (text_eq p.slug slug)) [
  | inl e ↦
      ap (λ (r : ProjectLookupRow). r.slug) (sym (some_inj (rw e at h)))
      ∙ (text_eq_iff p.slug slug).0 e
  | inr e ↦ row_of_slug-slug projects slug (rw e at h)
]

-- The rules of the project, when they are the last ones and the others are other projects'.
own_rules :
    (project_id : Text) (old : List RuleRow) (rules : List ProjectRetentionRuleRecord)
    → rules_of_project
        (select (λ (r : RuleRow). not (text_eq r.project_id project_id)) old
          ++ map (rule_row project_id) rules)
        project_id
      ≡ map (rule_row project_id) (sort_by by_rule_priority rules)
unfolding rules_of_project
own_rules project_id old rules =
    let own = λ (r : RuleRow). text_eq r.project_id project_id in
    let others = select (λ (r : RuleRow). not (text_eq r.project_id project_id)) old in
    ap (sort_by by_priority) (
      select-append own others (map (rule_row project_id) rules)
      ∙ ap (λ l. l ++ select own (map (rule_row project_id) rules)) (select-select-not own old)
      ∙ select-map own (rule_row project_id) rules (λ r. text_eq_refl project_id))
    ∙ sort_by-map by_rule_priority by_priority (rule_row project_id) (λ r q. refl) rules

map-map :
    (project_id : Text) (rules : List ProjectRetentionRuleRecord)
    → map record_of (map (rule_row project_id) rules) ≡ map trimmed rules
map-map project_id [] = refl
map-map project_id (r ∷ rules) = ap (λ l. trimmed r ∷ l) (map-map project_id rules)

read_rules :
    (project_id : Text) (rules : List ProjectRetentionRuleRecord)
    → All IsTyped rules
    → collect rule_record (map (rule_row project_id) (sort_by by_rule_priority rules))
      ≡ ok (map trimmed (sort_by by_rule_priority rules))
read_rules project_id rules h =
    collect-map rule_record record_of (map (rule_row project_id) (sort_by by_rule_priority rules))
      (λ x m.
        let (r, m', same) = Memᴰ.of_map (rule_row project_id) (sort_by by_rule_priority rules) m in
        subst (λ x. rule_record x ≡ ok (record_of x)) same
          (rule_record-ok project_id r (All-at IsTyped h (sort_by-row by_rule_priority rules m'))))
    ∙ ap ok (map-map project_id (sort_by by_rule_priority rules))

project_id-row :
    (projects : List ProjectLookupRow) (project : ProjectSlug) {project_id : Text}
    → project_id_by_slug projects project ≡ ok project_id
    → (p : ProjectLookupRow) × (row_of_slug projects project.slug ≡ some p) × (p.id ≡ project_id)
unfolding project_id_by_slug
project_id-row projects project h =
    let (p, found, same) =
      bind-ok (ok_or (row_of_slug projects project.slug) (project_not_found project.slug))
        (λ (p : ProjectLookupRow). ok p.id) h in
    (p, ok_or-ok (row_of_slug projects project.slug) _ found, ok_inj same)

-- A policy as it is read back.
abbrev pub stored_policy :
    ProjectSlug → ℕ → ℕ → List ProjectRetentionRuleRecord → ProjectRetentionPolicyRecord
stored_policy project keep grace rules = record {
  project_slug = project;
  inherited_default = false;
  keep_latest_builds_per_ref = keep;
  object_delete_grace_seconds = grace;
  rules = map trimmed (sort_by by_rule_priority rules);
}

-- A project's id is the id of no other project.
abbrev pub HasOwnId : List ProjectLookupRow → ProjectSlug → Type 0
HasOwnId projects project =
    (p : ProjectLookupRow)
    → row_of_slug projects project.slug ≡ some p
    → row_of_id projects p.id ≡ some p

custom_policy-some :
    (tables : RetentionTables) (project_id : Text) (row : PolicyRow) (p : ProjectLookupRow)
    → policy_of tables.policies project_id ≡ some row
    → row_of_id tables.projects project_id ≡ some p
    → custom_policy tables project_id ≡ some (row, p)
unfolding custom_policy
custom_policy-some tables project_id row p policy own = rw (custom_policy, policy, own) refl

custom_policy-read :
    (tables : RetentionTables) (project : ProjectSlug) (project_id : Text) (row : PolicyRow)
    (p : ProjectLookupRow) (rules : List ProjectRetentionRuleRecord)
    → policy_of tables.policies project_id ≡ some row
    → row_of_id tables.projects project_id ≡ some p
    → collect rule_record (rules_of_project tables.rules project_id) ≡ ok rules
    → policy_of_id tables project project_id ≡ policy_record row p rules
unfolding policy_of_id
custom_policy-read tables project project_id row p rules policy own read =
    rw (policy_of_id, custom_policy-some tables project_id row p policy own, read) refl

abbrev policy_row : Text → ℕ → ℕ → PolicyRow
policy_row project_id keep grace = record {
  project_id = project_id;
  keep_latest_builds_per_ref = keep;
  object_delete_grace_seconds = grace;
}

record-ok :
    (project_id : Text) (p : ProjectLookupRow) (keep grace : ℕ)
    (rules : List ProjectRetentionRuleRecord) (project : ProjectSlug)
    → p.slug ≡ project.slug
    → Ident.parse project.slug ≡ ok project
    → keep < 2 ^ 32
    → policy_record (policy_row project_id keep grace) p rules
      ≡ ok (record {
        project_slug = project;
        inherited_default = false;
        keep_latest_builds_per_ref = keep;
        object_delete_grace_seconds = grace;
        rules = rules;
      })
unfolding policy_record
record-ok project_id p keep grace rules project slug valid small =
    let parsed : Ident.parse p.slug ≡ ok project = ap Ident.parse slug ∙ valid in
    rw (parsed, u32-ok keep small) refl

-- The tables that `replace_project_retention_policy` leaves.
abbrev stored_tables :
    RetentionTables → Text → ℕ → ℕ → List ProjectRetentionRuleRecord → RetentionTables
stored_tables tables project_id keep grace rules = record tables {
  policies = upsert_policy (policy_row project_id keep grace) tables.policies;
  rules =
      select (λ (r : RuleRow). not (text_eq r.project_id project_id)) tables.rules
      ++ map (rule_row project_id) rules;
}

stored-get :
    (tables : RetentionTables) (project : ProjectSlug) (project_id : Text) (p : ProjectLookupRow)
    (keep grace : ℕ) (rules : List ProjectRetentionRuleRecord)
    → project_id_by_slug tables.projects project ≡ ok project_id
    → row_of_id tables.projects project_id ≡ some p
    → p.slug ≡ project.slug
    → Ident.parse project.slug ≡ ok project
    → keep < 2 ^ 32
    → All IsTyped rules
    → get_project_retention_policy (stored_tables tables project_id keep grace rules) project
      ≡ ok (stored_policy project keep grace rules)
unfolding get_project_retention_policy
stored-get tables project project_id p keep grace rules known own slug valid small typed =
    rw known (
      custom_policy-read (stored_tables tables project_id keep grace rules) project project_id
        (policy_row project_id keep grace) p (map trimmed (sort_by by_rule_priority rules))
        (upsert-policy_of (policy_row project_id keep grace) tables.policies) own
        (ap (collect rule_record) (own_rules project_id tables.rules rules)
          ∙ read_rules project_id rules typed)
      ∙ record-ok project_id p keep grace (map trimmed (sort_by by_rule_priority rules)) project
          slug valid small)

replace-stored :
    (project : ProjectSlug) (keep grace : ℕ) (rules : List ProjectRetentionRuleRecord)
    (tables : RetentionTables) {after : RetentionTables}
    → replace_project_retention_policy project keep grace rules tables ≡ ok after
    → (project_id : Text) × (project_id_by_slug tables.projects project ≡ ok project_id)
      × (stored_tables tables project_id keep grace rules ≡ after)
unfolding replace_project_retention_policy
replace-stored project keep grace rules tables h =
    let (u, positive, h1) = bind-ok (guard (not (keep == 0)) keep_latest_zero) _ h in
    let (v, some_rule, h2) = bind-ok (guard (has_rules rules) no_rules) _ h1 in
    let (project_id, known, h3) = bind-ok (project_id_by_slug tables.projects project) _ h2 in
    let (grace_seconds, fits, h4) = bind-ok (i64_try_from grace) _ h3 in
    let (rows, inserted, h5) =
      bind-ok
        (insert_rules project_id rules
          (select (λ (r : RuleRow). not (text_eq r.project_id project_id)) tables.rules))
        _ h4 in
    let tables_of : ℕ → List RuleRow → RetentionTables = λ g l. record tables {
      policies = upsert_policy (policy_row project_id keep g) tables.policies;
      rules = l;
    } in
    (
      project_id,
      known,
      ap₂ tables_of (converted (ltb grace (2 ^ 63)) grace _ fits)
            (sym (insert_rules-append project_id rules _ inserted))
          ∙ ok_inj h5,
    )

-- After `replace_project_retention_policy` has stored a policy, `get_project_retention_policy` gives that
-- policy, its patterns trimmed and its rules in the order of their priority, where the slug is one that
-- parses, the project's id is no other project's, and the numbers are of the type `u32`.
pub replace-get_project_retention_policy :
    (project : ProjectSlug) (keep grace : ℕ) (rules : List ProjectRetentionRuleRecord)
    (tables : RetentionTables) {after : RetentionTables}
    → Ident.parse project.slug ≡ ok project
    → HasOwnId tables.projects project
    → keep < 2 ^ 32
    → All IsTyped rules
    → replace_project_retention_policy project keep grace rules tables ≡ ok after
    → get_project_retention_policy after project ≡ ok (stored_policy project keep grace rules)
replace-get_project_retention_policy project keep grace rules tables valid own small typed h =
    let (project_id, known, same) = replace-stored project keep grace rules tables h in
    let (p, row, id) = project_id-row tables.projects project known in
    subst
      (λ a. get_project_retention_policy a project ≡ ok (stored_policy project keep grace rules))
      same
      (stored-get tables project project_id p keep grace rules known
        (subst (λ i. row_of_id tables.projects i ≡ some p) id (own p row))
        (row_of_slug-slug tables.projects project.slug row) valid small typed)
