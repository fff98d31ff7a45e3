-- ===== src/Db/Retained/Default.antt =====
-- What a project without a retention policy of its own keeps.
use nix_project_cache.Prelude.{
  ℕ, ◌*◌, ◌^◌, ◌≤◌, ◌<◌, ◌≡◌, refl, Bool, true, false, Option, none, some, map, ok, All, All-at,
  arith, ltb,
}
use nix_project_cache.Prelude.Int.{ℤ, pos, negsuc, ltb_ℤ}
use nix_project_cache.Prelude.Text.{Text, text}
use nix_project_cache.Ident.{ProjectSlug}
use nix_project_cache.Db.{Formats}
use nix_project_cache.Db.Projects.{parse_slug, project_id_by_slug}
use nix_project_cache.Db.Builds.{BuildRow}
use nix_project_cache.Db.Retention.{
  ProjectRetentionRuleRecord, RetentionTables, custom_policy, default_policy,
  default_retention_rules, get_project_retention_policy, policy_of, policy_of_id, retention_rule,
}
use nix_project_cache.Db.Retained.{
  ProjectRefRetentionRow, keep_of, matching_retention_rule, newest_builds, ref_is_active,
  retained_by_policy, retained_if_active, retained_of_ref,
}
use nix_project_cache.Db.Retained.Rules.{IsRuleOf, matching_retention_rule-IsRuleOf}
use mathlib.Core.List.{Memᴰ}

-- Two weeks, the shortest time that a default rule keeps a ref for.
abbrev pub two_weeks : ℕ
two_weeks = 14 * 24 * 60 * 60

-- A rule that keeps a ref for two weeks at least.
abbrev IsLong : Option ℕ → Type 0
IsLong none = Unit {0}
IsLong (some ttl) = (two_weeks ≤ ttl) × (ttl < 2 ^ 63)

IsLenient : ProjectSlug → ProjectRetentionRuleRecord → Type 0
IsLenient project r = (1 ≤ keep_of (default_policy project) r) × IsLong r.ttl_seconds

default_retention_rules-IsLenient :
    (project : ProjectSlug) → All (IsLenient project) default_retention_rules
unfolding IsLenient
default_retention_rules-IsLenient project = omega arith

last_rule :
    Memᴰ (retention_rule 90 (text "*") (some (30 * 24 * 60 * 60)) (some 1)) default_retention_rules
last_rule = Memᴰ.tail (
    Memᴰ.tail
      (Memᴰ.tail (Memᴰ.tail (Memᴰ.tail (Memᴰ.tail (Memᴰ.tail (Memᴰ.tail (Memᴰ.head refl))))))))

-- Every ref falls under a default rule.
default_rule :
    (matches : Text → Text → Bool)
    → ((s : Text) → matches (text "*") s ≡ true)
    → (project : ProjectSlug) (ref_name : Text)
    → (r : ProjectRetentionRuleRecord) × (matching_retention_rule matches default_retention_rules
          ref_name
        ≡ some r)
      × IsLenient project r
default_rule matches star project ref_name =
    go (matching_retention_rule matches default_retention_rules ref_name) refl
      (matching_retention_rule-IsRuleOf matches default_retention_rules ref_name)
  where
    go :
        (o : Option ProjectRetentionRuleRecord)
        → matching_retention_rule matches default_retention_rules ref_name ≡ o
        → IsRuleOf matches default_retention_rules ref_name o
        → (r : ProjectRetentionRuleRecord) × (matching_retention_rule matches
              default_retention_rules ref_name
            ≡ some r)
          × IsLenient project r
    go none e h = absurd (clash (h _ last_rule) (star ref_name))
      where
        clash : {b : Bool} → b ≡ false → b ≡ true → ⊥
        clash e f = cc
    go (some r) e h =
        (r, e, All-at (IsLenient project) (default_retention_rules-IsLenient project) h.0)

ltb_ℤ-mono : (a : ℤ) (m n : ℕ) → m ≤ n → ltb_ℤ a (pos m) ≡ true → ltb_ℤ a (pos n) ≡ true
ltb_ℤ-mono (pos k) m n le h = ground arith
ltb_ℤ-mono (negsuc k) m n le h = refl

module _ {U T : Type 0} (formats : Formats U T) (since : T → T → ℤ)
    (clock : ProjectRefRetentionRow → T) (matches : Text → Text → Bool) where
  recent-active :
      (r : ProjectRefRetentionRow) (time : T) (ttl : Option ℕ)
      → formats.parse_time r.updated_at ≡ some time
      → ltb_ℤ (since (clock r) time) (pos two_weeks) ≡ true
      → IsLong ttl
      → ref_is_active formats since (clock r) r.updated_at ttl ≡ ok true
  unfolding ref_is_active
  recent-active r time none parsed recent long = refl
  recent-active r time (some ttl) parsed recent long =
      let fits : ltb ttl (2 ^ 63) ≡ true = ground arith in
      rw (parsed, fits, ltb_ℤ-mono (since (clock r) time) two_weeks ttl long.0 recent) refl

  default-read :
      (tables : RetentionTables) (project : ProjectSlug) (project_id : Text)
      → project_id_by_slug tables.projects project ≡ ok project_id
      → policy_of tables.policies project_id ≡ none
      → get_project_retention_policy tables project ≡ ok (default_policy project)
  unfolding get_project_retention_policy policy_of_id custom_policy
  default-read tables project project_id known own =
      rw (known, own, custom_policy, policy_of_id) refl

  -- Where the pattern `*` matches every text: of a ref that was updated less than two weeks ago, a project
  -- without a policy of its own keeps the newest finalized builds, one at least if there is any.
  pub retained_of_ref-default :
      ((s : Text) → matches (text "*") s ≡ true)
      → (tables : RetentionTables) (r : ProjectRefRetentionRow) (project : ProjectSlug)
        (project_id : Text) (time : T)
      → parse_slug r.project_slug ≡ ok project
      → project_id_by_slug tables.projects project ≡ ok project_id
      → policy_of tables.policies project_id ≡ none
      → formats.parse_time r.updated_at ≡ some time
      → ltb_ℤ (since (clock r) time) (pos two_weeks) ≡ true
      → (n : ℕ) × (1 ≤ n)
        × (retained_of_ref formats since clock matches tables r
            ≡ ok (
                map (λ (b : BuildRow). b.id) (newest_builds tables.builds project_id r.ref_name n)))
  unfolding retained_of_ref retained_by_policy retained_if_active IsLenient
  retained_of_ref-default star tables r project project_id time parsed known own read recent =
      let (rule, matched, lenient) = default_rule matches star project r.ref_name in
      (
        keep_of (default_policy project) rule,
        lenient.0,
        rw
            (
              parsed,
              default-read tables project project_id known own,
              retained_by_policy,
              matched,
              recent-active r time rule.ttl_seconds read recent lenient.1,
              retained_if_active,
              known,
            )
            refl,
      )
