-- ===== src/Db/Retained/Rules.antt =====
-- Which rule of a policy a ref falls under.
use nix_project_cache.Prelude.{
  ℕ, ◌≡◌, ◌≤◌, refl, sym, subst, inl, inr, Bool, true, false, Option, none, some, List, [], ◌∷◌,
  All, All-at, Bool-cases, leb, arith, if◌then◌else◌,
}
use nix_project_cache.Prelude.Text.{Text}
use nix_project_cache.Prelude.Rows.{select, select-row, row-select}
use nix_project_cache.Db.Retention.{ProjectRetentionRuleRecord}
use nix_project_cache.Db.Retained.{least_priority, matching_retention_rule}
use mathlib.Core.List.{Memᴰ}
use mathlib.Core.List.Memᴰ

-- What `least_priority` finds.
abbrev IsLeast : List ProjectRetentionRuleRecord → Option ProjectRetentionRuleRecord → Type 0
IsLeast rules none = rules ≡ []
IsLeast rules (some r) =
    Memᴰ r rules × All (λ (q : ProjectRetentionRuleRecord). r.priority ≤ q.priority) rules

All-le :
    (n m : ℕ) (rules : List ProjectRetentionRuleRecord)
    → n ≤ m
    → All (λ (q : ProjectRetentionRuleRecord). m ≤ q.priority) rules
    → All (λ (q : ProjectRetentionRuleRecord). n ≤ q.priority) rules
All-le n m [] e h = tt
All-le n m (q ∷ rules) e h = (omega (arith, e, h.0), All-le n m rules e h.1)

least_priority-IsLeast :
    (rules : List ProjectRetentionRuleRecord) → IsLeast rules (least_priority rules)
unfolding least_priority
least_priority-IsLeast [] = refl
least_priority-IsLeast (r ∷ rules) = go (least_priority rules) (least_priority-IsLeast rules)
  where
    go :
        (o : Option ProjectRetentionRuleRecord)
        → IsLeast rules o
        → IsLeast (r ∷ rules) (elim o [
          | none ↦ some r
          | some q ↦ if leb r.priority q.priority then some r else some q
        ])
    go none h = (
      Memᴰ.head refl,
      subst (λ l. All (λ (q : ProjectRetentionRuleRecord). r.priority ≤ q.priority) (r ∷ l)) (sym h)
          (omega arith, tt),
    )
    go (some q) (m, h) = elim (Bool-cases (leb r.priority q.priority)) [
      | inl e ↦
          rw e (
            Memᴰ.head refl,
            (omega arith, All-le r.priority q.priority rules (ground (arith, e)) h),
          )
      | inr e ↦ rw e (Memᴰ.tail m, (ground (arith, e), h))
    ]

-- The rule that a ref falls under matches it, and no rule of a lower priority does; there is none only if no
-- rule matches.
abbrev pub IsRuleOf :
    (Text → Text → Bool)
    → List ProjectRetentionRuleRecord
    → Text
    → Option ProjectRetentionRuleRecord
    → Type 0
IsRuleOf matches rules ref_name none =
    (q : ProjectRetentionRuleRecord) → Memᴰ q rules → matches q.ref_pattern ref_name ≡ false
IsRuleOf matches rules ref_name (some r) =
    Memᴰ r rules
    × (matches r.ref_pattern ref_name ≡ true)
    × ((q : ProjectRetentionRuleRecord)
        → Memᴰ q rules
        → matches q.ref_pattern ref_name ≡ true
        → r.priority ≤ q.priority)

-- The rule of a ref is a rule that matches it, of the least priority of those, and a ref has none only if
-- no rule matches it.
pub matching_retention_rule-IsRuleOf :
    (matches : Text → Text → Bool) (rules : List ProjectRetentionRuleRecord) (ref_name : Text)
    → IsRuleOf matches rules ref_name (matching_retention_rule matches rules ref_name)
unfolding matching_retention_rule
matching_retention_rule-IsRuleOf matches rules ref_name =
    go (least_priority (select matched rules)) (least_priority-IsLeast (select matched rules))
  where
    matched : ProjectRetentionRuleRecord → Bool
    matched r = matches r.ref_pattern ref_name

    go :
        (o : Option ProjectRetentionRuleRecord)
        → IsLeast (select matched rules) o
        → IsRuleOf matches rules ref_name o
    go none h = λ q m. elim (Bool-cases (matched q)) [
      | inl e ↦ absurd (Memᴰ.not-nil (subst (Memᴰ q) h (row-select matched m e)))
      | inr e ↦ e
    ]
    go (some r) (m, h) =
        let (row, e) = select-row matched rules m in
        (
          row,
          e,
          λ q m' e'.
              All-at (λ (q : ProjectRetentionRuleRecord). r.priority ≤ q.priority) h
                (row-select matched m' e'),
        )
