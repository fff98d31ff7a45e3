-- ===== src/Db/Retained/Listed.antt =====
-- Which builds `list_retained_build_ids_for_gc` lists.
use nix_project_cache.Prelude.{
  ◌≡◌, ◌↔◌, ◌⊎◌, refl, sym, ap, subst, ◌∙◌, inl, inr, Bool, true, false, ◌||◌, some, List, [], ◌∷◌,
  ◌++◌, map, Result, ok, ◌>>=◌, bind-ok, ok_inj, any-append, Bool-cases, Option-cases, arith,
}
use nix_project_cache.Prelude.Int.{ℤ}
use nix_project_cache.Prelude.Text.{Text, text_eq, text_eq_iff, text_eq_refl}
use nix_project_cache.Prelude.Text.Order.{sort, any-sort}
use nix_project_cache.Prelude.Rows.{is_in, dedup, any-dedup, any-row, row-any}
use nix_project_cache.Prelude.Sort.{sort_by, sort_by-row, row-sort_by}
use nix_project_cache.Ident.{ProjectSlug}
use nix_project_cache.Db.{DbError, Formats}
use nix_project_cache.Db.Projects.{parse_slug, project_id_by_slug}
use nix_project_cache.Db.Builds.{BuildRow}
use nix_project_cache.Db.Retention.{
  ProjectRetentionRuleRecord, ProjectRetentionPolicyRecord, RetentionTables,
  get_project_retention_policy,
}
use nix_project_cache.Db.Retained.{
  ProjectRefRetentionRow, matching_retention_rule, keep_of, newest_builds, ref_joined,
  by_slug_and_ref, ref_is_active, retained_if_active, retained_by_policy, retained_of_ref,
  retained_of_refs, list_retained_build_ids_for_gc,
}
use mathlib.Core.List.{Memᴰ, flat_map}
use mathlib.Core.List.Memᴰ

module _ {U T : Type 0} (formats : Formats U T) (since : T → T → ℤ)
    (clock : ProjectRefRetentionRow → T) (matches : Text → Text → Bool)
    (tables : RetentionTables) where
  -- The build is one that the rule of the ref keeps, while the ref is active.
  pub record IsRetained (r : ProjectRefRetentionRow) (id : Text) : Type 0 where
    pub project : ProjectSlug
    pub parsed : parse_slug r.project_slug ≡ ok project
    pub policy : ProjectRetentionPolicyRecord
    pub read : get_project_retention_policy tables project ≡ ok policy
    pub rule : ProjectRetentionRuleRecord
    pub matching : matching_retention_rule matches policy.rules r.ref_name ≡ some rule
    pub active : ref_is_active formats since (clock r) r.updated_at rule.ttl_seconds ≡ ok true
    pub project_id : Text
    pub known : project_id_by_slug tables.projects project ≡ ok project_id
    pub build : BuildRow
    pub newest :
        Memᴰ build (newest_builds tables.builds project_id r.ref_name (keep_of policy rule))
    pub same : build.id ≡ id

  abbrev ids_of : List BuildRow → List Text
  ids_of builds = map (λ (b : BuildRow). b.id) builds

  in-ids :
      (builds : List BuildRow) {b : BuildRow} → Memᴰ b builds → is_in b.id (ids_of builds) ≡ true
  in-ids builds {b} m =
      row-any (text_eq b.id) (Memᴰ.map (λ (b : BuildRow). b.id) m) (text_eq_refl b.id)

  build-of :
      (builds : List BuildRow) {id : Text}
      → is_in id (ids_of builds) ≡ true
      → (b : BuildRow) × Memᴰ b builds × (b.id ≡ id)
  build-of builds {id} h =
      let (x, m, e) = any-row (text_eq id) (ids_of builds) h in
      let (b, m', same) = Memᴰ.of_map (λ (b : BuildRow). b.id) builds m in
      (b, m', same ∙ sym ((text_eq_iff id x).0 e))

  not_in_none :
      {A : Type 0} (id : Text) (l : List Text)
      → ◌≡◌ {A = Result DbError (List Text)} (ok []) (ok l)
      → is_in id l ≡ true
      → A
  not_in_none {A} id l e h = clash (ap (is_in id) (ok_inj e) ∙ h)
    where
      clash : false ≡ true → A
      clash h = cc

  of_active :
      (r : ProjectRefRetentionRow) (project : ProjectSlug) (policy : ProjectRetentionPolicyRecord)
      (rule : ProjectRetentionRuleRecord) (active : Bool) {l : List Text} {id : Text}
      → parse_slug r.project_slug ≡ ok project
      → get_project_retention_policy tables project ≡ ok policy
      → matching_retention_rule matches policy.rules r.ref_name ≡ some rule
      → ref_is_active formats since (clock r) r.updated_at rule.ttl_seconds ≡ ok active
      → retained_if_active formats since clock matches tables project r.ref_name
          (keep_of policy rule)
          active
        ≡ ok l
      → is_in id l ≡ true
      → IsRetained r id
  unfolding retained_if_active
  of_active r project policy rule false {l} {id} parsed read matching e h m = not_in_none id l h m
  of_active r project policy rule true {l} {id} parsed read matching e h m =
      let (project_id, known, h1) = bind-ok (project_id_by_slug tables.projects project) _ h in
      let (b, newest, same) =
        build-of (newest_builds tables.builds project_id r.ref_name (keep_of policy rule))
          (ap (is_in id) (ok_inj h1) ∙ m) in
      record {
        project = project;
        parsed = parsed;
        policy = policy;
        read = read;
        rule = rule;
        matching = matching;
        active = e;
        project_id = project_id;
        known = known;
        build = b;
        newest = newest;
        same = same;
      }

  of_policy :
      (r : ProjectRefRetentionRow) (project : ProjectSlug) (policy : ProjectRetentionPolicyRecord)
      {l : List Text} {id : Text}
      → parse_slug r.project_slug ≡ ok project
      → get_project_retention_policy tables project ≡ ok policy
      → retained_by_policy formats since clock matches tables project r policy ≡ ok l
      → is_in id l ≡ true
      → IsRetained r id
  unfolding retained_by_policy
  of_policy r project policy {l} {id} parsed read h m =
      elim (Option-cases (matching_retention_rule matches policy.rules r.ref_name)) [
        | inl e ↦ not_in_none id l (rw (e, retained_by_policy) at h) m
        | inr (rule, e) ↦
            let (active, e', h1) =
              bind-ok (ref_is_active formats since (clock r) r.updated_at rule.ttl_seconds)
                (retained_if_active formats since clock matches tables project r.ref_name
                  (keep_of policy rule))
                (rw (e, retained_by_policy) at h) in
            of_active r project policy rule active parsed read e e' h1 m
      ]

  of_ref :
      (r : ProjectRefRetentionRow) {l : List Text} {id : Text}
      → retained_of_ref formats since clock matches tables r ≡ ok l
      → is_in id l ≡ true
      → IsRetained r id
  unfolding retained_of_ref
  of_ref r h m =
      let (project, parsed, h1) = bind-ok (parse_slug r.project_slug) _ h in
      let (policy, read, h2) = bind-ok (get_project_retention_policy tables project) _ h1 in
      of_policy r project policy parsed read h2 m

  run-active :
      (r : ProjectRefRetentionRow) {id : Text} (k : IsRetained r id)
      → retained_if_active formats since clock matches tables k.project r.ref_name
          (keep_of k.policy k.rule)
          true
        ≡ ok
            (ids_of (newest_builds tables.builds k.project_id r.ref_name (keep_of k.policy k.rule)))
  unfolding retained_if_active
  run-active r k = rw k.known refl

  run-policy :
      (r : ProjectRefRetentionRow) {id : Text} (k : IsRetained r id)
      → retained_by_policy formats since clock matches tables k.project r k.policy
        ≡ ok
            (ids_of (newest_builds tables.builds k.project_id r.ref_name (keep_of k.policy k.rule)))
  unfolding retained_by_policy
  run-policy r k = rw (k.matching, k.active, retained_by_policy) (run-active r k)

  run-ref :
      (r : ProjectRefRetentionRow) {id : Text} (k : IsRetained r id)
      → retained_of_ref formats since clock matches tables r
        ≡ ok
            (ids_of (newest_builds tables.builds k.project_id r.ref_name (keep_of k.policy k.rule)))
  unfolding retained_of_ref
  run-ref r k =
      ap
        (λ m. m >>= λ project.
          get_project_retention_policy tables project
          >>= retained_by_policy formats since clock matches tables project r)
        k.parsed
      ∙ ap (λ m. m >>= retained_by_policy formats since clock matches tables k.project r) k.read
      ∙ run-policy r k

  to_ref :
      (r : ProjectRefRetentionRow) {l : List Text} {id : Text}
      → IsRetained r id
      → retained_of_ref formats since clock matches tables r ≡ ok l
      → is_in id l ≡ true
  to_ref r {l} {id} k h =
      ap (is_in id) (sym (ok_inj (sym (run-ref r k) ∙ h)))
      ∙ subst
          (λ i.
            is_in i (
              ids_of
                (newest_builds tables.builds k.project_id r.ref_name (keep_of k.policy k.rule)))
            ≡ true)
          k.same (in-ids _ k.newest)

  -- A ref of the list keeps the build.
  abbrev pub IsKept : List ProjectRefRetentionRow → Text → Type 0
  IsKept refs id = (r : ProjectRefRetentionRow) × Memᴰ r refs × IsRetained r id

  of_refs :
      (refs : List ProjectRefRetentionRow) {l : List Text}
      → retained_of_refs formats since clock matches tables refs ≡ ok l
      → (id : Text) → (is_in id l ≡ true) ↔ IsKept refs id
  unfolding retained_of_refs
  of_refs [] {l} h id = ((λ m. not_in_none id l h m), λ (r, m, k). absurd (Memᴰ.not-nil m))
  of_refs (r ∷ refs) {l} h id =
      let (builds, first, h1) =
        bind-ok (retained_of_ref formats since clock matches tables r)
          (λ builds. retained_of_refs formats since clock matches tables refs >>= λ rest.
            ok (builds ++ rest))
          h in
      let (rest, others, h2) =
        bind-ok (retained_of_refs formats since clock matches tables refs)
          (λ rest. ok (builds ++ rest)) h1 in
      let parts : is_in id l ≡ (is_in id builds || is_in id rest) =
        ap (is_in id) (sym (ok_inj h2)) ∙ any-append (text_eq id) builds rest in
      (
        λ m. elim (Bool-cases (is_in id builds)) [
          | inl e ↦ (r, Memᴰ.head refl, of_ref r first e)
          | inr e ↦
              let (q, m', k) =
                (of_refs refs others id).0 (ap (λ b. b || is_in id rest) (sym e) ∙ sym parts ∙ m) in
              (q, Memᴰ.tail m', k)
        ],
        λ (q, m', k).
            parts
            ∙ either (is_in id builds) (is_in id rest) (elim (Memᴰ.cases_cons m') [
              | inl here ↦ inl (to_ref r (subst (λ q. IsRetained q id) here k) first)
              | inr later ↦ inr ((of_refs refs others id).1 (q, later, k))
            ]),
      )
    where
      either : (a b : Bool) → (a ≡ true) ⊎ (b ≡ true) → (a || b) ≡ true
      either a b (inl h) = ground arith
      either a b (inr h) = ground arith

  -- When the retained builds can be listed, a build is listed exactly if some ref of a project keeps it: the
  -- ref is active, when the loop comes to it, by the rule of the project's policy that matches it, and the build is one of the newest
  -- finalized builds of the ref, as many as that rule keeps.
  pub list_retained_build_ids_for_gc_iff :
      {ids : List Text}
      → list_retained_build_ids_for_gc formats since clock matches tables ≡ ok ids
      → (id : Text)
      → (is_in id ids ≡ true) ↔ IsKept (flat_map (ref_joined tables.projects) tables.refs) id
  unfolding list_retained_build_ids_for_gc
  list_retained_build_ids_for_gc_iff {ids} h id =
      let rows = flat_map (ref_joined tables.projects) tables.refs in
      let (retained, listed, h1) =
        bind-ok (retained_of_refs formats since clock matches tables (sort_by by_slug_and_ref rows))
          (λ retained. ok (dedup (sort retained))) h in
      let same : is_in id ids ≡ is_in id retained =
        ap (is_in id) (sym (ok_inj h1))
        ∙ any-dedup (text_eq id) (sort retained)
        ∙ any-sort (text_eq id) retained in
      let (to, from) = of_refs (sort_by by_slug_and_ref rows) listed id in
      (
        λ m. let (r, m', k) = to (sym same ∙ m) in (r, sort_by-row by_slug_and_ref rows m', k),
        λ (r, m', k). same ∙ from (r, row-sort_by by_slug_and_ref rows m', k),
      )
