-- ===== src/Tests/Retention.antt =====
-- Runs of the retention policies, alone and with the garbage collector.
use nix_project_cache.Prelude.{
  none, ℕ, ◌≡◌, ◌≤◌, ◌↔◌, refl, subst, some_inj, false, true, some, List, [], ◌∷◌, map, Result, ok,
  arith, or-left,
}
use nix_project_cache.Prelude.Int.{ℤ, pos}
use nix_project_cache.Db.{DbError}
use nix_project_cache.Prelude.Text.{Text, text, text_eq, text_eq_refl, bytes}
use nix_project_cache.Prelude.Text.Order.{sort, text_leb}
use nix_project_cache.Prelude.Text.Search.{trim}
use nix_project_cache.Prelude.Rows.{dedup, is_in}
use nix_project_cache.Prelude.Sort.{sort_by}
use nix_project_cache.Ident.{ProjectSlug, StorageId, is_slug_byte}
use nix_project_cache.Ident
use nix_project_cache.Nix.StorePath.{from_hash, is_base32_char}
use nix_project_cache.Db.Projects.{parse_slug, project_id_by_slug, row_of_slug}
use nix_project_cache.Db.Builds.{BuildRow}
use nix_project_cache.Db.Retention.{
  ProjectRetentionRuleRecord, RetentionTables, default_retention_rules, retention_rule,
  get_project_retention_policy, replace_project_retention_policy, insert_rules, upsert_policy,
  row_of_id, custom_policy, policy_of_id, policy_of,
}
use nix_project_cache.Db.Retention.Policy.{
  HasOwnId, stored_policy, replace-get_project_retention_policy,
}
use nix_project_cache.Db.Retained.{
  matching_retention_rule, least_priority, newest_builds, list_retained_build_ids_for_gc,
  ProjectRefRetentionRow, ref_joined, retained_of_refs, retained_of_ref, retained_by_policy,
  retained_if_active, ref_is_active, take,
}
use nix_project_cache.Db.Retained.Rules.{IsRuleOf, matching_retention_rule-IsRuleOf}
use nix_project_cache.Db.Retained.Default.{retained_of_ref-default}
use nix_project_cache.Db.Retained.Newest.{IsNewest, newest_builds-IsNewest}
use nix_project_cache.Db.Retained.Listed.{IsKept, list_retained_build_ids_for_gc_iff}
use nix_project_cache.Gc.{Database, list_root_store_path_hashes}
use nix_project_cache.Gc.Roots.{IsRooted, list_root_store_path_hashes_iff}
use nix_project_cache.Gc.Kept.{IsObjectOf, retained_at, run_local_gc-retained}
use nix_project_cache.Gc.Service.{run_local_gc_with_grace_period}
use nix_project_cache.Tests.Access.{formats, matches, demo, demo_row}
use nix_project_cache.Tests.Collect.{storage, delete, Holds, delete_other, hash_a}
use mathlib.Core.List.{Memᴰ, flat_map}

matching_retention_rule-IsRuleOf_example :
    IsRuleOf matches default_retention_rules
      (text "refs/heads/main")
      (matching_retention_rule matches default_retention_rules (text "refs/heads/main"))
matching_retention_rule-IsRuleOf_example =
    matching_retention_rule-IsRuleOf matches default_retention_rules (text "refs/heads/main")

star : (s : Text) → matches (text "*") s ≡ true
star s = or-left (text_eq (text "*") (text "*")) (text_eq (text "*") s) (text_eq_refl (text "*"))

abbrev build_of : Text → Text → BuildRow
build_of id finalized_at = record {
  id = id;
  project_id = text "p1";
  ref_name = text "main";
  revision = none;
  status = text "finalized";
  created_at = finalized_at;
  finalized_at = some finalized_at;
}

abbrev two_builds : List BuildRow
two_builds = build_of (text "b1") (text "1") ∷ build_of (text "b2") (text "2") ∷ []

newest_builds-IsNewest_example :
    IsNewest two_builds
      (text "p1")
      (text "main")
      1
      (newest_builds two_builds (text "p1") (text "main") 1)
newest_builds-IsNewest_example = newest_builds-IsNewest two_builds (text "p1") (text "main") 1

newest_run :
    newest_builds two_builds (text "p1") (text "main") 1 ≡ build_of (text "b2") (text "2") ∷ []
unfolding newest_builds take sort_by text_eq text_leb
newest_run = refl

abbrev tables : RetentionTables
tables = record {
  projects = demo_row ∷ [];
  policies = [];
  rules = [];
  refs =
      record {
        project_id = text "p1";
        ref_name = text "main";
        build_id = text "b2";
        updated_at = text "2";
      }
      ∷ [];
  builds = two_builds;
}

abbrev since : Text → Text → ℤ
since now t = pos 59

abbrev clock : ProjectRefRetentionRow → Text
clock r = text "3"

retained_run :
    list_retained_build_ids_for_gc formats since clock matches tables ≡ ok (text "b2" ∷ [])
unfolding list_retained_build_ids_for_gc retained_of_refs retained_of_ref retained_by_policy
    retained_if_active ref_is_active newest_builds take sort_by text_eq text_leb flat_map dedup sort
    matching_retention_rule least_priority get_project_retention_policy policy_of_id custom_policy
    policy_of project_id_by_slug row_of_slug Ident.parse is_slug_byte bytes
retained_run = refl

list_retained_build_ids_for_gc_iff_example :
    (is_in (text "b2") (text "b2" ∷ []) ≡ true)
    ↔ IsKept formats since clock matches tables
        (flat_map (ref_joined tables.projects) tables.refs)
        (text "b2")
list_retained_build_ids_for_gc_iff_example =
    list_retained_build_ids_for_gc_iff formats since clock matches tables retained_run (text "b2")

abbrev one_rule : List ProjectRetentionRuleRecord
one_rule = retention_rule 5 (text " main ") (some 60) (some 3) ∷ []

demo_valid : Ident.parse demo.slug ≡ ok demo
unfolding Ident.parse is_slug_byte bytes text_eq
demo_valid = refl

own_id : HasOwnId tables.projects demo
unfolding row_of_slug row_of_id text_eq
own_id p h = subst (λ p. row_of_id (demo_row ∷ []) p.id ≡ some p) (some_inj h) refl

abbrev with_policy : RetentionTables
with_policy = record tables {
  policies =
      record {
        project_id = text "p1";
        keep_latest_builds_per_ref = 2;
        object_delete_grace_seconds = 3600;
      }
      ∷ [];
  rules =
      record {
        project_id = text "p1";
        priority = 5;
        ref_pattern = text "main";
        ttl_seconds = some 60;
        keep_builds = some 3;
      }
      ∷ [];
}

replaced : replace_project_retention_policy demo 2 3600 one_rule tables ≡ ok with_policy
unfolding replace_project_retention_policy insert_rules upsert_policy project_id_by_slug row_of_slug
    text_eq trim
replaced = refl

replace-get_project_retention_policy_example :
    get_project_retention_policy with_policy demo ≡ ok (stored_policy demo 2 3600 one_rule)
replace-get_project_retention_policy_example =
    replace-get_project_retention_policy demo 2 3600 one_rule tables {after = with_policy}
      demo_valid own_id (omega arith) ((omega arith, omega arith), tt) replaced

abbrev main_row : ProjectRefRetentionRow
main_row = record { project_slug = text "demo"; ref_name = text "main"; updated_at = text "2" }

demo_slug : parse_slug (text "demo") ≡ ok demo
unfolding Ident.parse is_slug_byte bytes text_eq
demo_slug = refl

main_known : project_id_by_slug tables.projects demo ≡ ok (text "p1")
unfolding project_id_by_slug row_of_slug text_eq
main_known = refl

no_policy : policy_of tables.policies (text "p1") ≡ none
unfolding policy_of
no_policy = refl

retained_of_ref-default_example :
    (n : ℕ) × (1 ≤ n)
    × (retained_of_ref formats since clock matches tables main_row
        ≡ ok (map (λ (b : BuildRow). b.id) (newest_builds two_builds (text "p1") (text "main") n)))
retained_of_ref-default_example =
    retained_of_ref-default formats since clock matches star tables main_row demo (text "p1")
      (text "2") demo_slug main_known no_policy refl refl

-- The tables of the collector, with the build that is kept.
abbrev kept_db : Database
kept_db = record {
  builds = [];
  build_paths = record { build_id = text "b2"; store_path_hash = hash_a } ∷ [];
  pins = [];
  path_infos = record { store_path_hash = hash_a; store_path = text "/nix/store/a" } ∷ [];
  path_references = [];
  path_objects = record { store_path_hash = hash_a; object_path = text "nar/a.nar" } ∷ [];
  storage_objects = [];
}

abbrev b2_retained : Result DbError (List Text)
b2_retained = ok (text "b2" ∷ [])

kept_rooted : list_root_store_path_hashes {E = Text} b2_retained kept_db ≡ ok (hash_a ∷ [])
unfolding list_root_store_path_hashes from_hash is_base32_char sort text_eq dedup
kept_rooted = refl

list_root_store_path_hashes_iff_example :
    (is_in hash_a (hash_a ∷ []) ≡ true) ↔ IsRooted b2_retained kept_db hash_a
list_root_store_path_hashes_iff_example =
    list_root_store_path_hashes_iff {E = Text} b2_retained kept_db kept_rooted hash_a

b2_in : is_in (text "b2") (text "b2" ∷ []) ≡ true
unfolding text_eq
b2_in = refl

b2-IsKept :
    IsKept formats since clock matches tables
      (flat_map (ref_joined tables.projects) tables.refs)
      (text "b2")
b2-IsKept =
    (list_retained_build_ids_for_gc_iff formats since clock matches tables retained_run
        (text "b2")).0
      b2_in

b2-IsObjectOf : IsObjectOf kept_db (text "b2") (text "nar/a.nar")
b2-IsObjectOf = (
  record { build_id = text "b2"; store_path_hash = hash_a },
  record { store_path_hash = hash_a; store_path = text "/nix/store/a" },
  record { store_path_hash = hash_a; object_path = text "nar/a.nar" },
  Memᴰ.head refl,
  refl,
  Memᴰ.head refl,
  refl,
  Memᴰ.head refl,
  refl,
  refl,
)

in_storage : is_in (text "nar/a.nar") (text "nar/a.nar" ∷ []) ≡ true
unfolding text_eq
in_storage = refl

run_local_gc-retained_example :
    is_in
      (text "nar/a.nar")
      (run_local_gc_with_grace_period storage delete
        (retained_at formats since matches tables clock)
        (retained_at formats since matches tables clock)
        false
        10
        20
        0
        kept_db
        (text "nar/a.nar" ∷ [])).1
    ≡ true
run_local_gc-retained_example =
    run_local_gc-retained storage delete Holds delete_other formats since matches tables clock clock
      kept_db (text "b2") (text "nar/a.nar") b2-IsKept b2-IsKept b2-IsObjectOf 10 20 0
      (text "nar/a.nar" ∷ []) (record { value = text "main" }) in_storage
