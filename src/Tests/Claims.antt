-- ===== src/Tests/Claims.antt =====
-- Runs of the checks of OIDC claims and of the storage catalog.
use nix_project_cache.Prelude.{◌≡◌, ◌↔◌, refl, Option, some, List, [], ◌∷◌, ok, All}
use nix_project_cache.Prelude.Text.{Text, text, text_eq}
use nix_project_cache.Ident.{StorageId}
use nix_project_cache.Json.{Value, Members, string, object, member, end}
use nix_project_cache.Oidc.{validate_bound_claims, get_claim, descend, get_path, split_dots}
use nix_project_cache.Oidc.Claims.{IsBoundBy, validate_bound_claims_iff}
use nix_project_cache.Catalog.{
  StorageCatalog, new_catalog, backend_of, default_storage, resolve_optional_storage_id, storage,
  new_catalog-resolves,
}
use nix_project_cache.Tests.Access.{matches}
use nix_project_cache.Json

abbrev print : Value → Text
print value = text "value"

-- The claims of the repository's own test.
abbrev claims : Members
claims = member (text "repository") (string (text "owner/repo")) (
    member (text "github") (object (member (text "ref") (string (text "refs/heads/main")) end)) end)

nested_claim : get_claim claims (text "github.ref") ≡ some (string (text "refs/heads/main"))
unfolding get_claim get_path descend split_dots Json.get text_eq
nested_claim = refl

abbrev bound : List (Text × List Text)
bound =
    (text "repository", text "owner/repo" ∷ [])
    ∷ (text "github.ref", text "refs/heads/main" ∷ [])
    ∷ []

validate_bound_claims_iff_example :
    (validate_bound_claims matches print claims bound ≡ ok tt)
    ↔ All (IsBoundBy matches print claims) bound
validate_bound_claims_iff_example = validate_bound_claims_iff matches print claims bound

abbrev pub main_id : StorageId
main_id = record { value = text "main" }

abbrev pub catalog : StorageCatalog Text
catalog = record { default_storage_id = main_id; backends = (main_id, text "disk") ∷ [] }

catalog_run : new_catalog main_id ((main_id, text "disk") ∷ []) ≡ ok catalog
unfolding new_catalog backend_of text_eq
catalog_run = refl

new_catalog-resolves_example :
    ((b : Text) × (default_storage catalog ≡ ok b))
    × ((asked : Option StorageId) (given : StorageId)
        → resolve_optional_storage_id catalog asked ≡ ok given
        → (b : Text) × (storage catalog given ≡ ok b))
new_catalog-resolves_example =
    new_catalog-resolves main_id ((main_id, text "disk") ∷ []) {c = catalog} catalog_run
