-- ===== src/Catalog.antt =====
-- The configured storage backends: crates/depot-store/src/catalog.rs. The map of the backends is a list of
-- its entries, one for a storage id.
use nix_project_cache.Prelude.{
  ◌≡◌, refl, ap, subst, inl, inr, Bool, true, false, Option, none, some, List, [], ◌∷◌, Result, ok,
  err, ◌>>◌, bind-ok, guard, guard-ok, ok_or, ok_inj, is_some, Bool-cases, if◌then◌else◌, length,
  ◌==◌,
}
use nix_project_cache.Prelude.Text.{text_eq}
use nix_project_cache.Ident.{StorageId}

pub data CatalogError : Type 0 where
  no_backend storage_id_required : CatalogError
  default_not_configured not_configured : StorageId → CatalogError

pub record StorageCatalog (B : Type 0) : Type 0 where
  pub default_storage_id : StorageId
  pub backends : List (StorageId × B)

module _ {B : Type 0} where
  unfoldable pub backend_of : List (StorageId × B) → StorageId → Option B
  backend_of [] id = none
  backend_of ((key, backend) ∷ backends) id =
      let rest = backend_of backends id in if text_eq key.value id.value then some backend else rest

  abbrev pub has_backend : List (StorageId × B) → Bool
  has_backend [] = false
  has_backend (b ∷ backends) = true

  unfoldable pub new_catalog :
      StorageId → List (StorageId × B) → Result CatalogError (StorageCatalog B)
  new_catalog default_storage_id backends = do
    guard (has_backend backends) no_backend
    guard (is_some (backend_of backends default_storage_id))
        (default_not_configured default_storage_id)
    ok (record { default_storage_id = default_storage_id; backends = backends })

  abbrev pub is_single_backend : StorageCatalog B → Bool
  is_single_backend c = length c.backends == 1

  unfoldable pub storage : StorageCatalog B → StorageId → Result CatalogError B
  storage c id = ok_or (backend_of c.backends id) (not_configured id)

  unfoldable pub default_storage : StorageCatalog B → Result CatalogError B
  unfolding storage
  default_storage c = storage c c.default_storage_id

  unfoldable pub resolve_optional_storage_id :
      StorageCatalog B → Option StorageId → Result CatalogError StorageId
  unfolding storage
  resolve_optional_storage_id c (some id) = do storage c id; ok id
  resolve_optional_storage_id c none =
      if is_single_backend c then ok c.default_storage_id else err storage_id_required

  -- A catalog that `new` accepts has its default backend, and every storage id that it resolves, given or
  -- not, is one that it has.
  pub new_catalog-resolves :
      (id : StorageId) (backends : List (StorageId × B)) {c : StorageCatalog B}
      → new_catalog id backends ≡ ok c
      → ((b : B) × (default_storage c ≡ ok b))
        × ((asked : Option StorageId) (given : StorageId)
            → resolve_optional_storage_id c asked ≡ ok given
            → (b : B) × (storage c given ≡ ok b))
  unfolding new_catalog default_storage resolve_optional_storage_id storage
  new_catalog-resolves id backends {c} h =
      let (u, some_backend, h1) = bind-ok (guard (has_backend backends) no_backend) _ h in
      let (v, there, h2) =
        bind-ok (guard (is_some (backend_of backends id)) (default_not_configured id)) _ h1 in
      let (b, at) = found (backend_of backends id) (guard-ok _ (default_not_configured id) there) in
      let own =
        subst (λ (c : StorageCatalog B). storage c c.default_storage_id ≡ ok b) (ok_inj h2)
          (ap (λ o. ok_or o (not_configured id)) at) in
      ((b, own), resolved (b, own))
    where
      found : (o : Option B) → is_some o ≡ true → (b : B) × (o ≡ some b)
      found none e = cc
      found (some b) e = (b, refl)

      resolved :
          (b : B) × (storage c c.default_storage_id ≡ ok b)
          → (asked : Option StorageId) (given : StorageId)
          → resolve_optional_storage_id c asked ≡ ok given
          → (b : B) × (storage c given ≡ ok b)
      resolved own (some s) given e =
          let (b, at, e1) = bind-ok (storage c s) (λ _. ok s) e in
          (b, subst (λ s. storage c s ≡ ok b) (ok_inj e1) at)
      resolved own none given e = elim (Bool-cases (is_single_backend c)) [
        | inl one ↦ (own.0, subst (λ s. storage c s ≡ ok own.0) (ok_inj (rw one at e)) own.1)
        | inr many ↦ let wrong = rw many at e in cc
      ]
