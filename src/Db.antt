-- ===== src/Db.antt =====
-- What the queries of crates/depot-db share: their errors, the parsers of stored texts, and projects.
pub mod Projects
pub mod Tokens
pub mod Bindings
pub mod Lifecycle
pub mod Builds
pub mod Objects
pub mod Paths
pub mod Retention
pub mod Retained
use nix_project_cache.Prelude.{ℕ, Option}
use nix_project_cache.Prelude.Text.{Text}
use nix_project_cache.Nix.StorePath.{StorePathHashError}
use nix_project_cache.Ident.{StorageIdError}

-- The reasons that the queries give; `constraint` is a row that the schema refuses.
pub data DbError : Type 0 where
  project_not_found : Text → DbError
  invalid_project_slug : Text → DbError
  invalid_storage_id : StorageIdError → DbError
  invalid_uuid invalid_time invalid_build_status : Text → DbError
  invalid_store_path_hash : StorePathHashError → DbError
  empty_token_name empty_provider empty_repository : DbError
  constraint unformatted_time length_out_of_range : DbError
  keep_latest_zero no_rules priority_zero empty_ref_pattern : DbError
  number_out_of_range : ℕ → DbError

-- `Uuid::parse_str`, and parsing and formatting a time as RFC 3339.
pub record Formats (U T : Type 0) : Type 0 where
  pub parse_uuid : Text → Option U
  pub parse_time : Text → Option T
  pub format_time : T → Option Text
