-- ===== src/Lib.antt =====
-- nix-project-cache is a binary cache for Nix. A client publishes narinfos and NARs through a write API; the server
-- validates them, stores the NARs in object storage and the narinfos in a database, renders and signs narinfos for
-- readers, and deletes objects that no retained build, pending build or pin reaches. Writers are authorized by access
-- tokens or by the claims of OIDC tokens, for projects and for refs of projects.
--
-- Which file models which part:
--
-- Prelude: shared names, Boolean tests, results, lists; Prelude/Text and its children: `str` as a list of code
--   points, with the methods that the source calls, the order of texts and decimal numbers of 64 bits.
-- Nix: crates/depot-core/src/nix.rs. Nix/StoreDir is `StoreDir`, Nix/StorePath `StorePathHash`, Nix/Base32
--   `encode_nix_base32`, Nix/HashAlgorithm `HashAlgorithm`, Nix/Hash `NixHash` and `NormalizedNarHash`,
--   Nix/ContentAddress `NixContentAddress`.
-- DepotPath: `parse_depot_object_path` and `NarCompression` of crates/depot-core/src/depot_path.rs.
-- NarInfo: `parse_narinfo` and `NarInfoRenderer::render` of crates/depot-core/src/narinfo.rs. The local variables of
--   the parser are a record of slots, its loop over the lines is recursion on the list of lines, and the text it writes
--   is an append of lines.
-- Validation: `validate_publish_narinfo` of crates/depot-core/src/validation.rs.
-- Signing: `NamedSigningKey` and `NarInfoSigner` of crates/depot-core/src/signing.rs.
-- Ident: `StorageId` and `ProjectSlug` of crates/depot-core/src/storage.rs and crates/depot-core/src/project.rs.
-- Gc: the queries of crates/depot-db/src/gc.rs over tables that are lists of rows; Gc/Service: `GcService` of
--   crates/depot-ingest/src/gc.rs, over the database and the state of the storage backends.
-- Auth: `ChainAuthorizer` of crates/depot-auth/src/chain.rs and `StaticTokenAuthorizer` of
--   crates/depot-auth/src/static_token.rs; an authorizer is a function of the bearer token.
-- Principal: the identities of crates/depot-auth/src/principal.rs; Json: `serde_json::Value` as they hold it.
-- Oidc: the checks of claims of crates/depot-auth/src/oidc_claims.rs.
-- Authz: crates/depot-write/src/authz.rs, `AuthorizationService` and `AuthorizedPrincipal`.
-- Db: the tables of crates/depot-db as lists of rows, and the queries as functions of them. Db/Projects is
--   src/projects.rs there, Db/Tokens src/access_tokens.rs, Db/Bindings src/project_oidc_identities.rs, Db/Builds
--   src/builds.rs, Db/Objects src/objects.rs, Db/Paths src/paths.rs, Db/Retention and Db/Retained src/retention.rs, with
--   the row types of src/models.rs. A query that sorts by a key uses the insertion sort of Prelude/Sort.
-- Ingest: the planner and the service of crates/depot-ingest/src/planner.rs and crates/depot-ingest/src/service.rs; an
--   operation gives its answer and the tables that it leaves, on an error too.
-- Catalog: `StorageCatalog` of crates/depot-store/src/catalog.rs.
-- Read: the views of crates/depot-core/src/view.rs and `ReadService`, `DbBackedObjectStore` and `DbNarInfoResolver` of
--   crates/depot-read/src/service.rs, local_objects.rs and resolver.rs there.
-- Tests: runs at concrete inputs.
--
-- How the parts meet: Validation and Signing read the narinfos of NarInfo, whose paths, hashes and content addresses
-- are those of Nix; Validation asks DepotPath what a URL names; Gc checks the hashes and storage ids of its rows with
-- Nix and Ident. Authz takes its records from Db/Tokens and Db/Bindings as a record of queries, and Auth gives it the
-- identity. Ingest works on the tables of Db/Builds, Db/Objects and Db/Paths; a build that it finalizes is one that
-- Db/Retained may keep, and what is kept is a root of Gc (Gc/Roots, Gc/Kept).
--
-- Parameters. Code of other crates is an argument of the definitions that call it: the base64 decoder (`decode`, with
-- the hypothesis that it gives bytes), the regular expressions of the object paths (`Patterns`, with their documented
-- language in `ArePatterns`), Ed25519 and base64 in Signing (`AreCodecs`), the storage backends in Gc/Service.
-- The clock is an argument of the collector and of the retention: a run of the collector asks twice which builds are
-- retained, and each time the clock may show something else. Nothing else writes the tables during a run. In Db, the
-- parsing and formatting of times and UUIDs (`Formats`), the age of a time in seconds, the hash of a token, and the ids
-- and times that the code generates are arguments, and so is the wildcard matcher of the refs in Authz, Db/Retained and
-- Oidc. The backends of the storages are arguments of Ingest and Read too, and so are the upstream caches.
--
-- Fuel. Only `grow` of Gc runs on fuel: the recursive query goes in rounds, each of which takes at least one row that is
-- not live yet, so the number of these rows is enough, which the proof in Gc/Live shows.
--
-- Bounds. `nar_size` is an u64: `parse_u64` refuses what does not fit. Characters are code points and lengths are counted
-- in UTF-8 bytes where the source counts bytes; the cast of a character to u8 is written out. The conversions to i64 and u32
-- in Db are written out with their bounds.
--
-- Not modelled: reading path infos as JSON, compression, the HTTP handlers, registering paths and the uploads of the
-- ingest service, the OIDC authorizer with its keys and their cache, pins, upstream caches and signing keys in the
-- database, the start-up of the servers, the storage backends, the clients and the command line, and failures of the database
-- itself. What the queries of a transaction write is kept only if the transaction is committed.
pub mod Prelude
pub mod Nix
pub mod DepotPath
pub mod NarInfo
pub mod Validation
pub mod Signing
pub mod Ident
pub mod Json
pub mod Principal
pub mod Db
pub mod Authz
pub mod Oidc
pub mod Catalog
pub mod Ingest
pub mod Read
pub mod Gc
pub mod Tests
pub mod Auth
