-- ===== src/Nix.antt =====
-- crates/depot-core/src/nix.rs: store directories, store path hashes and NAR hashes.
pub mod StoreDir
pub mod StorePath
pub mod Base32
pub mod HashAlgorithm
pub mod Hash
pub mod ContentAddress
