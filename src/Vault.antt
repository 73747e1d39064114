-- ===== src/Vault.antt =====
-- internal/vault/vault.go and internal/vault/file.go: the plaintext schema of the vault, and the
-- encrypted file. `encoding/json` and age are taken as a parameter, `Codec`; the file system is
-- the two files `path` and `path.bak` of `Atomicfile`. Buffers that only get wiped are left out,
-- and so is a document whose secret is `null`.
pub mod Validate
pub mod Model
pub mod File
pub use Model.{Secret, Vault}
