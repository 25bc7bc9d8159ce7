-- ===== src/Vault.antt =====
-- internal/morpho: the calls of the vault's contract (vault_client.go, abi.go) and the reads of its
-- state (the `vaultReader` of factory.go).
pub mod Client
pub mod Reader
