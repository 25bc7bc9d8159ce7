-- ===== src/Overrides.antt =====
-- internal/morpho/overrides.go: the threshold overrides of the Morpho modules.
pub mod Values
pub mod Apply
pub mod Change
pub mod Commutation
pub mod Validity
pub mod Accepted
