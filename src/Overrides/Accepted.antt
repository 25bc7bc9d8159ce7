-- ===== src/Overrides/Accepted.antt =====
-- internal/morpho/overrides.go: what a change of a threshold that was accepted promises.
