-- ===== src/Protocol/Limits.antt =====
-- The limits of crates/config/src/devnet0.rs and crates/config/src/lib.rs, and those that
-- crates/protocol derives from them.
use lean_rust.Prelude.{ℕ, ◌*◌, ◌^◌}

abbrev pub historical_roots_limit : ℕ
historical_roots_limit = 2 ^ 18

abbrev pub validator_registry_limit : ℕ
validator_registry_limit = 2 ^ 12

abbrev pub justifications_validators_limit : ℕ
justifications_validators_limit = historical_roots_limit * validator_registry_limit

abbrev pub max_attestations : ℕ
max_attestations = validator_registry_limit

abbrev pub intervals_per_slot : ℕ
intervals_per_slot = 4

abbrev pub justification_lookback_slots : ℕ
justification_lookback_slots = 3
