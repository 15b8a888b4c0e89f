-- ===== src/Config.antt =====
-- storage/config.rs and storage/policy.rs. The directory and the engine are fixed at `open`.
use bitcask.Prelude.{ℕ, ◌^◌}

pub data DurabilityPolicy : Type 0 where
  sync_on_every_put sync_on_interval os_decides : DurabilityPolicy

pub record Config : Type 0 where
  pub durability_policy : DurabilityPolicy
  pub file_size_threshold : ℕ
  pub compaction_threshold : ℕ
  pub flush_threshold_millis : ℕ

abbrev pub new : Config
new = record {
  durability_policy = os_decides;
  file_size_threshold = 2 ^ 20;
  compaction_threshold = 2 ^ 20;
  flush_threshold_millis = 1000;
}
