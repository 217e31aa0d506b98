-- ===== src/Parallel.antt =====
-- deltaserve/bwd_services/common/tp.py: how the backward children of a tensor-parallel group divide
-- the LoRA factors and reduce their gradients.
pub mod Shard
pub mod Bucket
mod Tests
