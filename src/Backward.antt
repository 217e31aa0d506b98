-- ===== src/Backward.antt =====
-- deltaserve/bwd_services/base.py and deltaserve/backward_process.py: the backward child and the
-- engine's handle of it.
pub mod Pause
pub mod RunAhead
pub mod Child
pub mod Link
mod Tests
