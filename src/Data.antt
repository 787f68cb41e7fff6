-- ===== src/Data.antt =====
-- src/tiny_qwen_coder/data: the preparation of training data.
pub mod Records
pub mod Filtering
pub mod Deduplication
pub mod Splitting
pub mod LengthFiltering
