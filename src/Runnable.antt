-- ===== src/Runnable.antt =====
-- scitex_cards/_runnable.py: which cards an agent may start now, and why the others may not be. A
-- card's `depends_on` and `blocks` are lists or absent, and its `priority` an int or absent.
pub mod Index
pub mod Key
pub mod Batch
pub mod Chosen
pub mod Upstream
pub mod Diagnose
pub mod Partition
pub use Index.{Indexed, status_by_id, blocks_into, is_resolved, settled, deps_satisfied}
pub use Key.{compare_cards, compare_cards-IsOrder}
