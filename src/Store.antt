-- ===== src/Store.antt =====
-- The store's verbs (scitex_cards/_store*.py): each reads the whole document under a lock, computes
-- the new rows, saves them, and then tells the rest of the system what happened.
pub mod State
pub mod Actor
pub mod Row
pub mod Unblock
pub mod Complete
pub mod Completed
pub mod Delete
pub mod Resolve
pub mod Reassign
pub mod Comment
pub mod Relations
pub mod Enums
pub mod Wip
pub mod Mutate
pub mod Rescore
pub mod Help
pub mod Atomic
pub mod Frame
pub mod Marks
pub mod ReadBack
pub mod Gate
pub mod Reopened
pub mod Handover
pub mod Keepers
pub mod History
