-- ===== src/Users.antt =====
-- scitex_cards/_users and the agent ids of _ports.py: the registry of users in the store's document,
-- and the canonical name of an identity.
pub mod AgentId
pub mod Model
pub mod Endpoint
pub mod Identity
pub mod Registry
pub mod Saved
pub mod Calls
pub mod Owners
pub mod Fresh
pub mod Unique
pub mod Lookup
pub mod Known
pub mod Reached
pub mod Aliases
pub mod Typed
pub mod Changes
pub mod Apart
pub mod Effects
pub mod Unowned
pub mod Names
pub mod Rows
