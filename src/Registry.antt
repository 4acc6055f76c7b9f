-- ===== src/Registry.antt =====
-- agents/registry.py, the agent registry.
pub mod Record
pub mod Accounts
pub mod Boot
pub mod Ancestry
pub mod Lifecycle
pub mod Locks
pub mod Usage
pub mod Exclusion
pub mod Access
pub mod Chain
pub mod Budget
pub mod Static
pub mod Sound
pub mod History
pub mod Startup
mod Examples
pub mod Termination
