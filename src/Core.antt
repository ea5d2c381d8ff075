-- ===== src/Core.antt =====
-- src/main.rs: `CoreManager`, which every event of the program passes through.
pub mod Manager
pub mod Access
pub mod Sets
pub mod Power
pub mod Event
