-- ===== src/Pmm/Inv.antt =====
-- The invariant of the allocator: its page array and free lists store a division into blocks.
mod Lists
mod State
pub use Lists.*
pub use State.*
