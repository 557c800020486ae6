-- ===== src/Pmm/Chain.antt =====
-- kernel/pmm.c: the doubly linked free lists.
mod Links
mod Unlink
pub use Links.*
pub use Unlink.*
