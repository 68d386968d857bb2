-- ===== src/Sparse.antt =====
-- The sparse window of guest physical addresses: its allocator, the free list of recycled extents
-- and the quarantine before it, src/qemu/nvkvm_mmap_host.c.
pub mod Window
pub mod Place
mod Quarantine
pub mod Cover
mod Take
mod Moves
mod Joined
mod Release
mod Hold
pub mod Safe
mod Limits
mod Purge
mod Examples
pub use Window.*
pub use Place.*
pub use Quarantine.*
