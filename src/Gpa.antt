-- ===== src/Gpa.antt =====
-- The layout of the three regions of guest physical addresses, `nvkvm_gpa_layout_compute` in
-- src/qemu/nvkvm_mmap_host.c.
pub mod Layout
mod FirstFit
mod Bounds
mod Advice
mod MmapWindow
mod Examples
