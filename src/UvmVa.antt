-- ===== src/UvmVa.antt =====
-- Which ranges of addresses a UVM handle owns, src/qemu/nvkvm_isolate_handlers.c.
mod Ranges
mod Gate
mod Events
mod Owned
mod Calls
mod Counts
mod Partial
mod Examples
