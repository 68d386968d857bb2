-- ===== src/Vblank.antt =====
-- The quota of vblank semaphores, src/qemu/nvkvm_isolate.c: a counter for the VM, and a table for
-- each isolate under a lock of its own.
mod Slots
mod Calls
mod Inv
mod Quota
mod Examples
