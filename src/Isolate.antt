-- ===== src/Isolate.antt =====
-- The confinement of isolate processes as it is configured: layers, user ids and the checks on both,
-- src/qemu/nvkvm_isolate_uid.h, src/common/nvkvm_uidmap.h and the configuration in
-- src/qemu/nvkvm_isolate.c.
mod Mode
mod Uids
mod Config
mod Rungs
mod Confined
mod Window
mod Examples
