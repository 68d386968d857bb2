-- ===== src/MmapTable.antt =====
-- The table of the mappings in the isolates of a VM, src/qemu/nvkvm_isolate_handlers.c: tokens, the
-- translation of a guest range, and what ends a mapping.
mod Table
mod Translate
mod Teardown
mod Tokens
mod Translation
mod Exact
mod Ends
mod Others
mod Examples
