-- ===== src/Placement.antt =====
-- Where mappings of the guest lie in an isolate: the window that the isolate reserves for them, and
-- the table of mappings, src/qemu/nvkvm_isolate_handlers.c.
mod Arena
mod Window
mod ArenaLaws
mod WindowLaws
mod CallLaws
mod Calls
mod Room
mod Adjacent
mod Examples
