-- ===== src/Lib.antt =====
-- nvkvm-pv gives virtual machines paravirtual access to NVIDIA GPUs. A driver in the guest sends
-- requests over virtio to a device in QEMU (src/qemu), which owns handles for host files and
-- memory, maps host memory into guest physical addresses and runs isolate processes that issue the
-- ioctls. Guest and isolate also share a command ring (src/common). The guest is not trusted.
--
-- The modules and the code that they are about:
--
-- - KvmSlot: the pool of KVM memory slots in src/qemu/nvkvm_mmap_host.c, nvkvm_kvm_slot_alloc and
--   nvkvm_kvm_slot_release, with kvm_add_memory_region and kvm_remove_memory_region on top.
-- - Sparse: the sparse window of guest physical addresses in the same file. Sparse.Window is the
--   allocator and its free list (nvkvm_sparse_gpa_alloc, nvkvm_sparse_gpa_release,
--   nvkvm_gpa_to_vmm_va), Sparse.Place the base of the window (nvkvm_sparse_ensure), and
--   Sparse.Quarantine what an extent passes before it is reused (nvkvm_sparse_gpa_free,
--   nvkvm_gpa_quar_purge, nvkvm_sparse_fini). The window's memory slot comes from the pool.
-- - Gpa: where the regions of guest physical addresses go, nvkvm_gpa_layout_compute in the same
--   file. Gpa.Layout is the code; Sparse.Place takes its record, and Gpa.Bounds joins the two.
--   Gpa.MmapWindow is the bump allocator of the legacy window in it, alloc_gpa.
-- - Handle: the handle table, src/qemu/nvkvm_handle.c, the whole file. Handle.Os has the records
--   and the system calls, which are a parameter, Handle.Alloc what takes a slot, Handle.Life what
--   happens to one handle, Handle.Session what goes over all of them.
-- - Tables: src/qemu/nvkvm_tables.c, its handles (Tables.Handles), its isolates and their links to
--   handles (Tables.Links), the free regions of a GPA window (Tables.Regions), the mappings cut
--   out of windows (Tables.Mmaps), and the ids with generations that all share (Tables.Ids).
--   Whether malloc gives memory is a Boolean argument.
-- - Isolate: how isolate processes are to be confined. Isolate.Mode is the parser of a mode and
--   Isolate.Uids the map of user ids and the window in it (src/qemu/nvkvm_isolate_uid.h,
--   src/common/nvkvm_uidmap.h), Isolate.Config the resolution and the checks
--   (nvkvm_isolate_cfg_resolve in src/qemu/nvkvm_isolate.c). The host's answers are a record.
-- - Placement: where mappings of the guest lie in an isolate, the window in
--   src/qemu/nvkvm_isolate_handlers.c. Placement.Arena is its allocator (win_release_locked,
--   win_alloc_locked), Placement.Window its runs, placement and release (win_place_locked,
--   nvkvm_win_unplace). The free list is searched as in Sparse.Window.
-- - MmapTable: the table iso_mmap_tbl in the same file, which records what was placed.
--   MmapTable.Table is the table and its tokens, MmapTable.Translate the way from a guest range to
--   the isolate (iso_mmap_translate), MmapTable.Teardown what ends a mapping
--   (nvkvm_req_munmap_on_isolate, nvkvm_iso_mmap_reap_isolate, nvkvm_iso_mmap_reap_handle), with
--   the calls that it makes as a list.
-- - UvmVa: which ranges of addresses a UVM handle owns, in the same file. UvmVa.Ranges is the
--   table uvm_va_tbl with its functions, UvmVa.Gate what nvkvm_req_ioctl_on_isolate does with it
--   before and after the driver, and UvmVa.Events the interleavings of the locked parts of
--   commands, beside the ranges whose creation was recorded. Whether the driver accepts a command
--   is open; what it does with one is not modelled.
-- - Vblank: the quota of vblank semaphores in src/qemu/nvkvm_isolate.c. Vblank.Slots is what each
--   call does to an isolate under its lock, Vblank.Calls the counter of the VM and the steps.
-- - ClipText: the check of a clipboard text, nb_utf8_ok in src/broker/nvkvm_broker.c, beside the
--   encoding that the standard defines (ClipText.Scalars).
-- - Ring: the command ring, src/common/nvkvm_ring.h, on a byte memory that the peer can write.
-- - Base: lists, arrays, results of fallible functions, tests on numbers.
--
-- State is passed explicitly: a function takes the state and returns the new one with its answer.
-- A function that runs under one lock is one step. Where a lock is dropped inside
-- nvkvm_handle_attach_fd, the wait of nvkvm_tables_handle_close and the loops that reap mappings,
-- what other threads do in between is an argument, as is what the peer of the ring does between the
-- rounds of a peek. For the vblank quota, the UVM ranges and the mapping table of isolates the
-- locked parts of the calls of all threads are the steps of a relation. nvkvm_tables_mmap_alloc and
-- nvkvm_tables_mmap_free, which take several locks one after the other, are run without other
-- threads in between. C arrays are functions of an index, or lists where their fill is counted.
-- Numbers are natural numbers, with the wrap-around of 16, 32 and 64 bits written out where the
-- code can reach it. A file descriptor or memory slot of -1 is `none`.
--
-- Loops run over their index or list. Six have fuel: the two halving loops of the layout have
-- four rounds, and three halvings lead from the largest size to the smallest; the loop of a
-- release that lowers the watermark takes one more round than there are free extents, each of its
-- rounds removing one; a look at the ring takes one more round than the ring has units of 8
-- bytes, each of its rounds passing at least one, which is enough while the peer leaves the
-- counters alone, and a peer that goes on publishing padding keeps the code in its loop; a
-- translation takes as many rounds after the first as the table has entries, each passing the end
-- of an entry; and the check of a text as many as it has bytes.
--
-- Not modelled: the mapping handlers, the creation and the end of the GPA windows of
-- src/qemu/nvkvm_tables.c, spawn and end of isolates (src/qemu/nvkvm_isolate.c) but the vblank
-- quota, their other handlers with the probe of a window, the dispatch of the device, the
-- allowlists, the guest driver (src/guest), the stub (src/stub) and the rest of the broker
-- (src/broker). Display and presentation only call other libraries. Debug output, locks as such
-- and the contents of mapped pages are left out.
pub mod Base
pub mod ClipText
pub mod Gpa
pub mod Handle
pub mod Isolate
pub mod KvmSlot
pub mod MmapTable
pub mod Placement
pub mod Ring
pub mod Sparse
pub mod Tables
pub mod UvmVa
pub mod Vblank
