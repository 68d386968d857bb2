-- ===== src/Tables.antt =====
-- The tables of one device: handles, isolates, the links between them, GPA windows with their free
-- regions, and mappings, src/qemu/nvkvm_tables.c.
mod Ids
mod Handles
mod Search
mod HandleAlloc
mod HandleLaws
mod Links
mod Regions
mod RegionLaws
mod RegionTrip
mod Mmaps
mod MmapInv
mod MmapRuns
mod MmapCalls
mod MmapLeak
mod LinkCounts
mod LinkLaws
mod Examples
mod MmapExamples
