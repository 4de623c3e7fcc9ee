-- ===== src/PageTable/Tests.antt =====
-- Page tables with a few sections.
use thread_equivalence_check.PageTable.{PinT, PrEnt, mem_rw}

abbrev pub uncached : PinT
uncached = record { G = 1; asid = 0; dom = 1; pagesize = 3; ap_perm = 1; mem_attr = 4 }

abbrev pub heap_entry : PrEnt
heap_entry = record { addr = 1048576; nbytes = 1048576; mem_type = mem_rw; dom = 1 }
