-- ===== src/PageTable/ProcMap/Tests.antt =====
-- Maps of the kernel's memory with a few sections.
use thread_equivalence_check.Base.{◌≡◌, refl, subst, some, [], ◌∷◌, arith}
use thread_equivalence_check.PageTable.Tests.{heap_entry}
use thread_equivalence_check.PageTable.ProcMap.{
  ProcMap, Layout, empty_map, procmap_push, procmap_default_mk,
}
use thread_equivalence_check.PageTable.ProcMap.Tracked.{
  IsProcMap, empty-IsProcMap, procmap_push-IsProcMap,
}
use thread_equivalence_check.PageTable.ProcMap.Ready.{default_sections, default_mk-IsProcMap}

abbrev pub heap_map : ProcMap
heap_map = record { dom_ids = 2; map = heap_entry ∷ [] }

pub heap_map-IsProcMap : IsProcMap heap_map
unfolding procmap_push
heap_map-IsProcMap =
    let (p', ran, last, h) =
      procmap_push-IsProcMap heap_entry empty_map (refl, omega arith, refl, omega arith, tt)
        (omega arith) (omega arith) empty-IsProcMap in
    let same : p' ≡ heap_map = cc in subst IsProcMap same h

-- Stacks that end at 128 MB and 144 MB.
abbrev pub kernel_layout : Layout
kernel_layout = record {
  prog_end = 65536;
  heap_start = 1048576;
  heap_end = 2097152;
  int_stack_addr = 0x9000000;
  stack_addr = 0x8000000;
}

default_mk-IsProcMap_example :
    (p : ProcMap) × (procmap_default_mk kernel_layout 1 2 ≡ some p)
    × (p.map ≡ default_sections kernel_layout 1 2)
    × IsProcMap p
default_mk-IsProcMap_example =
    default_mk-IsProcMap kernel_layout 1 2 (omega arith, refl, omega arith, refl) (omega arith)
      (omega arith)
