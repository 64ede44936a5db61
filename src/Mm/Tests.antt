-- ===== src/Mm/Tests.antt =====
-- Two children on a machine with 64 MB.
use dlos.Prelude.{◌+◌, ◌<◌, ◌≤◌, ◌⊎◌, refl, arith}
use dlos.Mm.{alloc_mem, alloc_mem-apart}

alloc_mem-apart_example :
    (0xA00000 + 0x100000 < 0x4000000)
    × ((0xA00000 + 0x100000 ≤ 0xB00000) ⊎ (0xB00000 + 0x1000 ≤ 0xA00000))
unfolding alloc_mem
alloc_mem-apart_example =
    alloc_mem-apart 0x4000000 9 10 0x100000 0x1000 0xA00000 0xB00000 (omega arith) refl refl
