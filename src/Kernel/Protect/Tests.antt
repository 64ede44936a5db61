-- ===== src/Kernel/Protect/Tests.antt =====
-- Descriptors and the tables of a sample machine.
use dlos.Prelude.{ℕ, ◌≡◌, ◌<◌, refl, arith}
use dlos.Kernel.Proc.{done}
use dlos.Kernel.Protect.{Machine, init_descriptor, init_prot, index_tss, seg2linear}
use dlos.Kernel.Protect.Segments.{Packed, init_descriptor-Packed}
use dlos.Kernel.Protect.Tables.{Prepared, init_prot-Prepared}
use dlos.Kernel.Protect.Sample.{image, machine}

-- The data segment of a child: base 10 MB, 256 pages, attributes DA_32, DA_LIMIT_4K, DA_DRW for the
-- user.
init_descriptor-Packed_example : Packed (init_descriptor 0xA00000 0xFF 0xC0F2) 0xA00000 0xFF 0xC0F2
init_descriptor-Packed_example =
    init_descriptor-Packed 0xA00000 0xFF 0xC0F2 (omega arith) (omega arith) (omega arith)

init_prot-Prepared_example :
    (m' : Machine) × (init_prot image machine ≡ done tt m')
    × Prepared image m'
    × ((d : ℕ) → d < index_tss → m'.gdt d ≡ machine.gdt d)
unfolding seg2linear
init_prot-Prepared_example =
    init_prot-Prepared image machine refl refl (λ h. omega arith) (λ p. omega arith) (omega arith)
