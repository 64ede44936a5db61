-- ===== src/Kernel/Protect.antt =====
-- kernel/protect.c: segment descriptors and interrupt gates (include/sys/protect.h), and init_prot,
-- which fills the tables of the processor and clears proc_table.
mod Tests
pub mod Sample
pub mod Segments
pub mod Gates
pub mod Tables
use Prim.Native.Nat.{bit_and, bit_or}
use dlos.Prelude.{
  ℕ, zero, suc, ◌+◌, ◌-◌, ◌*◌, ◌/◌, ◌%◌, ◌^◌, none, false, ltb, List, [], ◌∷◌, update,
  if◌then◌else◌,
}
use dlos.Const.{nr_all}
use dlos.Kernel.Proc.{
  Descriptor, Proc, Kernel, Code, no_flags, pure, ◌>>=◌, ◌>>◌, get, modify, assert,
}

pub record Gate : Type 0 where
  pub offset_low : ℕ
  pub selector : ℕ
  pub dcount : ℕ
  pub attr : ℕ
  pub offset_high : ℕ

-- The functions of kernel/kernel.asm that the gates lead to.
pub data Handler : Type 0 where
  divide_error single_step_exception nmi breakpoint_exception overflow bounds_check : Handler
  inval_opcode copr_not_available double_fault copr_seg_overrun inval_tss : Handler
  segment_not_present stack_exception general_protection page_fault copr_error : Handler
  hwint : ℕ → Handler
  sys_call : Handler

-- struct tss: the fields that init_prot sets. The others are 0.
pub record Tss : Type 0 where
  pub ss0 : ℕ
  pub iobase : ℕ

-- The addresses that the linker chooses.
pub record Image : Type 0 where
  pub handler_address : Handler → ℕ
  pub tss_address : ℕ
  pub ldts_address : ℕ → ℕ

-- The tables at the start of the system.
pub record Machine : Type 0 where
  pub kernel : Kernel
  pub gdt : ℕ → Descriptor
  pub idt : ℕ → Gate
  pub tss : Tss

abbrev pub selector_kernel_cs : ℕ
selector_kernel_cs = 0x08

abbrev pub selector_kernel_ds : ℕ
selector_kernel_ds = 0x10

abbrev pub index_tss : ℕ
index_tss = 4

abbrev pub index_ldt_first : ℕ
index_ldt_first = 5

abbrev pub selector_ldt_first : ℕ
selector_ldt_first = 0x28

abbrev pub gdt_size : ℕ
gdt_size = 128

abbrev pub da_ldt : ℕ
da_ldt = 0x82

abbrev pub da_386_tss : ℕ
da_386_tss = 0x89

abbrev pub da_386_i_gate : ℕ
da_386_i_gate = 0x8E

-- init_descriptor writes every field: what the descriptor held before is lost.
unfoldable pub init_descriptor : ℕ → ℕ → ℕ → Descriptor
init_descriptor base limit attribute = record {
  limit_low = bit_and limit 0xFFFF;
  base_low = bit_and base 0xFFFF;
  base_mid = bit_and (base / 2 ^ 16) 0xFF;
  attr1 = bit_and attribute 0xFF;
  limit_high_attr2 =
      bit_or (bit_and (limit / 2 ^ 16) 0x0F) (bit_and (attribute % 2 ^ 16 / 2 ^ 8) 0xF0);
  base_high = bit_and (base / 2 ^ 24) 0xFF;
}

-- `reassembly`, where the shifted parts do not overlap.
abbrev pub reassembly : ℕ → ℕ → ℕ → ℕ → ℕ → ℕ
reassembly high high_shift mid mid_shift low =
    (high * 2 ^ high_shift + mid * 2 ^ mid_shift + low) % 2 ^ 32

-- seg2linear
unfoldable pub seg2linear : (ℕ → Descriptor) → ℕ → ℕ
seg2linear gdt seg =
    let d = gdt (seg % 2 ^ 16 / 2 ^ 3) in
    bit_or (bit_or (d.base_high * 2 ^ 24) (d.base_mid * 2 ^ 16)) d.base_low % 2 ^ 32

abbrev pub makelinear : (ℕ → Descriptor) → ℕ → ℕ → ℕ
makelinear gdt seg off = (seg2linear gdt seg + off) % 2 ^ 32

abbrev pub set_gdt : ℕ → Descriptor → Code Machine (Unit {0})
set_gdt i d = modify λ m. record m { gdt = update m.gdt i d }

-- The gate that init_idt_desc writes: of type `desc_type`, to the function at address `base`.
unfoldable pub idt_desc : ℕ → ℕ → ℕ → Gate
idt_desc desc_type base privilege = record {
  offset_low = bit_and base 0xFFFF;
  selector = selector_kernel_cs;
  dcount = 0;
  attr = bit_or desc_type (privilege * 2 ^ 5);
  offset_high = bit_and (base / 2 ^ 16) 0xFFFF;
}

-- The calls of init_idt_desc in init_prot: vector, function, privilege. All gates are interrupt gates.
abbrev pub idt_calls : List (ℕ × Handler × ℕ)
idt_calls =
    (0x0, divide_error, 0)
    ∷ (0x1, single_step_exception, 0)
    ∷ (0x2, nmi, 0)
    ∷ (0x3, breakpoint_exception, 0)
    ∷ (0x4, overflow, 0)
    ∷ (0x5, bounds_check, 0)
    ∷ (0x6, inval_opcode, 0)
    ∷ (0x7, copr_not_available, 0)
    ∷ (0x8, double_fault, 0)
    ∷ (0x9, copr_seg_overrun, 0)
    ∷ (0xA, inval_tss, 0)
    ∷ (0xB, segment_not_present, 0)
    ∷ (0xC, stack_exception, 0)
    ∷ (0xD, general_protection, 0)
    ∷ (0xE, page_fault, 0)
    ∷ (0x10, copr_error, 0)
    ∷ (0x20, hwint 0, 0)
    ∷ (0x21, hwint 1, 0)
    ∷ (0x22, hwint 2, 0)
    ∷ (0x23, hwint 3, 0)
    ∷ (0x24, hwint 4, 0)
    ∷ (0x25, hwint 5, 0)
    ∷ (0x26, hwint 6, 0)
    ∷ (0x27, hwint 7, 0)
    ∷ (0x28, hwint 8, 0)
    ∷ (0x29, hwint 9, 0)
    ∷ (0x2A, hwint 10, 0)
    ∷ (0x2B, hwint 11, 0)
    ∷ (0x2C, hwint 12, 0)
    ∷ (0x2D, hwint 13, 0)
    ∷ (0x2E, hwint 14, 0)
    ∷ (0x2F, hwint 15, 0)
    ∷ (0x90, sys_call, 3)
    ∷ []

unfoldable pub init_idt : Image → List (ℕ × Handler × ℕ) → (ℕ → Gate) → ℕ → Gate
init_idt image [] idt = idt
init_idt image ((vector, handler, privilege) ∷ calls) idt =
    init_idt image calls
      (update idt vector (idt_desc da_386_i_gate (image.handler_address handler) privilege))

abbrev pub blank_descriptor : Descriptor
blank_descriptor = record {
  limit_low = 0;
  base_low = 0;
  base_mid = 0;
  attr1 = 0;
  limit_high_attr2 = 0;
  base_high = 0;
}

-- memset(&proc_table[i], 0, sizeof(struct proc))
abbrev pub blank_proc : Proc
blank_proc = record {
  ldt_sel = 0;
  ldt_c = blank_descriptor;
  ldt_rw = blank_descriptor;
  ticks = 0;
  priority = 0;
  name = [];
  p_flags = no_flags;
  p_msg = 0;
  p_recvfrom = 0;
  p_sendto = 0;
  has_int_msg = false;
  q_sending = none;
  next_sending = none;
  nr_tty = 0;
  p_parent = 0;
  filp = λ _. none;
}

-- The loop of init_prot over proc_table, with `n` entries left from entry `i` on.
unfoldable pub init_ldts : Image → ℕ → ℕ → Code Machine (Unit {0})
init_ldts image zero i = pure tt
init_ldts image (suc n) i = do
  modify λ m. record m {
    kernel = record m.kernel {
      proc_table =
          update m.kernel.proc_table i
            (record blank_proc { ldt_sel = (selector_ldt_first + i * 2 ^ 3) % 2 ^ 16 });
    };
  }
  assert 104 (ltb (index_ldt_first + i) gdt_size)
  m ← get
  set_gdt (index_ldt_first + i) (
      init_descriptor (makelinear m.gdt selector_kernel_ds (image.ldts_address i)) (2 * 8 - 1)
        da_ldt)
  init_ldts image n (i + 1)

-- init_prot, without the interrupt controller. A struct tss has 104 bytes. The base of the TSS goes
-- through seg2linear twice.
unfoldable pub init_prot : Image → Code Machine (Unit {0})
init_prot image = do
  modify λ m. record m { idt = init_idt image idt_calls m.idt }
  modify λ m. record m { tss = record { ss0 = selector_kernel_ds; iobase = 0 } }
  m ← get
  set_gdt index_tss (
      init_descriptor (makelinear m.gdt (seg2linear m.gdt selector_kernel_ds) image.tss_address)
        (104 - 1) da_386_tss)
  modify λ m. record m { tss = record m.tss { iobase = 104 } }
  init_ldts image nr_all 0
