-- ===== src/Kernel/Protect/Segments.antt =====
-- Segment descriptors of kernel/protect.c: base, limit and attributes are packed and read back.
use Prim.Native.Nat.{bit_and, bit_or}
use dlos.Prelude.{
  ℕ, ◌+◌, ◌*◌, ◌/◌, ◌%◌, ◌^◌, ◌<◌, ◌≡◌, ap, ◌∙◌, arith, bit_and_mask, bit_or-apart, bit_or_comm,
  bit_and-halves,
}
use dlos.Kernel.Proc.{Descriptor}
use dlos.Kernel.Ipc.Base.{ldt_seg_linear}
use dlos.Kernel.Protect.{init_descriptor, reassembly}

-- The mask of the upper half of a byte.
bit_and_high : (a : ℕ) → bit_and a 0xF0 ≡ a / 16 % 16 * 16
bit_and_high a = omega (
  arith,
  bit_and-halves a 240,
  bit_and-halves (a / 2) 120,
  bit_and-halves (a / 2 / 2) 60,
  bit_and-halves (a / 2 / 2 / 2) 30,
  bit_and_mask 4 (a / 2 / 2 / 2 / 2),
)

-- Three parts of a u32 side by side.
pub joined :
    (h m l : ℕ)
    → l < 2 ^ 16
    → m < 2 ^ 8
    → bit_or (bit_or (h * 2 ^ 24) (m * 2 ^ 16)) l ≡ h * 2 ^ 24 + m * 2 ^ 16 + l
joined h m l ls ms =
    let shifted : h * 2 ^ 24 + m * 2 ^ 16 ≡ (h * 2 ^ 8 + m) * 2 ^ 16 = omega arith in
    ap (λ x. bit_or x l) (bit_or-apart 24 h (m * 2 ^ 16) (omega arith) ∙ shifted)
    ∙ bit_or-apart 16 (h * 2 ^ 8 + m) l ls
    ∙ omega arith

nibbles : (x y low high : ℕ) → x ≡ low → y ≡ high * 16 → low < 16 → bit_or x y ≡ high * 16 + low
nibbles x y low high ex ey small =
    bit_or_comm x y
    ∙ ap (λ z. bit_or z x) ey
    ∙ ap (λ z. bit_or (high * 16) z) ex
    ∙ bit_or-apart 4 high low small

-- The parts of a descriptor that init_descriptor wrote.
pub record Packed (d : Descriptor) (base limit attribute : ℕ) : Type 0 where
  pub base_parts : reassembly d.base_high 24 d.base_mid 16 d.base_low ≡ base
  pub linear : ldt_seg_linear d ≡ base
  pub limit_parts : reassembly 0 0 (bit_and d.limit_high_attr2 0xF) 16 d.limit_low ≡ limit
  pub type : d.attr1 ≡ attribute % 2 ^ 8
  pub flags : bit_and d.limit_high_attr2 0xF0 ≡ attribute / 2 ^ 12 * 16

-- init_descriptor for a base of 32 bits, a limit of 20 bits and attributes of 16 bits: reassembly
-- and ldt_seg_linear read the base back, the masks that do_fork uses read the limit back, and the
-- type and the four flags of the attributes are in their places.
pub init_descriptor-Packed :
    (base limit attribute : ℕ)
    → base < 2 ^ 32
    → limit < 2 ^ 20
    → attribute < 2 ^ 16
    → Packed (init_descriptor base limit attribute) base limit attribute
unfolding init_descriptor ldt_seg_linear
init_descriptor-Packed base limit attribute bs ls ats =
    let low = bit_and_mask 16 base in
    let mid = bit_and_mask 8 (base / 2 ^ 16) in
    let high = bit_and_mask 8 (base / 2 ^ 24) in
    let limit_low = bit_and_mask 16 limit in
    let limit_high = bit_and_mask 4 (limit / 2 ^ 16) in
    let type = bit_and_mask 8 attribute in
    let flags = bit_and_high (attribute % 2 ^ 16 / 2 ^ 8) in
    let both : d.limit_high_attr2 ≡ attribute / 2 ^ 12 * 16 + limit / 2 ^ 16 =
      nibbles (bit_and (limit / 2 ^ 16) 0x0F) (bit_and (attribute % 2 ^ 16 / 2 ^ 8) 0xF0)
        (limit / 2 ^ 16) (attribute / 2 ^ 12) (omega (arith, limit_high)) (omega (arith, flags))
        (omega arith) in
    record {
      base_parts = omega (arith, low, mid, high);
      linear =
          joined d.base_high d.base_mid d.base_low (omega (arith, low)) (omega (arith, mid))
          ∙ omega (arith, low, mid, high);
      limit_parts = omega (arith, limit_low, both, bit_and_mask 4 d.limit_high_attr2);
      type = type;
      flags = omega (arith, both, bit_and_high d.limit_high_attr2);
    }
  where
    d : Descriptor
    d = init_descriptor base limit attribute
