-- ===== src/Kernel/Start/Map.antt =====
-- get_kernel_map of lib/klib.c finds the kernel that the loader left, and kernel_main gets it.
use dlos.Prelude.{
  ℕ, inl, inr, ◌-◌, ◌<◌, ◌≡◌, refl, true, not, ◌==◌, ltb, Option, some, none, if◌then◌else◌, List,
  Bool-cases, arith, ap, ◌∙◌,
}
use dlos.Kernel.Proc.{Code, pure, assert, ◌>>◌, done, >>=-done}
use dlos.Libc.Strings.{strcmp_is_0}
use dlos.Kernel.Start.{map_for, Places, Boot, init_name}
use dlos.Kernel.KernelMap.{BootParams, kernel_range, get_kernel_map, get_boot_params}

-- The boot parameters are as get_kernel_map wants them.
pub record HasKernel (bp : BootParams) : Type 0 where
  pub magic : bp.magic ≡ 0xB007
  pub elf : bp.is_elf ≡ true
  pub some_section : (kernel_range bp).0 < (kernel_range bp).1

-- What a round uses as base and limit of the kernel.
abbrev pub map_of : Places → List ℕ → ℕ × ℕ
map_of places name = if not (strcmp_is_0 name init_name) then (0, 0) else (
  (kernel_range places.boot_params).0,
  (kernel_range places.boot_params).1 - (kernel_range places.boot_params).0 - 1,
)

get_kernel_map-found :
    (bp : BootParams) (b : Boot)
    → HasKernel bp
    → get_kernel_map bp b
      ≡ done (some ((kernel_range bp).0, (kernel_range bp).1 - (kernel_range bp).0 - 1)) b
unfolding get_kernel_map get_boot_params
get_kernel_map-found bp b h =
    let magic : (bp.magic == 0xB007) ≡ true = ground (arith, h.magic) in
    let room : ltb (kernel_range bp).0 (kernel_range bp).1 ≡ true =
      ground (arith, h.some_section) in
    let found : Code Boot (Option (ℕ × ℕ)) =
      pure (some ((kernel_range bp).0, (kernel_range bp).1 - (kernel_range bp).0 - 1)) in
    let of_range : Code Boot (Option (ℕ × ℕ)) =
      assert 48 (ltb (kernel_range bp).0 (kernel_range bp).1) >> found in
    let boot : get_boot_params bp b ≡ done bp b =
      ap (λ x. (assert 18 x >> (assert 22 bp.is_elf >> pure bp)) b) magic
      ∙ ap (λ x. (assert 22 x >> pure bp) b) h.elf in
    >>=-done (get_boot_params bp) _ boot
    ∙ ap (λ x. (if not x then pure none else of_range) b) h.elf
    ∙ ap (λ x. (assert 48 x >> found) b) room

pub map_for-run :
    (places : Places) (name : List ℕ) (b : Boot)
    → HasKernel places.boot_params
    → map_for places name b ≡ done (map_of places name) b
unfolding map_for
map_for-run places name b h = elim (Bool-cases (strcmp_is_0 name init_name)) [
  | inl same ↦
      rw same (
        >>=-done (get_kernel_map places.boot_params) _
          (get_kernel_map-found places.boot_params b h))
  | inr other ↦ rw other refl
]
