-- ===== src/Kernel/KernelMap.antt =====
-- get_kernel_map and get_boot_params of lib/klib.c: which addresses the loaded kernel takes.
use dlos.Prelude.{
  ℕ, ◌+◌, ◌-◌, ◌%◌, ◌^◌, Bool, not, Option, none, some, ltb, List, [], ◌∷◌, ◌==◌, if◌then◌else◌,
}
use dlos.Kernel.Proc.{Code, assert, pure, ◌>>=◌, ◌>>◌}

-- A section of the kernel's ELF file: whether it has SHF_ALLOC, its address and its size.
pub record Section : Type 0 where
  pub alloc : Bool
  pub sh_addr : ℕ
  pub sh_size : ℕ

-- What the loader leaves at BOOT_PARAM_ADDR: the magic number, the size of memory and the kernel's
-- file, whose format is that of elf.h: whether its first bytes are ELFMAG, and its sections.
pub record BootParams : Type 0 where
  pub magic : ℕ
  pub mem_size : ℕ
  pub is_elf : Bool
  pub sections : List Section

-- The loop of get_kernel_map: the lowest address and the end of the sections that are loaded.
abbrev pub section_range : List Section → ℕ → ℕ → ℕ × ℕ
section_range [] b t = (b, t)
section_range (h ∷ hs) b t =
    let top = (h.sh_addr + h.sh_size) % 2 ^ 32 in
    if h.alloc
    then section_range hs (if ltb h.sh_addr b then h.sh_addr else b) (if ltb t top then top else t)
    else section_range hs b t

abbrev pub kernel_range : BootParams → ℕ × ℕ
kernel_range bp = section_range bp.sections (2 ^ 32 - 1) 0

module _ {S : Type 0} where
  -- The result keeps the magic number as well.
  unfoldable pub get_boot_params : BootParams → Code S BootParams
  get_boot_params bp = do assert 18 (bp.magic == 0xB007); assert 22 bp.is_elf; pure bp

  -- get_kernel_map: base and limit of the kernel, or `none` for -1.
  unfoldable pub get_kernel_map : BootParams → Code S (Option (ℕ × ℕ))
  get_kernel_map at_address = do
    bp ← get_boot_params at_address
    let range = kernel_range bp
    if not bp.is_elf
        then pure none
        else do assert 48 (ltb range.0 range.1); pure (some (range.0, range.1 - range.0 - 1))
