-- ===== src/Libc/Tests.antt =====
-- The theorems on the string functions of lib/misc.c at a small memory.
use dlos.Prelude.{ℕ, ◌≡◌, ◌↔◌, ◌⊎◌, ◌<◌, ◌∷◌, [], ◌||◌, true, some, refl, inl, arith, get_or}
use dlos.Prelude.Int.{ℤ, pos}
use dlos.Libc.Memory.{Memory, memcmp, strcmp, strcat}
use dlos.Libc.Strings.{Holds, bytes_at, is_prefix, memcmp_iff, strcmp_iff, strcat-append}

-- "/" at 1, "/a" at 3, and room behind it.
abbrev memory : Memory
memory a = get_or (0 ∷ 47 ∷ 0 ∷ 47 ∷ 97 ∷ []) a 0

memory_bytes : (i : ℕ) → memory i < 256
memory_bytes i = ground arith

memcmp_iff_example : (memcmp memory 1 3 2 ≡ pos 0) ↔ (bytes_at memory 1 2 ≡ bytes_at memory 3 2)
memcmp_iff_example = memcmp_iff memory 1 3 2 memory_bytes (omega arith) (omega arith)

strcmp_iff_example :
    (r : ℤ) × (strcmp 9 memory 3 1 ≡ some r)
    × ((r ≡ pos 0)
        ↔ ((is_prefix (47 ∷ 97 ∷ []) (47 ∷ []) || is_prefix (47 ∷ []) (47 ∷ 97 ∷ [])) ≡ true))
strcmp_iff_example =
    strcmp_iff memory 9 3 1 (47 ∷ 97 ∷ []) (47 ∷ []) (omega arith) (omega arith)
      (refl, omega arith, omega arith, (refl, omega arith, omega arith, refl))
      (refl, omega arith, omega arith, refl) (omega arith)

strcat-append_example :
    (mem' : Memory) × (strcat 9 memory 3 1 ≡ some (3, mem'))
    × Holds mem' 3 (47 ∷ 97 ∷ 47 ∷ [])
    × ((a : ℕ) → (a < 5) ⊎ (6 < a) → mem' a ≡ memory a)
strcat-append_example =
    strcat-append memory 9 3 1 (47 ∷ 97 ∷ []) (47 ∷ []) (omega arith) (omega arith)
      (refl, omega arith, omega arith, (refl, omega arith, omega arith, refl))
      (refl, omega arith, omega arith, refl) (omega arith) (omega arith) (inl (omega arith))
