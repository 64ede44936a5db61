-- ===== src/Libc/Memory.antt =====
-- memcmp, strcmp and strcat of lib/misc.c, over a memory of bytes; a pointer is an address, null is 0.
use dlos.Prelude.{
  ℕ, zero, suc, ◌+◌, not, ◌&&◌, ◌||◌, Option, none, some, ltb, ◌==◌, if◌then◌else◌, update,
}
use dlos.Prelude.Int.{ℤ, pos, sub_ℕ, ◌-ℤ◌}

abbrev pub Memory : Type 0
Memory = ℕ → ℕ

-- A `char` is signed: the bytes from 128 on are negative.
abbrev pub char_value : ℕ → ℤ
char_value c = if ltb c 128 then pos c else sub_ℕ c 256

-- The loop of memcmp, with `n` rounds left.
unfoldable pub memcmp_loop : Memory → ℕ → ℕ → ℕ → ℤ
memcmp_loop mem zero p1 p2 = pos 0
memcmp_loop mem (suc n) p1 p2 =
    if mem p1 == mem p2
    then memcmp_loop mem n (p1 + 1) (p2 + 1)
    else char_value (mem p1) -ℤ char_value (mem p2)

unfoldable pub memcmp : Memory → ℕ → ℕ → ℕ → ℤ
unfolding memcmp_loop
memcmp mem s1 s2 n = if s1 == 0 || s2 == 0 then sub_ℕ s1 s2 else memcmp_loop mem n s1 s2

-- The loop of strcmp, for at most `fuel` rounds.
unfoldable pub strcmp_loop : ℕ → Memory → ℕ → ℕ → Option ℤ
strcmp_loop zero mem p1 p2 = none
strcmp_loop (suc fuel) mem p1 p2 =
    let rest = strcmp_loop fuel mem (p1 + 1) (p2 + 1) in
    if not (mem p1 == 0) && not (mem p2 == 0)
    then if mem p1 == mem p2 then rest else some (char_value (mem p1) -ℤ char_value (mem p2))
    else some (pos 0)

unfoldable pub strcmp : ℕ → Memory → ℕ → ℕ → Option ℤ
unfolding strcmp_loop
strcmp fuel mem s1 s2 =
    if s1 == 0 || s2 == 0 then some (sub_ℕ s1 s2) else strcmp_loop fuel mem s1 s2

-- `for (; *p1; p1++) {}`
unfoldable pub strcat_end : ℕ → Memory → ℕ → Option ℕ
strcat_end zero mem p1 = none
strcat_end (suc fuel) mem p1 =
    let rest = strcat_end fuel mem (p1 + 1) in if mem p1 == 0 then some p1 else rest

-- `for (; *p2; p1++, p2++) *p1 = *p2;` and the final `*p1 = 0`.
unfoldable pub strcat_copy : ℕ → Memory → ℕ → ℕ → Option Memory
strcat_copy zero mem p1 p2 = none
strcat_copy (suc fuel) mem p1 p2 =
    let rest = strcat_copy fuel (update mem p1 (mem p2)) (p1 + 1) (p2 + 1) in
    if mem p2 == 0 then some (update mem p1 0) else rest

-- strcat returns `s1`, or null and an unchanged memory; `none` means that the fuel ran out.
unfoldable pub strcat : ℕ → Memory → ℕ → ℕ → Option (ℕ × Memory)
unfolding strcat_end strcat_copy
strcat fuel mem s1 s2 =
    if s1 == 0 || s2 == 0 then some (0, mem) else elim (strcat_end fuel mem s1) [
      | none ↦ none
      | some p1 ↦ elim (strcat_copy fuel mem p1 s2) [ none ↦ none | some mem' ↦ some (s1, mem') ]
    ]
