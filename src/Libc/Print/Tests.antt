-- ===== src/Libc/Print/Tests.antt =====
-- Runs of vsprintf and itoa.
use dlos.Prelude.{◌≡◌, refl, some, [], ◌∷◌, arith}
use dlos.Prelude.Int.{pos, negsuc}
use dlos.Libc.Print.{i2a, int_digits, word, action, converted, format_loop, vsprintf, itoa}
use dlos.Libc.Print.Digits.{read_number, itoa-i2a}

-- A negative int under `%x`: 0xFFFFFFFF is written as `/`.
hex_of_minus_one : vsprintf (37 ∷ 120 ∷ []) (word (negsuc 0) ∷ []) ≡ some (47 ∷ [])
unfolding vsprintf format_loop action converted i2a
hex_of_minus_one = refl

minus_twelve : vsprintf (37 ∷ 100 ∷ []) (word (negsuc 11) ∷ []) ≡ some (45 ∷ 49 ∷ 50 ∷ [])
unfolding vsprintf format_loop action converted i2a
minus_twelve = refl

itoa-i2a_example :
    (itoa 0xB800 ≡ 48 ∷ 120 ∷ i2a int_digits (pos 0xB800) 16)
    × (read_number 16 0 (i2a int_digits (pos 0xB800) 16) ≡ 0xB800)
itoa-i2a_example = itoa-i2a 0xB800 (omega arith)
