-- ===== src/Libc/Print/Digits.antt =====
-- The digits that i2a of lib/vsprintf.c and itoa of lib/klib.c write.
use native.Mathlib.Nat.{
  div-lt_iff_lt-mul, le-div_iff_mul-le, div-add-mod', mod-lt, div-div-eq-div-mul, one-le-pow,
  div-eq_of_lt,
}
use dlos.Prelude.{
  ℕ, zero, suc, ◌+◌, ◌-◌, ◌*◌, ◌/◌, ◌%◌, ◌^◌, ◌≤◌, ◌<◌, ◌≡◌, ◌≢◌, refl, sym, Bool, true, false, inl,
  inr, Bool-cases, ◌&&◌, leb, ltb, ◌==◌, if◌then◌else◌, List, [], ◌∷◌, ◌++◌, ℕ_discrete, dec_lt,
  arith, ap, ◌∙◌,
}
use dlos.Prelude.Int.{pos}
use dlos.Libc.Print.{digit, i2a, int_digits, hex_digit, itoa_loop, itoa}

-- The value of a digit, and of a number behind the value `acc` of its first digits.
abbrev pub digit_value : ℕ → ℕ
digit_value c = if ltb c 58 then c - 48 else c - 55

abbrev pub read_number : ℕ → ℕ → List ℕ → ℕ
read_number base acc [] = acc
read_number base acc (c ∷ s) = read_number base (acc * base + digit_value c) s

read_number-append :
    (base acc : ℕ) (s : List ℕ) (c : ℕ)
    → read_number base acc (s ++ c ∷ []) ≡ read_number base acc s * base + digit_value c
read_number-append base acc [] c = refl
read_number-append base acc (d ∷ s) c = read_number-append base (acc * base + digit_value d) s c

digit_value-digit : (m : ℕ) → m < 16 → digit_value (digit (pos m)) ≡ m
digit_value-digit m h = ground arith

less_digits : (p n base : ℕ) → 2 ≤ base → n < 2 * p → n / base < p
less_digits p n base l h =
    let factors : 2 * p ≤ p * base = grind (arith, l) in
    (div-lt_iff_lt-mul (omega arith)).1 (omega (arith, h, factors))

pub read_number-i2a :
    (fuel n base : ℕ)
    → 2 ≤ base
    → base ≤ 16
    → n < 2 ^ fuel
    → read_number base 0 (i2a fuel (pos n) base) ≡ n
unfolding i2a
read_number-i2a zero n base l u h = omega arith
read_number-i2a (suc fuel) n base l u h =
    let parts = div-add-mod' n base in
    let small : n % base < base = mod-lt n (omega arith) in
    let c = digit (pos (n % base)) in
    let value : digit_value c ≡ n % base = digit_value-digit (n % base) (omega (arith, small)) in
    elim (ℕ_discrete (n / base) 0) [
      | yes last ↦
          let test : (n / base == 0) ≡ true = rw last refl in
          let whole : 0 * base + n % base ≡ n = ap (λ q. q * base + n % base) (sym last) ∙ parts in
          rw test (omega (arith, value, whole))
      | no more ↦
          let test : (n / base == 0) ≡ false = ground (arith, more) in
          let ih =
            read_number-i2a fuel (n / base) base l u
              (less_digits (2 ^ fuel) n base l (omega (arith, h))) in
          rw test (
            read_number-append base 0 (i2a fuel (pos (n / base)) base) c
            ∙ ap (λ x. x * base + digit_value c) ih
            ∙ omega (arith, value, parts))
    ]

-- Every character is a decimal digit.
abbrev pub are_digits : List ℕ → Bool
are_digits [] = true
are_digits (c ∷ s) = leb 48 c && leb c 57 && are_digits s

pub are_digits-append :
    (s t : List ℕ) → are_digits s ≡ true → are_digits t ≡ true → are_digits (s ++ t) ≡ true
are_digits-append [] t a b = b
are_digits-append (c ∷ s) t a b =
    let rest = are_digits-append s t (ground (arith, a)) b in ground (arith, a, rest)

decimal_digit : (n : ℕ) → are_digits (digit (pos (n % 10)) ∷ []) ≡ true
decimal_digit n = ground arith

pub i2a-digits : (fuel n : ℕ) → are_digits (i2a fuel (pos n) 10) ≡ true
unfolding i2a
i2a-digits zero n = refl
i2a-digits (suc fuel) n = elim (Bool-cases (n / 10 == 0)) [
  | inl last ↦ rw last (decimal_digit n)
  | inr more ↦ rw more (
      are_digits-append (i2a fuel (pos (n / 10)) 10) (digit (pos (n % 10)) ∷ [])
        (i2a-digits fuel (n / 10)) (decimal_digit n))
]

-- i2a gives the digit of a number below the base, and else the digits of the quotient and the last.
i2a-last :
    (fuel num : ℕ)
    → num / 16 ≢ 0
    → i2a (suc fuel) (pos num) 16 ≡ i2a fuel (pos (num / 16)) 16 ++ digit (pos (num % 16)) ∷ []
unfolding i2a
i2a-last fuel num more = let test : (num / 16 == 0) ≡ false = ground (arith, more) in rw test refl

i2a-single : (fuel num : ℕ) → num < 16 → i2a (suc fuel) (pos num) 16 ≡ digit (pos num) ∷ []
unfolding i2a
i2a-single fuel num small =
    let test : (num / 16 == 0) ≡ true = ground arith in
    let same : num % 16 ≡ num = omega arith in rw test (ap (λ m. digit (pos m) ∷ []) same)

hex_digit-digit : (m : ℕ) → m < 16 → hex_digit m ≡ digit (pos m)
hex_digit-digit m h = ground arith

divided_twice : (num n : ℕ) → num / 16 ^ suc n ≡ num / 16 / 16 ^ n
divided_twice num n =
    let factors : 16 ^ suc n ≡ 16 * 16 ^ n = omega arith in
    ap (λ x. num / x) factors ∙ sym (div-div-eq-div-mul num 16 (16 ^ n))

-- The last digit of itoa's loop, once a digit was written.
itoa_loop-last :
    (n num : ℕ)
    → itoa_loop (suc n) num true ≡ itoa_loop n (num / 16) true ++ hex_digit (num % 16) ∷ []
unfolding itoa_loop
itoa_loop-last zero num = ap (λ x. hex_digit (x % 16) ∷ []) (omega arith)
itoa_loop-last (suc n) num =
    ap (λ x. hex_digit (x % 16) ∷ itoa_loop (suc n) num true) (divided_twice num n)
    ∙ ap (λ s. hex_digit (num / 16 / 16 ^ n % 16) ∷ s) (itoa_loop-last n num)

hex_digit-last : (num : ℕ) → hex_digit (num % 16) ≡ digit (pos (num % 16))
hex_digit-last num = hex_digit-digit (num % 16) (omega arith)

-- A number of n + 1 digits.
itoa_loop-i2a :
    (n fuel num : ℕ)
    → n < fuel
    → num < 16 ^ suc n
    → 16 ^ n ≤ num
    → itoa_loop (suc n) num true ≡ i2a fuel (pos num) 16
unfolding itoa_loop
itoa_loop-i2a n zero num f u l = absurd (omega arith)
itoa_loop-i2a zero (suc fuel) num f u l =
    let same : num / 1 % 16 ≡ num = omega (arith, u) in
    ap (λ x. hex_digit x ∷ []) same
    ∙ ap (λ c. c ∷ []) (hex_digit-digit num u)
    ∙ sym (i2a-single fuel num u)
itoa_loop-i2a (suc n) (suc fuel) num f u l =
    let p = 16 ^ suc n in
    let up : num < 16 * p = omega (arith, u) in
    let low : 16 * 16 ^ n ≤ num = omega (arith, l) in
    let rest =
      itoa_loop-i2a n fuel (num / 16) (omega arith) (omega (arith, up)) (omega (arith, low)) in
    itoa_loop-last (suc n) num
    ∙ ap (λ s. s ++ hex_digit (num % 16) ∷ []) rest
    ∙ ap (λ c. i2a fuel (pos (num / 16)) 16 ++ c ∷ []) (hex_digit-last num)
    ∙ sym (i2a-last fuel num (omega (arith, low, one-le-pow n 16 (omega arith))))

-- Zeros in front are left out.
itoa_loop-leading :
    (n fuel num : ℕ)
    → n ≤ fuel
    → 0 < num
    → num < 16 ^ n
    → itoa_loop n num false ≡ i2a fuel (pos num) 16
unfolding itoa_loop
itoa_loop-leading zero fuel num f l u = absurd (omega arith)
itoa_loop-leading (suc n) fuel num f l u =
    let up : num < 16 * 16 ^ n = omega (arith, u) in
    let pos_power : 0 < 16 ^ n = one-le-pow n 16 (omega arith) in
    elim (dec_lt num (16 ^ n)) [
      | yes short ↦
          let none_here : num / 16 ^ n ≡ 0 = div-eq_of_lt short in
          rw none_here (itoa_loop-leading n fuel num (omega arith) l short)
      | no long ↦
          let some_here : 1 ≤ num / 16 ^ n =
            (le-div_iff_mul-le pos_power).1 (omega (arith, long)) in
          let one_digit : num / 16 ^ n < 16 = (div-lt_iff_lt-mul pos_power).1 up in
          let test : ltb 0 (num / 16 ^ n % 16) ≡ true = ground (arith, some_here, one_digit) in
          rw test (itoa_loop-i2a n fuel num (omega arith) u (omega (arith, long)))
    ]

-- itoa of an int that is not negative writes 0x and the digits that i2a writes in base 16, which read
-- back as the number.
pub itoa-i2a :
    (num : ℕ)
    → num < 2 ^ 31
    → (itoa num ≡ 48 ∷ 120 ∷ i2a int_digits (pos num) 16)
      × (read_number 16 0 (i2a int_digits (pos num) 16) ≡ num)
unfolding itoa i2a
itoa-i2a num h = (
  elim (ℕ_discrete num 0) [
    | yes none_left ↦ rw none_left refl
    | no more ↦
        let test : (num == 0) ≡ false = ground (arith, more) in
        rw test (
          ap (λ s. 48 ∷ 120 ∷ s)
            (itoa_loop-leading 8 int_digits num (omega arith) (omega (arith, more))
              (omega (arith, h))))
  ],
  read_number-i2a int_digits num 16 (omega arith) (omega arith) (omega (arith, h)),
)
