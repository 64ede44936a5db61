-- ===== src/Libc/Print.antt =====
-- vsprintf of lib/vsprintf.c, and itoa of lib/klib.c. A string is the list of its characters without the
-- final 0; what the functions write is returned, and vsprintf returns its length.
mod Tests
pub mod Digits
pub mod Formats
use dlos.Prelude.{
  ℕ, zero, suc, ◌+◌, ◌-◌, ◌*◌, ◌/◌, ◌%◌, ◌^◌, Bool, true, false, not, ◌&&◌, ◌||◌, Option, none,
  some, ltb, leb, ◌==◌, if◌then◌else◌, List, [], ◌∷◌, ◌++◌, length, replicate,
}
use dlos.Prelude.Int.{ℤ, pos, negsuc, sub_ℕ}

-- `val / base` and `val % base`, which C rounds towards 0.
abbrev pub quotient : ℤ → ℕ → ℤ
quotient (pos n) base = pos (n / base)
quotient (negsuc n) base = sub_ℕ 0 (suc n / base)

abbrev pub remainder : ℤ → ℕ → ℤ
remainder (pos n) base = pos (n % base)
remainder (negsuc n) base = sub_ℕ 0 (suc n % base)

abbrev pub is_zero : ℤ → Bool
is_zero (pos n) = n == 0
is_zero (negsuc n) = false

-- `(m < 10) ? (m + '0') : (m - 10 + 'A')`
abbrev pub digit : ℤ → ℕ
digit (pos m) = if ltb m 10 then m + 48 else m - 10 + 65
digit (negsuc m) = 48 - suc m

-- i2a, for at most `fuel` digits.
unfoldable pub i2a : ℕ → ℤ → ℕ → List ℕ
i2a zero val base = []
i2a (suc fuel) val base =
    let rest = i2a fuel (quotient val base) base in
    let last = digit (remainder val base) ∷ [] in
    if is_zero (quotient val base) then last else rest ++ last

-- An int has at most 32 digits in a base from 2 on.
abbrev pub int_digits : ℕ
int_digits = 32

-- An argument of vsprintf: a word, or a pointer to a string.
pub data Arg : Type 0 where
  word : ℤ → Arg
  text : List ℕ → Arg

-- Where vsprintf is in the format: outside a conversion, behind its `%`, or in its width, with the
-- character that fills it.
pub data Mode : Type 0 where
  plain : Mode
  percent : Mode
  width : ℕ → ℕ → Mode

-- What the next character does: it is written, it leads to another mode, or it is a conversion
-- with the given fill and width.
pub data Action : Type 0 where
  emit : ℕ → Action
  go : Mode → Action
  convert : ℕ → ℕ → ℕ → Action

abbrev pub in_width : ℕ → ℕ → ℕ → Action
in_width cs align_nr c =
    if leb 48 c && leb c 57 then go (width cs (align_nr * 10 + (c - 48))) else convert cs align_nr c

unfoldable pub action : Mode → ℕ → Action
action plain c = if c == 37 then go percent else emit c
action percent c = if c == 37 then emit c else if c == 48 then go (width 48 0) else in_width 32 0 c
action (width cs align_nr) c = in_width cs align_nr c

-- `m * (-1)` for a negative int, which stays as it is at the lowest int.
abbrev pub negated : ℤ → ℤ
negated (pos n) = sub_ℕ 0 n
negated (negsuc n) = if suc n == 2 ^ 31 then negsuc n else pos (suc n)

abbrev pub decimal : ℤ → List ℕ
decimal (pos n) = i2a int_digits (pos n) 10
decimal (negsuc n) = 45 ∷ i2a int_digits (negated (negsuc n)) 10

-- A 0 in `inner_buf` ends it.
abbrev pub char_text : ℤ → List ℕ
char_text (pos n) = if n % 256 == 0 then [] else ((n % 256) ∷ [])
char_text (negsuc n) = if n % 256 == 255 then [] else ((255 - n % 256) ∷ [])

-- The switch over the conversion: `inner_buf`, and the arguments left. It is `none` if there is no
-- argument of the kind that is read.
unfoldable pub converted : ℕ → List Arg → Option (List ℕ × List Arg)
converted c [] = if c == 99 || c == 120 || c == 100 || c == 115 then none else some ([], [])
converted c (word m ∷ args) =
    if c == 99
    then some (char_text m, args)
    else if c == 120
    then some (i2a int_digits m 16, args)
    else if c == 100
    then some (decimal m, args)
    else if c == 115
    then none
    else some ([], word m ∷ args)
converted c (text s ∷ args) =
    if c == 99 || c == 120 || c == 100
    then none
    else if c == 115
    then some (s, args)
    else some ([], text s ∷ args)

abbrev pub padded : ℕ → ℕ → List ℕ → List ℕ
padded cs align_nr s = replicate (align_nr - length s) cs ++ s

abbrev pub prefixed : List ℕ → Option (List ℕ) → Option (List ℕ)
prefixed s none = none
prefixed s (some t) = some (s ++ t)

-- An action, where `next` does the rest of the format.
abbrev pub perform : Action → (Mode → List Arg → Option (List ℕ)) → List Arg → Option (List ℕ)
perform (emit x) next args = prefixed (x ∷ []) (next plain args)
perform (go mode) next args = next mode args
perform (convert cs align_nr x) next args = elim (converted x args) [
  | none ↦ none
  | some (s, args') ↦ prefixed (padded cs align_nr s) (next plain args')
]

-- The loop of vsprintf. A format that ends within a conversion is read past its end: `none`.
unfoldable pub format_loop : List ℕ → Mode → List Arg → Option (List ℕ)
format_loop [] plain args = some []
format_loop [] percent args = none
format_loop [] (width cs n) args = none
format_loop (c ∷ fmt) mode args = perform (action mode c) (format_loop fmt) args

-- vsprintf, and sprintf.
unfoldable pub vsprintf : List ℕ → List Arg → Option (List ℕ)
vsprintf fmt args = format_loop fmt plain args

-- `ch += '0'; if (ch > '9') ch += 7;`
abbrev pub hex_digit : ℕ → ℕ
hex_digit ch = if ltb 57 (ch + 48) then ch + 48 + 7 else ch + 48

-- The loop of itoa, with `n` digits left, the next one worth 16 ^ (n - 1).
unfoldable pub itoa_loop : ℕ → ℕ → Bool → List ℕ
itoa_loop zero num flag = []
itoa_loop (suc n) num flag =
    let ch = num / 16 ^ n % 16 in
    let flag' = flag || ltb 0 ch in
    let rest = itoa_loop n num flag' in if flag' then hex_digit ch ∷ rest else rest

-- itoa of an int with the bits `num`.
unfoldable pub itoa : ℕ → List ℕ
itoa num = 48 ∷ 120 ∷ (if num == 0 then 48 ∷ [] else itoa_loop 8 num false)
