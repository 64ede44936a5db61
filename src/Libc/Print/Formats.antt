-- ===== src/Libc/Print/Formats.antt =====
-- What vsprintf of lib/vsprintf.c makes of a format: text, and a number of a fixed width.
use dlos.Prelude.{
  ℕ, ◌+◌, ◌-◌, ◌≡◌, refl, sym, Bool, true, false, not, ◌&&◌, ◌==◌, Option, none, some, List, [],
  ◌∷◌, ◌++◌, length, replicate, arith, ap, ◌∙◌,
}
use dlos.Prelude.Int.{pos}
use dlos.Libc.Print.{
  i2a, int_digits, Arg, word, text, plain, action, emit, converted, padded, prefixed, perform,
  format_loop, vsprintf,
}

-- No character of the text is a `%`.
abbrev pub is_plain : List ℕ → Bool
is_plain [] = true
is_plain (c ∷ s) = not (c == 37) && is_plain s

prefixed-prefixed :
    (s t : List ℕ) (o : Option (List ℕ)) → prefixed s (prefixed t o) ≡ prefixed (s ++ t) o
prefixed-prefixed s t none = refl
prefixed-prefixed s t (some u) = ap some (sym (append_assoc s t u))
  where
    append_assoc : (s t u : List ℕ) → (s ++ t) ++ u ≡ s ++ (t ++ u)
    append_assoc [] t u = refl
    append_assoc (c ∷ s) t u = ap (λ r. c ∷ r) (append_assoc s t u)

action-text : (c : ℕ) → (c == 37) ≡ false → action plain c ≡ emit c
unfolding action
action-text c e = rw e refl

no_prefix : (o : Option (List ℕ)) → prefixed [] o ≡ o
no_prefix none = refl
no_prefix (some s) = refl

pub format_loop-text :
    (s fmt : List ℕ) (args : List Arg)
    → is_plain s ≡ true
    → format_loop (s ++ fmt) plain args ≡ prefixed s (format_loop fmt plain args)
unfolding format_loop
format_loop-text [] fmt args p = sym (no_prefix (format_loop fmt plain args))
format_loop-text (c ∷ s) fmt args p =
    ap (λ a. perform a (format_loop (s ++ fmt)) args) (action-text c (ground (arith, p)))
    ∙ ap (prefixed (c ∷ [])) (format_loop-text s fmt args (ground (arith, p)))
    ∙ prefixed-prefixed (c ∷ []) s (format_loop fmt plain args)

-- `%0wd` with one digit `w`.
abbrev pub zero_filled : ℕ → List ℕ → List ℕ
zero_filled w fmt = 37 ∷ 48 ∷ (48 + w) ∷ 100 ∷ fmt

padded-none : (cs : ℕ) (s : List ℕ) → padded cs 0 s ≡ s
padded-none cs s =
    let no_room : 0 - length s ≡ 0 = omega arith in ap (λ n. replicate n cs ++ s) no_room

append_nil : (s : List ℕ) → s ++ [] ≡ s
append_nil [] = refl
append_nil (c ∷ s) = ap (λ r. c ∷ r) (append_nil s)

last_number :
    (m : ℕ)
    → format_loop (37 ∷ 100 ∷ []) plain (word (pos m) ∷ []) ≡ some (i2a int_digits (pos m) 10)
unfolding format_loop action converted
last_number m = ap some (
    append_nil (padded 32 0 (i2a int_digits (pos m) 10))
    ∙ padded-none 32 (i2a int_digits (pos m) 10))

-- `%s` and `%d` around text, as in the name of a child: the string, the text and the digits.
pub vsprintf-name :
    (name before : List ℕ) (m : ℕ)
    → is_plain before ≡ true
    → vsprintf (37 ∷ 115 ∷ (before ++ 37 ∷ 100 ∷ [])) (text name ∷ word (pos m) ∷ [])
      ≡ some (name ++ (before ++ i2a int_digits (pos m) 10))
unfolding vsprintf format_loop action converted
vsprintf-name name before m p =
    let rest = format_loop (before ++ 37 ∷ 100 ∷ []) plain (word (pos m) ∷ []) in
    ap (λ t. prefixed t rest) (padded-none 32 name)
    ∙ ap (prefixed name) (
        format_loop-text before (37 ∷ 100 ∷ []) (word (pos m) ∷ []) p
        ∙ ap (prefixed before) (last_number m))
