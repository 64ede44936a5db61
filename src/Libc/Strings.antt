-- ===== src/Libc/Strings.antt =====
-- What the string functions of lib/misc.c compute, for memory that holds C strings.
use dlos.Prelude.{
  ℕ, zero, suc, ◌+◌, ◌<◌, ◌≤◌, ◌≡◌, ◌≢◌, ◌↔◌, ◌⊎◌, inl, refl, Bool, true, false, ◌||◌, ◌&&◌, some,
  List, [], ◌∷◌, ◌++◌, arith, ◌==◌, update, length, ℕ_discrete,
}
use dlos.Prelude.Int.{ℤ, pos, ◌-ℤ◌}
use dlos.Libc.Memory.{
  Memory, char_value, memcmp_loop, memcmp, strcmp_loop, strcmp, strcat_end, strcat_copy, strcat,
}

-- From address `s` the memory holds the characters `cs` and a final 0.
abbrev pub Holds : Memory → ℕ → List ℕ → Type 0
Holds mem s [] = mem s ≡ 0
Holds mem s (c ∷ cs) = (mem s ≡ c) × (c ≢ 0) × (c < 256) × Holds mem (s + 1) cs

abbrev pub is_prefix : List ℕ → List ℕ → Bool
is_prefix [] ys = true
is_prefix (x ∷ xs) [] = false
is_prefix (x ∷ xs) (y ∷ ys) = x == y && is_prefix xs ys

-- Whether strcmp returns 0, for strings as lists: they agree up to the end of the shorter.
unfoldable pub strcmp_is_0 : List ℕ → List ℕ → Bool
strcmp_is_0 [] t = true
strcmp_is_0 (c ∷ s) [] = true
strcmp_is_0 (c ∷ s) (d ∷ t) = c == d && strcmp_is_0 s t

char_value-ne : (a b : ℕ) → a < 256 → b < 256 → a ≢ b → (char_value a -ℤ char_value b) ≢ pos 0
unfolding ◌-ℤ◌
char_value-ne a b ha hb ne e = ground arith

-- The `n` bytes from address `p` on.
abbrev pub bytes_at : Memory → ℕ → ℕ → List ℕ
bytes_at mem p zero = []
bytes_at mem p (suc n) = mem p ∷ bytes_at mem (p + 1) n

memcmp_loop_iff :
    (mem : Memory) (n p1 p2 : ℕ)
    → ((i : ℕ) → mem i < 256)
    → (memcmp_loop mem n p1 p2 ≡ pos 0) ↔ (bytes_at mem p1 n ≡ bytes_at mem p2 n)
unfolding memcmp_loop
memcmp_loop_iff mem zero p1 p2 bytes = (λ e. refl, λ e. refl)
memcmp_loop_iff mem (suc n) p1 p2 bytes = elim (ℕ_discrete (mem p1) (mem p2)) [
  | yes same ↦
      let (to, back) = memcmp_loop_iff mem n (p1 + 1) (p2 + 1) bytes in
      (λ e. cc (same, to (ground arith)), λ e. ground (arith, back (ground arith)))
  | no ne ↦ (
    λ e. absurd (char_value-ne (mem p1) (mem p2) (bytes p1) (bytes p2) ne (ground arith)),
    λ e. absurd (ne (ground arith)),
  )
]

-- Of two pointers that are not null, memcmp returns 0 exactly when the first `n` bytes agree.
pub memcmp_iff :
    (mem : Memory) (s1 s2 n : ℕ)
    → ((i : ℕ) → mem i < 256)
    → s1 ≢ 0
    → s2 ≢ 0
    → (memcmp mem s1 s2 n ≡ pos 0) ↔ (bytes_at mem s1 n ≡ bytes_at mem s2 n)
unfolding memcmp
memcmp_iff mem s1 s2 n bytes n1 n2 =
    let test : (s1 == 0 || s2 == 0) ≡ false = ground arith in
    rw test (memcmp_loop_iff mem n s1 s2 bytes)

strcmp_loop_iff :
    (mem : Memory) (fuel p1 p2 : ℕ) (xs ys : List ℕ)
    → Holds mem p1 xs
    → Holds mem p2 ys
    → length xs < fuel
    → (r : ℤ) × (strcmp_loop fuel mem p1 p2 ≡ some r)
      × ((r ≡ pos 0) ↔ ((is_prefix xs ys || is_prefix ys xs) ≡ true))
unfolding strcmp_loop
strcmp_loop_iff mem zero p1 p2 xs ys hx hy f = absurd (omega arith)
strcmp_loop_iff mem (suc fuel) p1 p2 [] ys hx hy f = (pos 0, ground arith, (λ e. refl, λ e. refl))
strcmp_loop_iff mem (suc fuel) p1 p2 (x ∷ xs) [] hx hy f =
    (pos 0, ground arith, (λ e. refl, λ e. refl))
strcmp_loop_iff mem (suc fuel) p1 p2 (x ∷ xs) (y ∷ ys) (a, b, c, hx) (a', b', c', hy) f =
    elim (ℕ_discrete x y) [
      | yes same ↦
          let (r, run, test) =
            strcmp_loop_iff mem fuel (p1 + 1) (p2 + 1) xs ys hx hy (omega arith) in
          (r, ground (arith, run), (λ e. ground (arith, test.0 e), λ e. test.1 (ground arith)))
      | no ne ↦ (
        char_value x -ℤ char_value y,
        ground arith,
        (λ e. absurd (char_value-ne x y c c' ne e), λ e. absurd (ground arith)),
      )
    ]

-- Of two C strings strcmp returns 0 exactly when one is a prefix of the other. So it does not tell
-- a string from one that only begins like it.
pub strcmp_iff :
    (mem : Memory) (fuel s1 s2 : ℕ) (xs ys : List ℕ)
    → s1 ≢ 0
    → s2 ≢ 0
    → Holds mem s1 xs
    → Holds mem s2 ys
    → length xs < fuel
    → (r : ℤ) × (strcmp fuel mem s1 s2 ≡ some r)
      × ((r ≡ pos 0) ↔ ((is_prefix xs ys || is_prefix ys xs) ≡ true))
unfolding strcmp
strcmp_iff mem fuel s1 s2 xs ys n1 n2 hx hy f =
    let test : (s1 == 0 || s2 == 0) ≡ false = ground arith in
    rw test (strcmp_loop_iff mem fuel s1 s2 xs ys hx hy f)

strcat_end_lem :
    (mem : Memory) (fuel s : ℕ) (xs : List ℕ)
    → Holds mem s xs
    → length xs < fuel
    → strcat_end fuel mem s ≡ some (s + length xs)
unfolding strcat_end
strcat_end_lem mem zero s xs h f = absurd (omega arith)
strcat_end_lem mem (suc fuel) s [] h f = ground arith
strcat_end_lem mem (suc fuel) s (x ∷ xs) h f =
    ground (arith, strcat_end_lem mem fuel (s + 1) xs h.3)

-- A string survives writes outside of it.
Holds-frame :
    (mem mem' : Memory) (s : ℕ) (xs : List ℕ)
    → ((a : ℕ) → s ≤ a → a ≤ s + length xs → mem' a ≡ mem a)
    → Holds mem s xs
    → Holds mem' s xs
Holds-frame mem mem' s [] same h = ground (arith, same s)
Holds-frame mem mem' s (x ∷ xs) same (a, b, c, h) = (
  ground (arith, same s),
  b,
  c,
  Holds-frame mem mem' (s + 1) xs (λ i l u. same i (omega arith) (omega arith)) h,
)

-- The copy of a string to a place apart from it, which ends below or begins above the string.
strcat_copy_lem :
    (mem : Memory) (fuel p1 p2 : ℕ) (ys : List ℕ)
    → Holds mem p2 ys
    → length ys < fuel
    → (p2 + length ys < p1) ⊎ (p1 + length ys < p2)
    → (mem' : Memory) × (strcat_copy fuel mem p1 p2 ≡ some mem')
      × Holds mem' p1 ys
      × ((a : ℕ) → (a < p1) ⊎ (p1 + length ys < a) → mem' a ≡ mem a)
unfolding strcat_copy
strcat_copy_lem mem zero p1 p2 ys h f apart = absurd (omega arith)
strcat_copy_lem mem (suc fuel) p1 p2 [] h f apart =
    (update mem p1 0, ground arith, ground arith, λ a o. ground arith)
strcat_copy_lem mem (suc fuel) p1 p2 (y ∷ ys) (a, b, c, h) f apart =
    let (mem', run, holds, same) =
      strcat_copy_lem (update mem p1 (mem p2)) fuel (p1 + 1) (p2 + 1) ys
        (Holds-frame mem (update mem p1 (mem p2)) (p2 + 1) ys (λ i l u. ground arith) h)
        (omega arith) (omega arith) in
    (
      mem',
      ground (arith, run),
      (ground (arith, same p1), b, c, holds),
      λ i o. ground (arith, same i (omega arith)),
    )

Holds-append :
    (mem : Memory) (s : ℕ) (xs ys : List ℕ) (old : Memory)
    → Holds old s xs
    → ((a : ℕ) → a < s + length xs → mem a ≡ old a)
    → Holds mem (s + length xs) ys
    → Holds mem s (xs ++ ys)
Holds-append mem s [] ys old hx same hy = let e : s + 0 ≡ s = omega arith in rw e at hy
Holds-append mem s (x ∷ xs) ys old (a, b, c, hx) same hy =
    let e : s + suc (length xs) ≡ s + 1 + length xs = omega arith in
    (
      ground (arith, same s),
      b,
      c,
      Holds-append mem (s + 1) xs ys old hx (λ i u. same i (omega arith)) (rw e at hy),
    )

-- strcat appends the second string to the first one, if there is room apart from the second, and
-- changes nothing else.
pub strcat-append :
    (mem : Memory) (fuel s1 s2 : ℕ) (xs ys : List ℕ)
    → s1 ≢ 0
    → s2 ≢ 0
    → Holds mem s1 xs
    → Holds mem s2 ys
    → length xs < fuel
    → length ys < fuel
    → (s2 + length ys < s1 + length xs) ⊎ (s1 + length xs + length ys < s2)
    → (mem' : Memory) × (strcat fuel mem s1 s2 ≡ some (s1, mem'))
      × Holds mem' s1 (xs ++ ys)
      × ((a : ℕ) → (a < s1 + length xs) ⊎ (s1 + length xs + length ys < a) → mem' a ≡ mem a)
unfolding strcat
strcat-append mem fuel s1 s2 xs ys n1 n2 hx hy fx fy apart =
    let (mem', run, holds, same) = strcat_copy_lem mem fuel (s1 + length xs) s2 ys hy fy apart in
    (
      mem',
      ground (arith, strcat_end_lem mem fuel s1 xs hx fx, run),
      Holds-append mem' s1 xs ys mem hx (λ a u. same a (inl u)) holds,
      same,
    )
