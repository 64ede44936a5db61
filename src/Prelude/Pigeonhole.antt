-- ===== src/Prelude/Pigeonhole.antt =====
-- Lists of numbers without repetition, and the pigeonhole principle that bounds their length.
use Prim.Native.Nat.{ℕ, zero, suc, ◌≤◌, ◌<◌}
use mathlib.Core.Path.{◌≡◌, refl}
use mathlib.Core.Bool.{Bool, true, false, ◌||◌}
use mathlib.Core.List.{List, [], ◌∷◌, ◌++◌}
use native.Mathlib.Omega.{arith}
use dlos.Prelude.Tests.{◌==◌, if◌then◌else◌}
use dlos.Prelude.Lists.{length, get_or}

abbrev pub has : ℕ → List ℕ → Bool
has a [] = false
has a (x ∷ xs) = a == x || has a xs

abbrev pub Distinct : List ℕ → Type 0
Distinct [] = Unit {0}
Distinct (x ∷ xs) = (has x xs ≡ false) × Distinct xs

-- The list without the first `a`.
abbrev pub erase : ℕ → List ℕ → List ℕ
erase a [] = []
erase a (x ∷ xs) = if x == a then xs else x ∷ erase a xs

pub has-append : (a : ℕ) (xs ys : List ℕ) → has a (xs ++ ys) ≡ (has a xs || has a ys)
has-append a [] ys = refl
has-append a (x ∷ xs) ys = ground (arith, has-append a xs ys)

pub Distinct-append :
    (xs : List ℕ) (a : ℕ) → Distinct xs → has a xs ≡ false → Distinct (xs ++ a ∷ [])
Distinct-append [] a d n = (refl, tt)
Distinct-append (x ∷ xs) a d n =
    (ground (arith, has-append x xs (a ∷ [])), Distinct-append xs a d.1 (ground arith))

pub has-erase :
    (xs : List ℕ) (a b : ℕ)
    → Distinct xs
    → has b (erase a xs) ≡ (if b == a then false else has b xs)
has-erase [] a b d = ground arith
has-erase (x ∷ xs) a b d = ground (arith, has-erase xs a b d.1)

pub Distinct-erase : (xs : List ℕ) (a : ℕ) → Distinct xs → Distinct (erase a xs)
Distinct-erase [] a d = tt
Distinct-erase (x ∷ xs) a d = ground (arith, has-erase xs a x d.1, Distinct-erase xs a d.1)

-- One value fewer: `N` is sent where `f n` would go.
squeeze : (ℕ → ℕ) → ℕ → ℕ → ℕ → ℕ
squeeze f n N i = if f i == N then f n else f i

-- An injective function from the numbers below `n` into those below `N` shows that `n` is no more.
pub pigeonhole :
    (n N : ℕ) (f : ℕ → ℕ)
    → ((i : ℕ) → i < n → f i < N)
    → ((i j : ℕ) → i < n → j < n → f i ≡ f j → i ≡ j)
    → n ≤ N
pigeonhole zero N f bound inj = omega arith
pigeonhole (suc n) zero f bound inj = absurd (omega (arith, bound 0 (omega arith)))
pigeonhole (suc n) (suc N) f bound inj = omega (arith, pigeonhole n N (squeeze f n N) bound' inj')
  where
    bound' : (i : ℕ) → i < n → squeeze f n N i < N
    bound' i h = unfold squeeze in ground (arith, bound i, bound n, inj i n)

    inj' : (i j : ℕ) → i < n → j < n → squeeze f n N i ≡ squeeze f n N j → i ≡ j
    inj' i j h k e = unfold squeeze in ground (arith, e, inj i j, inj i n, inj j n)

get_or-has : (xs : List ℕ) (i d : ℕ) → i < length xs → has (get_or xs i d) xs ≡ true
get_or-has [] i d h = absurd (omega arith)
get_or-has (x ∷ xs) zero d h = ground arith
get_or-has (x ∷ xs) (suc i) d h = ground (arith, get_or-has xs i d)

get_or-injective :
    (xs : List ℕ) (i j d : ℕ)
    → Distinct xs
    → i < length xs
    → j < length xs
    → get_or xs i d ≡ get_or xs j d
    → i ≡ j
get_or-injective [] i j d u h k e = absurd (omega arith)
get_or-injective (x ∷ xs) zero zero d u h k e = refl
get_or-injective (x ∷ xs) zero (suc j) d u h k e = ground (arith, get_or-has xs j d)
get_or-injective (x ∷ xs) (suc i) zero d u h k e = ground (arith, get_or-has xs i d)
get_or-injective (x ∷ xs) (suc i) (suc j) d u h k e = ground (arith, get_or-injective xs i j d u.1)

-- Distinct numbers below `N` are at most `N`.
pub length-le-bound :
    (xs : List ℕ) (N : ℕ) → Distinct xs → ((a : ℕ) → has a xs ≡ true → a < N) → length xs ≤ N
length-le-bound xs N d bound =
    pigeonhole (length xs) N (λ i. get_or xs i 0) (λ i h. bound _ (get_or-has xs i 0 h))
      (λ i j h k. get_or-injective xs i j 0 d h k)
