-- ===== src/Prelude/Bits.antt =====
-- Laws of the bit operations at variables: masks, and `|` of fields that do not overlap. A native
-- operation stands for a recursion on binary digits with fuel, which is dropped here.
use Prim.Native.Nat.{min, max, bit_and, bit_or, digits, bit_and-bitwise, bit_or-bitwise}
use Prim.Native.Nat.{ℕ, zero, suc, ◌+◌, ◌*◌, ◌-◌, ◌/◌, ◌%◌, ◌^◌, ◌≤◌, ◌<◌}
use mathlib.Core.Path.{◌≡◌, refl, sym, ◌∙◌, ap}
use native.Mathlib.Nat.{div-add-mod', mod-lt, mul-add-mod_self_right, mod-eq_of_lt, one-le-pow}
use native.Mathlib.Omega.{arith}

module _ (z : ℕ → ℕ) (f : ℕ → ℕ → ℕ) where
  -- A round more than `a` needs.
  stable : (n a b : ℕ) → a ≤ n → digits z f (suc n) a b ≡ digits z f n a b
  stable zero zero b h = refl
  stable (suc n) zero b h = refl
  stable zero (suc a) b h = absurd (omega arith)
  stable (suc n) (suc a) b h =
      ap (λ r. r * 2 + f (suc a % 2) (b % 2)) (stable n (suc a / 2) (b / 2) (omega arith))

  settled : (j n a b : ℕ) → a ≤ n → digits z f (j + n) a b ≡ digits z f n a b
  settled zero n a b h = ap (λ k. digits z f k a b) (omega arith)
  settled (suc j) n a b h =
      let next : suc j + n ≡ suc (j + n) = omega arith in
      ap (λ k. digits z f k a b) next ∙ stable (j + n) a b (omega arith) ∙ settled j n a b h

  halves : (a b : ℕ) → digits z f a (suc a / 2) (b / 2) ≡ digits z f (suc a / 2) (suc a / 2) (b / 2)
  halves a b =
      let h = suc a / 2 in
      let rounds : a ≡ a - h + h = omega arith in
      ap (λ n. digits z f n h (b / 2)) rounds ∙ settled (a - h) h h (b / 2) (omega arith)

pub bit_or-halves : (a b : ℕ) → bit_or a b ≡ max (a % 2) (b % 2) + 2 * bit_or (a / 2) (b / 2)
bit_or-halves zero b =
    let left = bit_or-bitwise 0 b in
    let half = bit_or-bitwise 0 (b / 2) in omega (arith, left, half)
bit_or-halves (suc a) b =
    let whole = bit_or-bitwise (suc a) b in
    let half = bit_or-bitwise (suc a / 2) (b / 2) in
    omega (arith, whole, half, halves (λ y. y) max a b)

pub bit_and-halves : (a b : ℕ) → bit_and a b ≡ min (a % 2) (b % 2) + 2 * bit_and (a / 2) (b / 2)
bit_and-halves zero b =
    let left = bit_and-bitwise 0 b in
    let half = bit_and-bitwise 0 (b / 2) in omega (arith, left, half)
bit_and-halves (suc a) b =
    let whole = bit_and-bitwise (suc a) b in
    let half = bit_and-bitwise (suc a / 2) (b / 2) in
    omega (arith, whole, half, halves (λ _. 0) min a b)

-- An operation whose digits commute does so itself.
module _ (op f : ℕ → ℕ → ℕ) (low : (a b : ℕ) → op a b ≡ f (a % 2) (b % 2) + 2 * op (a / 2) (b / 2))
    (digits_comm : (x y : ℕ) → f x y ≡ f y x) where
  swapped : (n a b : ℕ) → a + b ≤ n → op a b ≡ op b a
  swapped n zero zero h = refl
  swapped zero (suc a) b h = absurd (omega arith)
  swapped zero zero (suc b) h = absurd (omega arith)
  swapped (suc n) a b h =
      let rest = swapped n (a / 2) (b / 2) (omega arith) in
      omega (arith, low a b, low b a, rest, digits_comm (a % 2) (b % 2))

pub bit_or_comm : (a b : ℕ) → bit_or a b ≡ bit_or b a
bit_or_comm a b = swapped bit_or max bit_or-halves (λ x y. omega arith) (a + b) a b (omega arith)

bit_or-zero : (a : ℕ) → bit_or a 0 ≡ a
bit_or-zero a = bit_or_comm a 0 ∙ bit_or-bitwise 0 a

bit_and-zero : (a : ℕ) → bit_and a 0 ≡ 0
bit_and-zero a =
    swapped bit_and min bit_and-halves (λ x y. omega arith) (a + 0) a 0 (omega arith)
    ∙ bit_and-bitwise 0 a

-- A field of `k` bits below a value that is shifted by `k`.
pub bit_or-apart : (k a b : ℕ) → b < 2 ^ k → bit_or (a * 2 ^ k) b ≡ a * 2 ^ k + b
bit_or-apart zero a b h =
    let none_left : b ≡ 0 = omega arith in rw none_left (omega (arith, bit_or-zero (a * 1)))
bit_or-apart (suc k) a b h =
    let c = 2 ^ k in
    let twice : 2 ^ suc k ≡ c * 2 = omega arith in
    let shifted : a * 2 ^ suc k ≡ a * c * 2 = ap (λ x. a * x) twice ∙ omega arith in
    let half : a * c * 2 / 2 ≡ a * c = omega arith in
    let even : a * c * 2 % 2 ≡ 0 = omega arith in
    let small : b / 2 < 2 ^ k = omega (arith, h) in
    rw shifted (
      bit_or-halves (a * c * 2) b
      ∙ ap (λ x. max (a * c * 2 % 2) (b % 2) + 2 * bit_or x (b / 2)) half
      ∙ omega (arith, even, bit_or-apart k a (b / 2) small))

mod_double : (c a : ℕ) → 1 ≤ c → a % (c * 2) ≡ a / 2 % c * 2 + a % 2
mod_double c a pos =
    let h = a / 2 in
    let r = h % c * 2 + a % 2 in
    let parts = div-add-mod' h c in
    let small : h % c < c = mod-lt h (omega (arith, pos)) in
    let whole : a ≡ h / c * (c * 2) + r = grind (arith, parts) in
    ap (λ x. x % (c * 2)) whole
    ∙ mul-add-mod_self_right (h / c) (c * 2) r
    ∙ mod-eq_of_lt (omega (arith, small))

-- A mask of `k` ones.
pub bit_and_mask : (k a : ℕ) → bit_and a (2 ^ k - 1) ≡ a % 2 ^ k
bit_and_mask zero a = omega (arith, bit_and-zero a)
bit_and_mask (suc k) a =
    let c = 2 ^ k in
    let some_left : 1 ≤ c = one-le-pow k 2 (omega arith) in
    let twice : 2 ^ suc k ≡ c * 2 = omega arith in
    let mask : (2 ^ suc k - 1) / 2 ≡ c - 1 = omega (arith, some_left) in
    let odd : (2 ^ suc k - 1) % 2 ≡ 1 = omega (arith, some_left) in
    bit_and-halves a (2 ^ suc k - 1)
    ∙ ap (λ x. min (a % 2) ((2 ^ suc k - 1) % 2) + 2 * bit_and (a / 2) x) mask
    ∙ omega (arith, odd, bit_and_mask k (a / 2), mod_double c a some_left)
    ∙ ap (λ m. a % m) (sym twice)
