-- ===== src/Kernel/Ipc/Waits.antt =====
-- Who waits for whom in kernel/proc.c: the walk along p_sendto that deadlock() makes.
use dlos.Prelude.{
  ℕ, zero, suc, ◌-◌, ◌≤◌, ◌<◌, ◌≡◌, ◌≢◌, refl, ◌⊎◌, inl, inr, some, true, false, arith, ap,
  pigeonhole, ℕ_discrete,
}
use dlos.Const.{nr_all}
use dlos.Kernel.Proc.{Table}
use dlos.Kernel.Ipc.Send.{deadlock_walk}

-- From `p` the walk ends after `n` processes that send, at one that does not.
pub data Ends (t : Table) : ℕ → ℕ → Type 0 where
  stops : {p : ℕ} → (t p).p_flags.sending ≡ false → Ends t p zero
  goes : {p n : ℕ} → (t p).p_flags.sending ≡ true → Ends t (t p).p_sendto n → Ends t p (suc n)

-- `p` waits for `q`: it sends to it, or to one that waits for it.
pub data Waits (t : Table) (q : ℕ) : ℕ → Type 0 where
  direct : {p : ℕ} → (t p).p_flags.sending ≡ true → (t p).p_sendto ≡ q → Waits t q p
  through : {p : ℕ} → (t p).p_flags.sending ≡ true → Waits t q (t p).p_sendto → Waits t q p

-- Sending processes send to processes of the table.
abbrev pub Closed : Table → Type 0
Closed t = (p : ℕ) → p < nr_all → (t p).p_flags.sending ≡ true → (t p).p_sendto < nr_all

not-Waits_of_stop : (t : Table) (q p : ℕ) → (t p).p_flags.sending ≡ false → ¬ Waits t q p
not-Waits_of_stop t q p e (direct s h) = cc
not-Waits_of_stop t q p e (through s h) = cc

not-Waits_of_next :
    (t : Table) (q p : ℕ) → (t p).p_sendto ≢ q → ¬ Waits t q (t p).p_sendto → ¬ Waits t q p
not-Waits_of_next t q p ne n (direct s h) = ne h
not-Waits_of_next t q p ne n (through s h) = n h

-- With enough fuel the walk says whether `src` is waited for.
pub deadlock_walk-Waits :
    (t : Table) (src fuel p n : ℕ)
    → Ends t p n
    → n < fuel
    → ((deadlock_walk fuel t src p ≡ some true) × Waits t src p)
      ⊎ ((deadlock_walk fuel t src p ≡ some false) × ¬ Waits t src p)
unfolding deadlock_walk
deadlock_walk-Waits t src zero p n e h = absurd (omega arith)
deadlock_walk-Waits t src (suc fuel) p zero (stops s) h =
    inr (rw s refl, not-Waits_of_stop t src p s)
deadlock_walk-Waits t src (suc fuel) p (suc n) (goes s e) h = elim (ℕ_discrete (t p).p_sendto src) [
  | yes hit ↦ inl (ground arith, direct s hit)
  | no miss ↦ elim (deadlock_walk-Waits t src fuel (t p).p_sendto n e (omega arith)) [
    | inl (w, d) ↦ inl (ground (arith, w), through s d)
    | inr (w, d) ↦ inr (ground (arith, w), not-Waits_of_next t src p miss d)
  ]
]

pub Ends-unique : (t : Table) (p n m : ℕ) → Ends t p n → Ends t p m → n ≡ m
Ends-unique t p zero zero (stops s) (stops u) = refl
Ends-unique t p zero (suc m) (stops s) (goes u f) = cc
Ends-unique t p (suc n) zero (goes s e) (stops u) = cc
Ends-unique t p (suc n) (suc m) (goes s e) (goes u f) = ap suc (Ends-unique t _ n m e f)

-- The process after `i` steps of the walk.
hop : Table → ℕ → ℕ → ℕ
hop t p zero = p
hop t p (suc i) = hop t (t p).p_sendto i

Ends-hop : (t : Table) (p n i : ℕ) → Ends t p n → i ≤ n → Ends t (hop t p i) (n - i)
unfolding hop
Ends-hop t p zero zero e h = e
Ends-hop t p (suc n) zero e h = let k : suc n - 0 ≡ suc n = omega arith in rw k e
Ends-hop t p zero (suc i) e h = absurd (omega arith)
Ends-hop t p (suc n) (suc i) (goes s e) h =
    let k : suc n - suc i ≡ n - i = omega arith in rw k (Ends-hop t _ n i e (omega arith))

hop-lt : (t : Table) (p n i : ℕ) → Closed t → Ends t p n → i ≤ n → p < nr_all → hop t p i < nr_all
unfolding hop
hop-lt t p zero zero c e h b = b
hop-lt t p (suc n) zero c e h b = b
hop-lt t p zero (suc i) c e h b = absurd (omega arith)
hop-lt t p (suc n) (suc i) c (goes s e) h b = hop-lt t _ n i c e (omega arith) (c p b s)

-- A walk that ends visits no process twice, so it is shorter than the table.
pub Ends-lt : (t : Table) (p n : ℕ) → Closed t → p < nr_all → Ends t p n → n < nr_all
Ends-lt t p n c b e =
    pigeonhole (suc n) nr_all (hop t p) (λ i h. hop-lt t p n i c e (omega arith) b) inj
  where
    same : (i j : ℕ) → i ≤ n → j ≤ n → hop t p i ≡ hop t p j → n - i ≡ n - j
    same i j h k eq =
        Ends-unique t (hop t p j) (n - i) (n - j) (rw eq at (Ends-hop t p n i e h))
          (Ends-hop t p n j e k)

    inj : (i j : ℕ) → i < suc n → j < suc n → hop t p i ≡ hop t p j → i ≡ j
    inj i j h k eq = omega (arith, same i j (omega arith) (omega arith) eq)

-- What a process waits for is the same in both tables.
abbrev pub SameWait : Table → Table → ℕ → Type 0
SameWait t t' p =
    ((t' p).p_flags.sending ≡ (t p).p_flags.sending)
    × ((t p).p_flags.sending ≡ true → (t' p).p_sendto ≡ (t p).p_sendto)

Ends-frame :
    (t t' : Table) (s p n : ℕ)
    → ((q : ℕ) → q ≢ s → SameWait t t' q)
    → p ≢ s
    → ¬ Waits t s p
    → Ends t p n
    → Ends t' p n
Ends-frame t t' s p zero same ne away (stops e) = stops (ground (arith, same p ne))
Ends-frame t t' s p (suc n) same ne away (goes e r) = goes (ground (arith, same p ne)) (
    rw ((same p ne).1 e)
      (Ends-frame t t' s _ n same (λ h. away (direct e h)) (λ w. away (through e w)) r))

-- When `s` starts to send to `d`, which does not wait for `s`, every walk still ends.
pub Ends-send :
    (t t' : Table) (s d k p n : ℕ)
    → ((q : ℕ) → q ≢ s → SameWait t t' q)
    → (t' s).p_flags.sending ≡ true
    → (t' s).p_sendto ≡ d
    → d ≢ s
    → ¬ Waits t s d
    → Ends t d k
    → Ends t p n
    → (m : ℕ) × Ends t' p m
Ends-send t t' s d k p zero same y to ne away ed (stops e) = elim (ℕ_discrete p s) [
  | yes h ↦ (suc k, rw h (goes y (rw to (Ends-frame t t' s d k same ne away ed))))
  | no h ↦ (zero, stops (ground (arith, same p h)))
]
Ends-send t t' s d k p (suc n) same y to ne away ed (goes e r) = elim (ℕ_discrete p s) [
  | yes h ↦ (suc k, rw h (goes y (rw to (Ends-frame t t' s d k same ne away ed))))
  | no h ↦
      let (m, r') = Ends-send t t' s d k _ n same y to ne away ed r in
      (suc m, goes (ground (arith, same p h)) (rw ((same p h).1 e) r'))
]

-- When `s` stops sending, every walk still ends.
pub Ends-stop :
    (t t' : Table) (s p n : ℕ)
    → ((q : ℕ) → q ≢ s → SameWait t t' q)
    → (t' s).p_flags.sending ≡ false
    → Ends t p n
    → (m : ℕ) × Ends t' p m
Ends-stop t t' s p zero same y (stops e) = elim (ℕ_discrete p s) [
  | yes h ↦ (zero, rw h (stops y))
  | no h ↦ (zero, stops (ground (arith, same p h)))
]
Ends-stop t t' s p (suc n) same y (goes e r) = elim (ℕ_discrete p s) [
  | yes h ↦ (zero, rw h (stops y))
  | no h ↦
      let (m, r') = Ends-stop t t' s _ n same y r in
      (suc m, goes (ground (arith, same p h)) (rw ((same p h).1 e) r'))
]

-- A change that keeps every wait keeps every walk.
pub Ends-same : (t t' : Table) (p n : ℕ) → ((q : ℕ) → SameWait t t' q) → Ends t p n → Ends t' p n
Ends-same t t' p zero same (stops e) = stops (ground (arith, same p))
Ends-same t t' p (suc n) same (goes e r) =
    goes (ground (arith, same p)) (rw ((same p).1 e) (Ends-same t t' _ n same r))
