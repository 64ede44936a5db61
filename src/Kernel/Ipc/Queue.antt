-- ===== src/Kernel/Ipc/Queue.antt =====
-- The queue of senders of a process in kernel/proc.c: the list that q_sending and next_sending link.
use dlos.Prelude.{
  ℕ, zero, suc, ◌<◌, ◌≡◌, ◌≢◌, Option, none, some, true, List, [], ◌∷◌, ◌++◌, arith, ◌==◌,
  if◌then◌else◌, length, has, Distinct, erase, Bool-cases, inl, inr,
}
use dlos.Kernel.Proc.{Table}
use dlos.Kernel.Ipc.Send.{last_sending}
use dlos.Kernel.Ipc.Receive.{find_prev}

-- From `o` the links lead through the processes `ps` and end there.
abbrev pub Chain : Table → Option ℕ → List ℕ → Type 0
Chain t o [] = o ≡ none
Chain t o (p ∷ ps) = (o ≡ some p) × Chain t (t p).next_sending ps

abbrev pub SameLink : Table → Table → ℕ → Type 0
SameLink t t' p = (t' p).next_sending ≡ (t p).next_sending

-- A chain survives any change that keeps the links of its processes.
pub Chain-frame :
    (t t' : Table) (xs : List ℕ) (o : Option ℕ)
    → ((p : ℕ) → has p xs ≡ true → SameLink t t' p)
    → Chain t o xs
    → Chain t' o xs
Chain-frame t t' [] o same c = c
Chain-frame t t' (x ∷ xs) o same c =
    (c.0, rw (same x (ground arith)) (Chain-frame t t' xs _ (λ p h. same p (ground arith)) c.1))

abbrev pub last_or : ℕ → List ℕ → ℕ
last_or q [] = q
last_or q (x ∷ xs) = last_or x xs

pub has-last_or : (q : ℕ) (xs : List ℕ) → has (last_or q xs) (q ∷ xs) ≡ true
has-last_or q [] = ground arith
has-last_or q (x ∷ xs) = ground (arith, has-last_or x xs)

-- The walk to the end of a queue finds its last process.
pub last_sending-last_or :
    (t : Table) (fuel q : ℕ) (xs : List ℕ)
    → length xs < fuel
    → Chain t (t q).next_sending xs
    → last_sending fuel t q ≡ some (last_or q xs)
unfolding last_sending
last_sending-last_or t zero q xs h c = absurd (omega arith)
last_sending-last_or t (suc fuel) q [] h c = rw (c, last_sending)
last_sending-last_or t (suc fuel) q (x ∷ xs) h c =
    rw (c.0, last_sending) (last_sending-last_or t fuel x xs (omega arith) c.1)

-- A process whose link ends the chain goes behind the last one.
pub Chain-append :
    (t t' : Table) (s q : ℕ) (xs : List ℕ)
    → Distinct (q ∷ xs)
    → Chain t (t q).next_sending xs
    → (t' s).next_sending ≡ none
    → (t' (last_or q xs)).next_sending ≡ some s
    → ((p : ℕ) → has p (q ∷ xs) ≡ true → p ≢ last_or q xs → SameLink t t' p)
    → Chain t' (t' q).next_sending (xs ++ s ∷ [])
Chain-append t t' s q [] d c end link same = (link, end)
Chain-append t t' s q (x ∷ xs) d c end link same = (
  ground (arith, same q, has-last_or x xs),
  Chain-append t t' s x xs d.1 c.1 end link (λ p h n. same p (ground arith) n),
)

abbrev pub before : ℕ → Option ℕ → List ℕ → Option ℕ
before src prev [] = prev
before src prev (x ∷ xs) = if x == src then prev else before src (some x) xs

-- The search in a queue finds the process before `src`.
pub find_prev-before :
    (t : Table) (src fuel : ℕ) (xs : List ℕ) (o prev : Option ℕ)
    → length xs < fuel
    → Chain t o xs
    → find_prev fuel t src o prev ≡ some (before src prev xs)
unfolding find_prev
find_prev-before t src zero xs o prev h c = absurd (omega arith)
find_prev-before t src (suc fuel) [] o prev h c = rw (c, find_prev)
find_prev-before t src (suc fuel) (x ∷ xs) o prev h c =
    rw (c.0, find_prev) (ground (arith, find_prev-before t src fuel xs (t x).next_sending (some x)))

-- Behind another process, what stands before `src` is in the chain.
pub before-has :
    (src x : ℕ) (ys : List ℕ)
    → has src ys ≡ true
    → (q : ℕ) × (before src (some x) ys ≡ some q) × (has q (x ∷ ys) ≡ true)
before-has src x [] h = cc
before-has src x (y ∷ ys) h = elim (Bool-cases (y == src)) [
  | inl e ↦ (x, ground arith, ground arith)
  | inr n ↦ let (q, b, i) = before-has src y ys (ground arith) in (q, ground arith, ground arith)
]

-- Past the first process there is one before `src`, and linking it to what follows `src` takes
-- `src` out.
pub Chain-erase :
    (t t' : Table) (src q x : ℕ) (ys : List ℕ)
    → Distinct (x ∷ ys)
    → x ≢ src
    → has src ys ≡ true
    → before src (some x) ys ≡ some q
    → Chain t (t x).next_sending ys
    → (t' q).next_sending ≡ (t src).next_sending
    → ((p : ℕ) → has p (x ∷ ys) ≡ true → p ≢ q → p ≢ src → SameLink t t' p)
    → Chain t' (t' x).next_sending (erase src ys)
Chain-erase t t' src q x [] d ne h b c link same = cc
Chain-erase t t' src q x (y ∷ ys) d ne h b c link same = elim (Bool-cases (y == src)) [
  | inl e ↦
      let link' : (t' x).next_sending ≡ (t y).next_sending = ground arith in
      rw (e, link')
        (Chain-frame t t' ys _ (λ p i. same p (ground arith) (ground arith) (ground arith)) c.1)
  | inr n ↦
      let (r, b', i) = before-has src y ys (ground arith) in
      rw n (
        ground (arith, b', i, same x),
        Chain-erase t t' src q y ys d.1 (ground arith) (ground arith) (ground arith) c.1 link
            (λ p j. same p (ground arith)),
      )
]

pub before-ne :
    (src x q : ℕ) (ys : List ℕ)
    → x ≢ src
    → has src ys ≡ true
    → before src (some x) ys ≡ some q
    → q ≢ src
before-ne src x q [] ne h b = cc
before-ne src x q (y ∷ ys) ne h b = elim (Bool-cases (y == src)) [
  | inl e ↦ ground arith
  | inr n ↦ before-ne src y q ys (ground arith) (ground arith) (ground arith)
]
