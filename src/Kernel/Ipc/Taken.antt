-- ===== src/Kernel/Ipc/Taken.antt =====
-- The table and the invariant after msg_receive of kernel/proc.c has taken a message from a queue.
use dlos.Prelude.{
  ℕ, ◌<◌, ◌≡◌, ◌≢◌, refl, Option, none, some, true, false, List, ◌∷◌, arith, ◌==◌, if◌then◌else◌,
  has, Distinct, erase, update, inl, inr, has-erase, Distinct-erase, ℕ_discrete, Bool-cases,
  update_self, update_ne, subst, sym,
}
use dlos.Const.{nr_all, no_task}
use dlos.Kernel.Proc.{Proc, Table}
use dlos.Kernel.Ipc.Receive.{sent}
use dlos.Kernel.Ipc.Queue.{Chain, Chain-frame, Chain-erase, before}
use dlos.Kernel.Ipc.Waits.{Ends-stop}
use dlos.Kernel.Ipc.Valid.{IsValid}
use dlos.Kernel.Ipc.Enqueue.{alter, ended}

-- `from` out of the queue of `p`.
abbrev pub popped : (ℕ → List ℕ) → ℕ → ℕ → ℕ → List ℕ
popped qs p from = update qs p (erase from (qs p))

abbrev pub headed_to : Option ℕ → Proc → Proc
headed_to o r = record r { q_sending = o }

abbrev pub linked_to : Option ℕ → Proc → Proc
linked_to o r = record r { next_sending = o }

-- The writes of the unlinking; `prev` stands before `from`.
abbrev pub removed : Table → ℕ → ℕ → Option ℕ → Table
removed t p from none = alter (alter t p (headed_to (t from).next_sending)) from ended
removed t p from (some q) = alter (alter t q (linked_to (t from).next_sending)) from ended

abbrev pub taken : Table → ℕ → ℕ → Option ℕ → Table
taken t p from prev = alter (removed t p from prev) from sent

-- What the table after the change keeps.
pub record IsTaken (t t' : Table) (p from : ℕ) (xs : List ℕ) : Type 0 where
  pub self : t' from ≡ record (t from) {
    p_msg = 0;
    p_sendto = no_task;
    p_flags = record (t from).p_flags { sending = false };
    q_sending = (t' from).q_sending;
    next_sending = none;
  }
  pub other :
      (r : ℕ)
      → r ≢ from
      → t' r ≡ record (t r) { q_sending = (t' r).q_sending; next_sending = (t' r).next_sending }
  pub same_q : (r : ℕ) → r ≢ p → (t' r).q_sending ≡ (t r).q_sending
  pub same_next : (r : ℕ) → r ≢ from → has r xs ≡ false → (t' r).next_sending ≡ (t r).next_sending
  pub chain : Chain t' (t' p).q_sending (erase from xs)

-- From the head of the queue.
pub taken_head :
    (t : Table) (p from : ℕ) (ys : List ℕ)
    → p ≢ from
    → Distinct (from ∷ ys)
    → Chain t (t from).next_sending ys
    → IsTaken t (taken t p from none) p from (from ∷ ys)
taken_head t p from ys ne u c = record {
  self = ground arith;
  other = λ r n. ground arith;
  same_q = λ r n. ground arith;
  same_next = λ r n h. ground arith;
  chain = rw (q, ys') (Chain-frame t (taken t p from none) ys _ (λ r i. ground arith) c);
}
  where
    q : (taken t p from none p).q_sending ≡ (t from).next_sending
    q = ground arith

    ys' : erase from (from ∷ ys) ≡ ys
    ys' = ground arith

-- From behind another process.
pub taken_later :
    (t : Table) (p from x q : ℕ) (ys : List ℕ)
    → x ≢ from
    → Distinct (x ∷ ys)
    → has from ys ≡ true
    → before from (some x) ys ≡ some q
    → has q (x ∷ ys) ≡ true
    → q ≢ from
    → (t p).q_sending ≡ some x
    → Chain t (t x).next_sending ys
    → IsTaken t (taken t p from (some q)) p from (x ∷ ys)
taken_later t p from x q ys ne u h b i nq e c = record {
  self = ground arith;
  other = λ r n. ground arith;
  same_q = λ r n. ground arith;
  same_next = λ r n o. ground arith;
  chain =
      rw (q', xs')
        (
          refl,
          Chain-erase t (taken t p from (some q)) from q x ys u ne h b c (ground arith)
              (λ r j n m. ground arith),
        );
}
  where
    q' : (taken t p from (some q) p).q_sending ≡ some x
    q' = ground arith

    xs' : erase from (x ∷ ys) ≡ x ∷ erase from ys
    xs' = ground arith

module _ (t t' : Table) (qs : ℕ → List ℕ) (p from : ℕ) (v : IsValid t qs) (hp : p < nr_all)
    (hf : from < nr_all) (mem : has from (qs p) ≡ true) (is : IsTaken t t' p from (qs p)) where
  open is use {self, other, same_q, same_next, chain}

  sends : ((t from).p_flags.sending ≡ true) × ((t from).p_sendto ≡ p)
  sends = let (a, b, c) = v.members p from hp mem in (b, c)

  apart : (e r : ℕ) → e < nr_all → p ≢ e → has r (qs e) ≡ true → has r (qs p) ≡ false
  apart e r h away i = elim (Bool-cases (has r (qs p))) [
    | inl y ↦ absurd (omega (arith, (v.members p r hp y).2, (v.members e r h i).2))
    | inr n ↦ n
  ]

  elsewhere : (e : ℕ) → e < nr_all → p ≢ e → has from (qs e) ≡ false
  elsewhere e h away = elim (Bool-cases (has from (qs e))) [
    | inl y ↦ absurd (omega (arith, sends.1, (v.members e from h y).2))
    | inr n ↦ n
  ]

  queue_lem : (e : ℕ) → e < nr_all → Chain t' (t' e).q_sending (popped qs p from e)
  queue_lem e h = elim (ℕ_discrete p e) [
    | yes same ↦
        subst (λ x. Chain t' (t' x).q_sending (popped qs p from x)) same
          (rw (update_self qs p (erase from (qs p))) chain)
    | no away ↦
        rw (update_ne qs p e (erase from (qs p)) away, same_q e (λ x. away (sym x)))
          (Chain-frame t t' (qs e) _
            (λ r i. same_next r (ground (arith, elsewhere e h away)) (apart e r h away i))
            (v.queue e h))
  ]

  distinct_lem : (e : ℕ) → e < nr_all → Distinct (popped qs p from e)
  distinct_lem e h = elim (ℕ_discrete p e) [
    | yes same ↦
        subst (λ x. Distinct (popped qs p from x)) same
          (rw (update_self qs p (erase from (qs p))) (Distinct-erase (qs p) from (v.distinct p hp)))
    | no away ↦ rw (update_ne qs p e (erase from (qs p)) away) (v.distinct e h)
  ]

  has-popped :
      (e x : ℕ)
      → has x (popped qs p from e)
        ≡ (if p == e then (if x == from then false else has x (qs e)) else has x (qs e))
  has-popped e x = ground (arith, has-erase (qs p) from x (v.distinct p hp))

  members_lem :
      (e x : ℕ)
      → e < nr_all
      → has x (popped qs p from e) ≡ true
      → (x < nr_all) × ((t' x).p_flags.sending ≡ true) × ((t' x).p_sendto ≡ e)
  members_lem e x h i = ground (arith, i, has-popped e x, v.members e x h, other x, elsewhere e h)

  listed_lem :
      (x : ℕ)
      → x < nr_all
      → (t' x).p_flags.sending ≡ true
      → ((t' x).p_sendto < nr_all) × (has x (popped qs p from (t' x).p_sendto) ≡ true)
  listed_lem x h i = ground (arith, i, has-popped (t' x).p_sendto x, v.listed x h, self, other x)

  pub taken-IsValid : IsValid t' (popped qs p from)
  taken-IsValid = record {
    queue = queue_lem;
    distinct = distinct_lem;
    members = members_lem;
    listed = listed_lem;
    phase = λ r h. ground (arith, self, other r, v.phase r h, sends);
    small = λ r h. ground (arith, self, other r, v.small r h);
    flat = λ r h. ground (arith, self, other r, v.flat r h);
    ends = λ r h.
        Ends-stop t t' from r (v.ends r h).0 (λ q n. ground (arith, other q n))
          (ground (arith, self)) (v.ends r h).1;
  }
