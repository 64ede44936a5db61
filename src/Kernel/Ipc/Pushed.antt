-- ===== src/Kernel/Ipc/Pushed.antt =====
-- The invariant after a process has been queued by msg_send of kernel/proc.c. The table after the
-- change is any table with the facts that Enqueue proves of it.
use dlos.Prelude.{
  ℕ, ◌^◌, ◌<◌, ◌≡◌, ◌≢◌, true, false, List, [], ◌∷◌, ◌++◌, arith, ◌==◌, if◌then◌else◌, has,
  Distinct, update, inl, inr, has-append, Distinct-append, ℕ_discrete, Bool-cases, update_self,
  update_ne, subst, sym, ◌||◌,
}
use dlos.Const.{nr_all}
use dlos.Kernel.Proc.{Table, is_clear}
use dlos.Kernel.Ipc.Queue.{Chain, Chain-frame}
use dlos.Kernel.Ipc.Waits.{Waits, Ends-send}
use dlos.Kernel.Ipc.Valid.{IsValid, IsIdle-of_ready}
use dlos.Kernel.Ipc.Enqueue.{marked, addressed, ended}

-- `s` at the end of the queue of `d`.
abbrev pub pushed : (ℕ → List ℕ) → ℕ → ℕ → ℕ → List ℕ
pushed qs d s = update qs d (qs d ++ s ∷ [])

-- What the table `t'` after the change keeps of `t`.
pub record IsPushed (t t' : Table) (s d m : ℕ) (xs : List ℕ) : Type 0 where
  pub self : t' s ≡ ended (addressed d m (marked (t s)))
  pub other :
      (p : ℕ)
      → p ≢ s
      → t' p ≡ record (t p) { q_sending = (t' p).q_sending; next_sending = (t' p).next_sending }
  pub same_q : (p : ℕ) → p ≢ d → (t' p).q_sending ≡ (t p).q_sending
  pub same_next : (p : ℕ) → p ≢ s → has p xs ≡ false → (t' p).next_sending ≡ (t p).next_sending
  pub chain : Chain t' (t' d).q_sending (xs ++ s ∷ [])

module _ (t t' : Table) (qs : ℕ → List ℕ) (s d m : ℕ) (v : IsValid t qs) (hs : s < nr_all)
    (hd : d < nr_all) (ne : s ≢ d) (ready : is_clear (t s).p_flags ≡ true) (msg : m ≢ 0)
    (small : m < 2 ^ 32) (is : IsPushed t t' s d m (qs d)) where
  open is use {self, other, same_q, same_next, chain}

  -- A ready process is in no queue.
  not_queued : (e : ℕ) → e < nr_all → has s (qs e) ≡ false
  not_queued e h = elim (Bool-cases (has s (qs e))) [
    | inl y ↦ ground (arith, v.members e s h y)
    | inr n ↦ n
  ]

  -- No process is in two queues.
  apart : (e p : ℕ) → e < nr_all → d ≢ e → has p (qs e) ≡ true → has p (qs d) ≡ false
  apart e p h away i = elim (Bool-cases (has p (qs d))) [
    | inl y ↦ absurd (omega (arith, (v.members d p hd y).2, (v.members e p h i).2))
    | inr n ↦ n
  ]

  queue_lem : (e : ℕ) → e < nr_all → Chain t' (t' e).q_sending (pushed qs d s e)
  queue_lem e h = elim (ℕ_discrete d e) [
    | yes same ↦
        subst (λ x. Chain t' (t' x).q_sending (pushed qs d s x)) same
          (rw (update_self qs d (qs d ++ s ∷ [])) chain)
    | no away ↦
        rw (update_ne qs d e (qs d ++ s ∷ []) away, same_q e (λ x. away (sym x)))
          (Chain-frame t t' (qs e) _
            (λ p i. same_next p (ground (arith, not_queued e h)) (apart e p h away i))
            (v.queue e h))
  ]

  distinct_lem : (e : ℕ) → e < nr_all → Distinct (pushed qs d s e)
  distinct_lem e h = elim (ℕ_discrete d e) [
    | yes same ↦
        subst (λ x. Distinct (pushed qs d s x)) same
          (rw (update_self qs d (qs d ++ s ∷ []))
            (Distinct-append (qs d) s (v.distinct d hd) (not_queued d hd)))
    | no away ↦ rw (update_ne qs d e (qs d ++ s ∷ []) away) (v.distinct e h)
  ]

  has-pushed :
      (e x : ℕ)
      → has x (pushed qs d s e) ≡ (if d == e then has x (qs e) || x == s else has x (qs e))
  has-pushed e x = ground (arith, has-append x (qs d) (s ∷ []))

  members_lem :
      (e x : ℕ)
      → e < nr_all
      → has x (pushed qs d s e) ≡ true
      → (x < nr_all) × ((t' x).p_flags.sending ≡ true) × ((t' x).p_sendto ≡ e)
  members_lem e x h i =
      ground (arith, i, has-pushed e x, v.members e x h, self, other x, not_queued e h)

  listed_lem :
      (x : ℕ)
      → x < nr_all
      → (t' x).p_flags.sending ≡ true
      → ((t' x).p_sendto < nr_all) × (has x (pushed qs d s (t' x).p_sendto) ≡ true)
  listed_lem x h i = ground (arith, i, has-pushed (t' x).p_sendto x, v.listed x h, self, other x)

  pub pushed-IsValid : ¬ Waits t s d → IsValid t' (pushed qs d s)
  pushed-IsValid away = record {
    queue = queue_lem;
    distinct = distinct_lem;
    members = members_lem;
    listed = listed_lem;
    phase = λ p h. ground (arith, self, other p, v.phase p h, IsIdle-of_ready t qs s v hs ready);
    small = λ p h. ground (arith, self, other p, v.small p h);
    flat = λ p h. ground (arith, self, other p, v.flat p h);
    ends = λ p h.
        Ends-send t t' s d (v.ends d hd).0 p (v.ends p h).0 (λ q n. ground (arith, other q n))
          (ground (arith, self)) (ground (arith, self)) (λ e. ne (sym e)) away (v.ends d hd).1
          (v.ends p h).1;
  }
