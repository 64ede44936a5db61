-- ===== src/Kernel/Sched/Choice.antt =====
-- What schedule() of kernel/proc.c chooses, and when its loop ends.
use dlos.Prelude.{
  ℕ, suc, ◌+◌, ◌≤◌, ◌<◌, ◌≡◌, refl, ◌≢◌, ◌⊎◌, inl, inr, none, some, ◌&&◌, ltb, arith, ◌∙◌,
  Bool-cases, ap, ℕ_discrete,
}
use dlos.Const.{nr_all}
use dlos.Kernel.Proc.{Table, Kernel, done, stop, endless, is_clear}
use dlos.Kernel.Sched.{topped, scan, refill, schedule_loop, schedule}
use dlos.Kernel.Sched.Scan.{IsReady, scan-Scanned, refill_lem}

-- What schedule() promises when it returns.
pub record Scheduled (k k' : Kernel) : Type 0 where
  -- The chosen process may run, has ticks left, and no other ready process has more; of those
  -- with as many it is the first.
  pub in_range : k'.p_proc_ready < nr_all
  pub ready : IsReady k'.proc_table k'.p_proc_ready
  pub has_ticks : 0 < (k'.proc_table k'.p_proc_ready).ticks
  pub most :
      (q : ℕ)
      → q < nr_all
      → IsReady k'.proc_table q
      → (k'.proc_table q).ticks ≤ (k'.proc_table k'.p_proc_ready).ticks
  pub first :
      (q : ℕ)
      → q < k'.p_proc_ready
      → IsReady k'.proc_table q
      → (k'.proc_table q).ticks < (k'.proc_table k'.p_proc_ready).ticks
  -- The table is as before, or every ready process was out of ticks and got its priority.
  pub table :
      (k'.proc_table ≡ k.proc_table)
      ⊎ (((q : ℕ) → q < nr_all → IsReady k.proc_table q → (k.proc_table q).ticks ≡ 0)
          × (k'.proc_table ≡ refill nr_all 0 k.proc_table))
  pub rest : k' ≡ record k { proc_table = k'.proc_table; p_proc_ready = k'.p_proc_ready }

abbrev chosen : Kernel → Table → ℕ → Kernel
chosen k t r = record k { proc_table = t; p_proc_ready = r }

-- One round that finds a process.
round_finds :
    (k : Kernel) (t : Table) (r : ℕ)
    → (t ≡ k.proc_table)
      ⊎ (((q : ℕ) → q < nr_all → IsReady k.proc_table q → (k.proc_table q).ticks ≡ 0)
          × (t ≡ refill nr_all 0 k.proc_table))
    → (scan t nr_all 0 0 r).0 ≢ 0
    → Scheduled k (chosen k t (scan t nr_all 0 0 r).1)
round_finds k t r h ne = elim (scan-Scanned t nr_all 0 nr_all 0 r (omega arith)).choice [
  | inl same ↦ absurd (ne (ap (λ (x : ℕ × ℕ). x.0) same))
  | inr (a, b, c, d, f, first) ↦ record {
    in_range = b;
    ready = d;
    has_ticks = omega arith;
    most = λ q i j.
        omega (arith, (scan-Scanned t nr_all 0 nr_all 0 r (omega arith)).most q (omega arith) i j);
    first = λ q i j. omega (arith, first q (omega arith) i j);
    table = h;
    rest = refl;
  }
]

-- One round that finds none: no ready process has ticks, and the choice is kept.
round_misses :
    (t : Table) (r q : ℕ) → (scan t nr_all 0 0 r).0 ≡ 0 → q < nr_all → IsReady t q → (t q).ticks ≡ 0
round_misses t r q e i j =
    omega (arith, (scan-Scanned t nr_all 0 nr_all 0 r (omega arith)).most q (omega arith) i j)

-- The first round decides, or the second does: the loop's result after `n + 2` rounds.
loop_first :
    (n : ℕ) (t : Table) (r : ℕ)
    → (scan t nr_all 0 0 r).0 ≢ 0
    → schedule_loop (suc n) t r ≡ some (t, (scan t nr_all 0 0 r).1)
unfolding schedule_loop
loop_first n t r ne = ground arith

loop_again :
    (n : ℕ) (t : Table) (r : ℕ)
    → (scan t nr_all 0 0 r).0 ≡ 0
    → schedule_loop (suc n) t r ≡ schedule_loop n (refill nr_all 0 t) (scan t nr_all 0 0 r).1
unfolding schedule_loop
loop_again n t r e = ground arith

schedule_of_loop :
    (k : Kernel) (t : Table) (r : ℕ)
    → schedule_loop 2 k.proc_table k.p_proc_ready ≡ some (t, r)
    → schedule k ≡ done tt (chosen k t r)
unfolding schedule
schedule_of_loop k t r e = rw (e, schedule)

schedule_of_none :
    (k : Kernel) → schedule_loop 2 k.proc_table k.p_proc_ready ≡ none → schedule k ≡ stop endless
unfolding schedule
schedule_of_none k e = rw (e, schedule)

-- schedule() returns and keeps the promise of Scheduled, or its loop finds nothing and could only be
-- ended by an interrupt, and then no ready process has ticks or a priority to get them from.
pub schedule-cases :
    (k : Kernel)
    → ((k' : Kernel) × (schedule k ≡ done tt k') × Scheduled k k')
      ⊎ ((schedule k ≡ stop endless)
          × ((q : ℕ)
              → q < nr_all
              → IsReady k.proc_table q
              → (k.proc_table q).ticks + (k.proc_table q).priority ≡ 0))
schedule-cases k = elim (ℕ_discrete (scan t nr_all 0 0 s).0 0) [
  | no now ↦ inl (
    chosen k t r,
    schedule_of_loop k t r (loop_first 1 t s now),
    round_finds k t s (inl refl) now,
  )
  | yes e ↦ elim (ℕ_discrete (scan again nr_all 0 0 r).0 0) [
    | no now ↦ inl (
      chosen k again (scan again nr_all 0 0 r).1,
      schedule_of_loop k _ _ (loop_again 1 t s e ∙ loop_first 0 again r now),
      round_finds k again r (inr (λ q. round_misses t s q e, refl)) now,
    )
    | yes z ↦ inr (
      schedule_of_none k
          (loop_again 1 t s e ∙ loop_again 0 again r z ∙ unfold schedule_loop in refl),
      λ q i j.
          ground
            (arith, round_misses t s q e, round_misses again r q z, refill_lem nr_all 0 nr_all t q),
    )
  ]
]
  where
    t : Table
    t = k.proc_table

    s : ℕ
    s = k.p_proc_ready

    r : ℕ
    r = (scan t nr_all 0 0 s).1

    again : Table
    again = refill nr_all 0 t

pub schedule-Scheduled :
    (k : Kernel) (p : ℕ)
    → p < nr_all
    → IsReady k.proc_table p
    → 0 < (k.proc_table p).ticks + (k.proc_table p).priority
    → (k' : Kernel) × (schedule k ≡ done tt k') × Scheduled k k'
schedule-Scheduled k p i ready some_ticks = elim (schedule-cases k) [
  | inl result ↦ result
  | inr (never, idle) ↦ absurd (omega (arith, idle p i ready))
]

-- schedule() changes a process at most in its ticks.
pub Scheduled-ticks :
    (k k' : Kernel) (p : ℕ)
    → Scheduled k k'
    → (k'.proc_table p ≡ k.proc_table p) ⊎ (k'.proc_table p ≡ topped (k.proc_table p))
Scheduled-ticks k k' p s = elim s.table [
  | inl same ↦ inl (ap (λ (t : Table). t p) same)
  | inr (idle, e) ↦ elim (Bool-cases (ltb p nr_all && is_clear (k.proc_table p).p_flags)) [
    | inl y ↦
        inr (ap (λ (t : Table). t p) e ∙ ground (arith, refill_lem nr_all 0 nr_all k.proc_table p))
    | inr n ↦
        inl (ap (λ (t : Table). t p) e ∙ ground (arith, refill_lem nr_all 0 nr_all k.proc_table p))
  ]
]
