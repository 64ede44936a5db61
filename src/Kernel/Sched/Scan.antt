-- ===== src/Kernel/Sched/Scan.antt =====
-- The two inner loops of schedule() of kernel/proc.c.
use dlos.Const.{nr_all}
use dlos.Prelude.{
  ℕ, zero, suc, ◌+◌, ◌≤◌, ◌<◌, ◌≡◌, ◌≢◌, refl, ◌⊎◌, inl, inr, true, false, ◌&&◌, ltb, if◌then◌else◌,
  arith, Bool-cases, update, not,
}
use dlos.Kernel.Proc.{Table, is_clear}
use dlos.Kernel.Sched.{topped, scan, refill}

-- `p` may run: no flag stops it.
abbrev pub IsReady : Table → ℕ → Type 0
IsReady t p = is_clear (t p).p_flags ≡ true

-- What a scan of the entries from `p` to `e` returns, started at `g` and `r`.
pub record Scanned (t : Table) (p e g r : ℕ) (out : ℕ × ℕ) : Type 0 where
  pub grows : g ≤ out.0
  pub most : (q : ℕ) → p ≤ q → q < e → IsReady t q → (t q).ticks ≤ out.0
  pub choice :
      (out ≡ (g, r))
      ⊎ ((p ≤ out.1)
          × (out.1 < e)
          × (g < out.0)
          × IsReady t out.1
          × ((t out.1).ticks ≡ out.0)
          × ((q : ℕ) → p ≤ q → q < out.1 → IsReady t q → (t q).ticks < out.0))

module _ (t : Table) (p e g r : ℕ) (out : ℕ × ℕ) (inside : p < e) where
  Scanned-take :
      (is_clear (t p).p_flags && ltb g (t p).ticks) ≡ true
      → Scanned t (p + 1) e (t p).ticks p out
      → Scanned t p e g r out
  Scanned-take y s = record {
    grows = ground (arith, s.grows);
    most = λ q a b c. ground (arith, s.most q, s.grows);
    choice = elim s.choice [
      | inl same ↦ inr (
        ground arith,
        ground arith,
        ground arith,
        ground arith,
        ground arith,
        λ q a b c. ground arith,
      )
      | inr (a, b, c, d, f, first) ↦
          inr (ground arith, b, ground arith, d, f, λ q i j l. ground (arith, first q, s.grows))
    ];
  }

  Scanned-skip :
      (is_clear (t p).p_flags && ltb g (t p).ticks) ≡ false
      → Scanned t (p + 1) e g r out
      → Scanned t p e g r out
  Scanned-skip n s = record {
    grows = s.grows;
    most = λ q a b c. ground (arith, s.most q, s.grows);
    choice = elim s.choice [
      | inl same ↦ inl same
      | inr (a, b, c, d, f, first) ↦
          inr (ground arith, b, c, d, f, λ q i j l. ground (arith, first q))
    ];
  }

pub scan-Scanned : (t : Table) (n p e g r : ℕ) → p + n ≡ e → Scanned t p e g r (scan t n p g r)
unfolding scan
scan-Scanned t zero p e g r h = record {
  grows = omega arith;
  most = λ q a b c. absurd (omega arith);
  choice = inl refl;
}
scan-Scanned t (suc n) p e g r h = elim (Bool-cases (is_clear (t p).p_flags && ltb g (t p).ticks)) [
  | inl y ↦ rw y (
      Scanned-take t p e g r _ (omega arith) y
        (scan-Scanned t n (p + 1) e (t p).ticks p (omega arith)))
  | inr n' ↦
      rw n'
        (Scanned-skip t p e g r _ (omega arith) n' (scan-Scanned t n (p + 1) e g r (omega arith)))
]

-- Only the ticks of the ready processes from `p` to `e` change.
pub refill_lem :
    (n p e : ℕ) (t : Table) (q : ℕ)
    → p + n ≡ e
    → refill n p t q
      ≡ (if not (ltb q p) && ltb q e && is_clear (t q).p_flags then topped (t q) else t q)
unfolding refill
refill_lem zero p e t q h = ground arith
refill_lem (suc n) p e t q h = elim (Bool-cases (is_clear (t p).p_flags)) [
  | inl y ↦ rw y (ground (arith, refill_lem n (p + 1) e (update t p (topped (t p))) q))
  | inr y ↦ rw y (ground (arith, refill_lem n (p + 1) e t q))
]

-- Nobody but `p` could run.
abbrev pub Alone : Table → ℕ → Type 0
Alone t p = (q : ℕ) → q < nr_all → q ≢ p → IsReady t q → (t q).ticks + (t q).priority ≡ 0
