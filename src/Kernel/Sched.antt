-- ===== src/Kernel/Sched.antt =====
-- schedule() of kernel/proc.c: the first of the ready processes with most ticks runs next.
pub mod Scan
pub mod Choice
use dlos.Prelude.{
  ℕ, zero, suc, ◌+◌, Option, none, some, Bool, ◌&&◌, ltb, ◌==◌, if◌then◌else◌, update,
}
use dlos.Const.{nr_all}
use dlos.Kernel.Proc.{Proc, Table, Kernel, Code, done, stop, endless, is_clear}

-- The first inner loop, with `n` entries left from entry `p` on: the greatest ticks so far, and
-- the process that has them.
unfoldable pub scan : Table → ℕ → ℕ → ℕ → ℕ → ℕ × ℕ
scan t zero p greatest ready = (greatest, ready)
scan t (suc n) p greatest ready =
    let better = is_clear (t p).p_flags && ltb greatest (t p).ticks in
    scan t n (p + 1) (if better then (t p).ticks else greatest) (if better then p else ready)

-- `p->ticks = p->priority`
abbrev pub topped : Proc → Proc
topped p = record p { ticks = p.priority }

-- The second inner loop: the ready processes get their priority as new ticks.
unfoldable pub refill : ℕ → ℕ → Table → Table
refill zero p t = t
refill (suc n) p t =
    refill n (p + 1) (if is_clear (t p).p_flags then update t p (topped (t p)) else t)

-- `while (!greatest_ticks)`, for at most `fuel` rounds. The rounds follow each other without an interrupt
-- in between: that is a step of its own, before or behind the call.
unfoldable pub schedule_loop : ℕ → Table → ℕ → Option (Table × ℕ)
schedule_loop zero t ready = none
schedule_loop (suc fuel) t ready =
    let (greatest, ready') = scan t nr_all 0 0 ready in
    let rest = schedule_loop fuel (refill nr_all 0 t) ready' in
    if greatest == 0 then rest else some (t, ready')

-- Two rounds are enough: a third finds nothing that the second did not, as long as no interrupt comes.
-- Without a process to run the code turns in the loop until an interrupt makes one ready.
unfoldable pub schedule : Code Kernel (Unit {0})
schedule k = elim (schedule_loop 2 k.proc_table k.p_proc_ready) [
  | none ↦ stop endless
  | some (t, ready) ↦ done tt (record k { proc_table = t; p_proc_ready = ready })
]
