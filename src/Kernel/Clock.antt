-- ===== src/Kernel/Clock.antt =====
-- clock_handler of kernel/clock.c, and the service of task_sys (kernel/systask.c).
mod Tests
use dlos.Prelude.{
  ℕ, suc, ◌+◌, ◌-◌, ◌<◌, ◌≤◌, ◌≡◌, ◌≢◌, refl, ◌⊎◌, inl, inr, Bool, true, false, not, ◌||◌, ltb, leb,
  ◌==◌, if◌then◌else◌, List, arith, update, Bool-cases, ◌∙◌, ap, sym,
}
use dlos.Const.{nr_all, task_tty, max_ticks, get_ticks_type, get_pid_type, syscall_ret}
use dlos.Kernel.Proc.{
  Proc, Table, Message, Kernel, Code, done, panic, pure, ◌>>=◌, ◌>>◌, halt, get, modify, is_clear,
  >>=-done,
}
use dlos.Kernel.Sched.{schedule}
use dlos.Kernel.Sched.Scan.{IsReady}
use dlos.Kernel.Sched.Choice.{Scheduled, schedule-Scheduled}
use dlos.Kernel.Ipc.Receive.{inform_int}
use dlos.Kernel.Ipc.Valid.{IsValid, IsValid-same}
use dlos.Kernel.Ipc.SendQueued.{Scheduled-IsValid}
use dlos.Kernel.Ipc.Inform.{informed, expects_interrupt, inform_int-informed}

-- The clock goes on, and the running process uses up a tick.
abbrev pub ticked : Kernel → Kernel
ticked k =
    let r = k.proc_table k.p_proc_ready in
    record k {
      ticks = if leb max_ticks (k.ticks + 1) then 0 else k.ticks + 1;
      proc_table =
          if r.ticks == 0
          then k.proc_table
          else update k.proc_table k.p_proc_ready (record r { ticks = r.ticks - 1 });
    }

-- The end of the handler.
unfoldable pub maybe_schedule : Code Kernel (Unit {0})
maybe_schedule = do
  k ← get
  if not (k.k_reenter == 0)
      then pure tt
      else if ltb 0 (k.proc_table k.p_proc_ready).ticks
      then pure tt
      else schedule

unfoldable pub clock_handler : Code Kernel (Unit {0})
clock_handler = do
  modify ticked
  k ← get
  if k.key_pressed then inform_int task_tty else pure tt
  maybe_schedule

-- The reply of task_sys to a message with `ticks` on the clock: to whom it goes, and what it says.
unfoldable pub sys_reply : ℕ → Message → Code Kernel (ℕ × Message)
sys_reply ticks msg =
    if msg.type == get_ticks_type
    then pure (msg.source, record msg { m3i1 = ticks })
    else if msg.type == get_pid_type
    then pure (msg.source, record msg { type = syscall_ret; m3i2 = msg.source })
    else halt panic

-- Only the number of ticks of processes differs.
ticked-IsValid :
    (k : Kernel) (qs : ℕ → List ℕ) → IsValid k.proc_table qs → IsValid (ticked k).proc_table qs
ticked-IsValid k qs v =
    IsValid-same k.proc_table (ticked k).proc_table qs v
      (λ r. record {
        q = ground arith;
        next = ground arith;
        sending = ground arith;
        sendto = ground arith;
        rw_segment = ground arith;
      })
      (λ r i. (ground (arith, v.phase r i), ground (arith, v.small r i)))

-- A process stays ready, with its priority.
abbrev CanRun : Table → ℕ → Type 0
CanRun t w = (is_clear (t w).p_flags ≡ true) × (0 < (t w).priority)

ticked-CanRun : (k : Kernel) (w : ℕ) → CanRun k.proc_table w → CanRun (ticked k).proc_table w
ticked-CanRun k w (a, b) = (ground arith, ground arith)

informed-CanRun :
    (k : Kernel) (p w : ℕ) → CanRun k.proc_table w → CanRun (informed k p).proc_table w
informed-CanRun k p w (a, b) = (ground arith, ground arith)

abbrev notified_if : Bool → Kernel → Kernel
notified_if pressed k = if pressed then informed (ticked k) task_tty else ticked k

abbrev notified : Kernel → Kernel
notified k = notified_if k.key_pressed k

notify_run :
    (pressed : Bool) (k : Kernel) (qs : ℕ → List ℕ) (w : ℕ)
    → IsValid k.proc_table qs
    → CanRun k.proc_table w
    → ((if pressed then inform_int task_tty else pure tt) (ticked k)
        ≡ done tt (notified_if pressed k))
      × IsValid (notified_if pressed k).proc_table qs
      × CanRun (notified_if pressed k).proc_table w
notify_run true k qs w v c =
    let (run, valid) =
      inform_int-informed (ticked k) qs task_tty (ticked-IsValid k qs v) (omega arith) in
    (run, valid, informed-CanRun (ticked k) task_tty w (ticked-CanRun k w c))
notify_run false k qs w v c = (refl, ticked-IsValid k qs v, ticked-CanRun k w c)

-- What the rest of the handler reads is as the first part left it.
notified_same :
    (pressed : Bool) (k : Kernel)
    → ((notified_if pressed k).k_reenter ≡ k.k_reenter)
      × ((notified_if pressed k).p_proc_ready ≡ k.p_proc_ready)
      × ((notified_if pressed k).ticks ≡ (ticked k).ticks)
      × (((notified_if pressed k).proc_table k.p_proc_ready).ticks
          ≡ (k.proc_table k.p_proc_ready).ticks - 1)
notified_same true k = (ground arith, ground arith, ground arith, ground arith)
notified_same false k = (refl, refl, refl, ground arith)

ticked_bound : (k : Kernel) → (ticked k).ticks < max_ticks
ticked_bound k = ground arith

-- A clock interrupt in a valid state in which some process can run: the handler ends, no assert
-- fails, the invariant holds, the clock has gone on or starts again below MAX_TICKS; and the running
-- process keeps the CPU if the interrupt came in the kernel or the process has a tick left.
pub clock_handler-IsValid :
    (k : Kernel) (qs : ℕ → List ℕ) (w : ℕ)
    → IsValid k.proc_table qs
    → w < nr_all
    → is_clear (k.proc_table w).p_flags ≡ true
    → 0 < (k.proc_table w).priority
    → (k' : Kernel) × (clock_handler k ≡ done tt k')
      × IsValid k'.proc_table qs
      × (k'.ticks < max_ticks)
      × ((k'.p_proc_ready ≡ k.p_proc_ready)
          ⊎ ((k.k_reenter ≡ 0) × ((k.proc_table k.p_proc_ready).ticks ≤ 1)))
unfolding clock_handler maybe_schedule
clock_handler-IsValid k qs w v hw ready some_priority =
    let (run, valid, can) = notify_run k.key_pressed k qs w v (ready, some_priority) in
    let first : clock_handler k ≡ maybe_schedule (notified k) =
      >>=-done (if k.key_pressed then inform_int task_tty else pure tt) (λ _. maybe_schedule) run in
    let (reenter, current, clock, left) = notified_same k.key_pressed k in
    let bound = ticked_bound k in
    elim (Bool-cases ((notified k).k_reenter == 0)) [
      | inr inside ↦
          (notified k, first ∙ rw inside refl, valid, omega (arith, clock, bound), inl current)
      | inl outside ↦
          elim (Bool-cases (ltb 0 ((notified k).proc_table (notified k).p_proc_ready).ticks)) [
            | inl more ↦ (
              notified k,
              first ∙ rw (outside, more) refl,
              valid,
              omega (arith, clock, bound),
              inl current,
            )
            | inr out ↦
                let (k', run', sch) =
                  schedule-Scheduled (notified k) w hw can.0 (omega (arith, can.1)) in
                let same_clock : k'.ticks ≡ (notified k).ticks =
                  ap (λ (x : Kernel). x.ticks) (sch.rest) in
                let none_left : ((notified k).proc_table k.p_proc_ready).ticks ≡ 0 =
                  ap (λ p. ((notified k).proc_table p).ticks) (sym current)
                  ∙ zero_of ((notified k).proc_table (notified k).p_proc_ready).ticks out in
                (
                  k',
                  first ∙ rw (outside, out) run',
                  Scheduled-IsValid (notified k) k' qs sch valid,
                  omega (arith, same_clock, clock, bound),
                  inr (ground (arith, reenter), omega (arith, none_left, left)),
                )
          ]
    ]
  where
    zero_of : (n : ℕ) → ltb 0 n ≡ false → n ≡ 0
    zero_of n e = ground arith
