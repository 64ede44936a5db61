-- ===== src/Kernel/Ipc/Calls.antt =====
-- Every way in which sys_sendrec of kernel/proc.c can end, from a valid state.
use dlos.Prelude.{
  ℕ_discrete, [], ◌∷◌, has, ℕ, ◌^◌, ◌<◌, ◌≡◌, ◌≢◌, refl, some, true, List, arith, inl, inr, ◌⊎◌,
  Bool-cases, Option-cases, sym, subst, update,
}
use dlos.Const.{nr_all, any, interrupt, send_function, receive_function}
use dlos.Kernel.Proc.{Table, Kernel, Run, done, stop, endless, panic, assertion, is_clear}
use dlos.Kernel.Sched.Scan.{Alone}
use dlos.Kernel.Ipc.{sys_sendrec}
use dlos.Kernel.Ipc.Base.{linear}
use dlos.Kernel.Ipc.Send.{accepts, msg_send}
use dlos.Kernel.Ipc.Receive.{msg_receive}
use dlos.Kernel.Ipc.Valid.{IsValid, va2la-linear}
use dlos.Kernel.Ipc.Waits.{Waits}
use dlos.Kernel.Ipc.Deliver.{msg_send-delivered}
use dlos.Kernel.Ipc.SendQueued.{msg_send-cases, msg_send-panic, deadlock-Waits}
use dlos.Kernel.Ipc.ReceiveTaken.{takes_interrupt, next_sender, msg_receive-popped}
use dlos.Kernel.Ipc.ReceiveWait.{msg_receive-interrupted, msg_receive-cases, msg_receive-pending}

pub data Outcome (t : Table) (function src_dest p : ℕ) : Run Kernel ℕ → Type 0 where
  -- It returns 0, and the invariant holds.
  returns :
      {k' : Kernel} (qs : ℕ → List ℕ)
      → IsValid k'.proc_table qs
      → Outcome t function src_dest p (done 0 k')
  -- The receiver waits for the sender: a deadlock, which panics.
  circle :
      function ≡ send_function → Waits t p src_dest → Outcome t function src_dest p (stop panic)
  -- The caller blocks and there is nobody to run: schedule() turns until an interrupt.
  nobody : Alone t p → Outcome t function src_dest p (stop endless)
  -- The caller waits for one process while an interrupt is pending.
  unexpected :
      function ≡ receive_function
      → (t p).has_int_msg ≡ true
      → src_dest < nr_all
      → Outcome t function src_dest p (stop (assertion 342))

module _ (k : Kernel) (qs : ℕ → List ℕ) (p src_dest m : ℕ) (v : IsValid k.proc_table qs)
    (hp : p < nr_all) (ready : is_clear (k.proc_table p).p_flags ≡ true) (ne : src_dest ≢ p)
    (msg : m ≢ 0) (small : m < 2 ^ 32) where
  by_result :
      {function : ℕ} {r r' : Run Kernel ℕ}
      → r ≡ r'
      → Outcome k.proc_table function src_dest p r'
      → Outcome k.proc_table function src_dest p r
  by_result {function} e o = subst (Outcome k.proc_table function src_dest p) (sym e) o

  send-Outcome :
      src_dest < nr_all → Outcome k.proc_table send_function src_dest p (msg_send p src_dest m k)
  send-Outcome hd = elim (Bool-cases (accepts k.proc_table src_dest p)) [
    | inl acc ↦
        let (run, valid) =
          msg_send-delivered k qs p src_dest m v hp hd (λ e. ne (sym e)) ready msg small acc in
        by_result run (returns qs valid)
    | inr no_acc ↦ elim (deadlock-Waits k qs p src_dest v hd) [
      | inl (walk, waits) ↦
          by_result (msg_send-panic k qs p src_dest m v hd (λ e. ne (sym e)) waits)
            (circle refl waits)
      | inr (walk, away) ↦
          elim (msg_send-cases k qs p src_dest m v hp hd (λ e. ne (sym e)) ready msg small no_acc
            away) [
              | inl (k', run, sch, valid) ↦ by_result run (returns _ valid)
              | inr (run, alone) ↦ by_result run (nobody alone)
            ]
    ]
  ]

  next_range :
      (from : ℕ) (xs : List ℕ)
      → qs p ≡ xs
      → next_sender src_dest xs ≡ some from
      → src_dest < nr_all ⊎ (src_dest ≡ any)
  next_range from [] e n = cc
  next_range from (x ∷ xs) e n = elim (ℕ_discrete src_dest any) [
    | yes a ↦ inr a
    | no a ↦
        let mem : has src_dest (x ∷ xs) ≡ true = ground arith in
        let mem' : has src_dest (qs p) ≡ true = rw e mem in inl (v.members p src_dest hp mem').0
  ]

  receive-Outcome :
      src_dest < nr_all ⊎ (src_dest ≡ any) ⊎ (src_dest ≡ interrupt)
      → Outcome k.proc_table receive_function src_dest p (msg_receive p src_dest m k)
  receive-Outcome range = elim (Bool-cases (takes_interrupt (k.proc_table p) src_dest)) [
    | inl pend ↦
        let (run, valid) = msg_receive-interrupted k qs p src_dest m v hp ready ne msg small pend in
        by_result run (returns qs valid)
    | inr no_int ↦ elim (Option-cases (next_sender src_dest (qs p))) [
      | inr (from, next) ↦
          let (prev, run, valid) =
            msg_receive-popped k qs p from m v hp ready msg small src_dest ne
              (next_range from (qs p) refl next) no_int next in
          by_result run (returns _ valid)
      | inl next ↦ elim (Bool-cases (k.proc_table p).has_int_msg) [
        | inr clear ↦
            elim (msg_receive-cases k qs p src_dest m v hp ready ne msg small range no_int next
              clear) [
                | inl (k', run, sch, valid) ↦ by_result run (returns qs valid)
                | inr (run, alone) ↦ by_result run (nobody alone)
              ]
        | inl pend ↦
            elim (msg_receive-pending k qs p src_dest m v hp ready ne msg small range no_int next
              pend) [
                | inl run ↦ by_result run (unexpected refl pend (ground arith))
                | inr (run, alone) ↦ by_result run (nobody alone)
              ]
      ]
    ]
  ]

-- The state once the caller's message names its source.
abbrev noted : Kernel → ℕ → ℕ → Kernel
noted k p m = record k {
  mail =
      update k.mail (linear k.proc_table p m)
        (record (k.mail (linear k.proc_table p m)) { source = p });
}

-- A system call of a ready process with a buffer, to send to a process of the table or to receive
-- from one, from ANY or from INTERRUPT: it returns 0 and keeps the invariant, or it panics because
-- the receiver waits for the sender, or nobody else can run, or it is a call to receive from one
-- process while an interrupt is pending, and the assert in line 342 fails. Nothing else happens.
pub sys_sendrec-Outcome :
    (k : Kernel) (qs : ℕ → List ℕ) (function p src_dest m : ℕ)
    → IsValid k.proc_table qs
    → p < nr_all
    → is_clear (k.proc_table p).p_flags ≡ true
    → src_dest ≢ p
    → m ≢ 0
    → m < 2 ^ 32
    → k.k_reenter ≡ 0
    → ((function ≡ send_function) × (src_dest < nr_all))
      ⊎ ((function ≡ receive_function)
          × (src_dest < nr_all ⊎ (src_dest ≡ any) ⊎ (src_dest ≡ interrupt)))
    → Outcome k.proc_table function src_dest p (sys_sendrec function src_dest m p k)
unfolding sys_sendrec
sys_sendrec-Outcome k qs function p src_dest m v hp ready ne msg small ring (inl (f, hd)) =
    subst (Outcome k.proc_table function src_dest p) (sym run)
      (rw f (send-Outcome (noted k p m) qs p src_dest m v hp ready ne msg small hd))
  where
    run : sys_sendrec function src_dest m p k ≡ msg_send p src_dest m (noted k p m)
    run = ground (arith, va2la-linear k p m (v.flat p) small)
sys_sendrec-Outcome k qs function p src_dest m v hp ready ne msg small ring (inr (f, range)) =
    subst (Outcome k.proc_table function src_dest p) (sym run)
      (rw f (receive-Outcome (noted k p m) qs p src_dest m v hp ready ne msg small range))
  where
    run : sys_sendrec function src_dest m p k ≡ msg_receive p src_dest m (noted k p m)
    run = ground (arith, va2la-linear k p m (v.flat p) small)
