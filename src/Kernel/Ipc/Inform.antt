-- ===== src/Kernel/Ipc/Inform.antt =====
-- inform_int of kernel/proc.c keeps the invariant.
use dlos.Prelude.{
  ℕ, ◌<◌, ◌≡◌, Bool, true, false, List, arith, ◌==◌, inl, inr, if◌then◌else◌, Bool-cases, update,
  ◌&&◌, ◌||◌,
}
use dlos.Const.{nr_all, no_task, any, interrupt, hard_int}
use dlos.Kernel.Proc.{Proc, Kernel, done}
use dlos.Kernel.Ipc.Base.{unblock}
use dlos.Kernel.Ipc.Receive.{inform_int}
use dlos.Kernel.Ipc.Valid.{IsValid, IsValid-same}
use dlos.Kernel.Ipc.Enqueue.{with_table, alter}

-- What inform_int leaves: a task that waits gets the message and is ready, and for any other the
-- interrupt is pending.
abbrev pub awakened : Proc → Proc
awakened r = record r {
  p_msg = 0;
  has_int_msg = false;
  p_flags = record r.p_flags { receiving = false };
  p_recvfrom = no_task;
}

abbrev pub pending : Proc → Proc
pending r = record r { has_int_msg = true }

abbrev pub expects_interrupt : Proc → Bool
expects_interrupt r = r.p_flags.receiving && (r.p_recvfrom == interrupt || r.p_recvfrom == any)

abbrev pub informed : Kernel → ℕ → Kernel
informed k p =
    if expects_interrupt (k.proc_table p)
    then record k {
      proc_table = alter k.proc_table p awakened;
      mail =
          update k.mail (k.proc_table p).p_msg
            (record (k.mail (k.proc_table p).p_msg) { source = interrupt; type = hard_int });
    }
    else with_table k (alter k.proc_table p pending)

-- An interrupt for a task: if the task waits for it, its buffer gets the message and it is ready;
-- otherwise the interrupt is kept. No assert fails and the queues are the same.
pub inform_int-informed :
    (k : Kernel) (qs : ℕ → List ℕ) (p : ℕ)
    → IsValid k.proc_table qs
    → p < nr_all
    → (inform_int p k ≡ done tt (informed k p)) × IsValid (informed k p).proc_table qs
unfolding inform_int unblock
inform_int-informed k qs p v h = elim (Bool-cases (expects_interrupt (k.proc_table p))) [
  | inl y ↦ (
    ground (arith, v.phase p h),
    rw y (
        IsValid-same k.proc_table _ qs v
          (λ r. record {
            q = ground arith;
            next = ground arith;
            sending = ground arith;
            sendto = ground arith;
            rw_segment = ground arith;
          })
          (λ r i. (ground (arith, v.phase r i, v.phase p h), ground (arith, v.small r i)))),
  )
  | inr n ↦ (
    ground arith,
    rw n (
        IsValid-same k.proc_table _ qs v
          (λ r. record {
            q = ground arith;
            next = ground arith;
            sending = ground arith;
            sendto = ground arith;
            rw_segment = ground arith;
          })
          (λ r i. (ground (arith, v.phase r i), ground (arith, v.small r i)))),
  )
]
