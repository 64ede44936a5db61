-- ===== src/Kernel/Ipc/SendQueued.antt =====
-- msg_send of kernel/proc.c when the receiver does not wait, and when it would close a circle.
use dlos.Prelude.{
  ℕ, zero, suc, ◌+◌, ◌^◌, ◌<◌, ◌≤◌, ◌≡◌, ◌≢◌, some, true, false, List, arith, inl, inr, has,
  length-le-bound, ◌⊎◌, Bool-cases,
}
use dlos.Const.{nr_all}
use dlos.Kernel.Proc.{Table, Kernel, done, stop, endless, panic, is_clear}
use dlos.Kernel.Sched.{schedule}
use dlos.Kernel.Sched.Scan.{IsReady, Alone}
use dlos.Kernel.Sched.Choice.{Scheduled, schedule-cases, Scheduled-ticks}
use dlos.Kernel.Ipc.Base.{block}
use dlos.Kernel.Ipc.Send.{
  deadlock_walk, deadlock_print, deadlock, accepts, append_sending, enqueue, msg_send,
}
use dlos.Kernel.Ipc.Queue.{Chain-frame}
use dlos.Kernel.Ipc.Waits.{
  Ends, stops, goes, direct, through, Closed, Waits, deadlock_walk-Waits, Ends-lt,
}
use dlos.Kernel.Ipc.Valid.{IsValid, IsValid-same, IsIdle-of_ready}
use dlos.Kernel.Ipc.Enqueue
use dlos.Kernel.Ipc.Enqueue.{queued, with_table, alter, marked, addressed}
use dlos.Kernel.Ipc.Pushed.{pushed, IsPushed, pushed-IsValid}

-- A run of schedule() keeps the invariant.
pub Scheduled-IsValid :
    (k k' : Kernel) (qs : ℕ → List ℕ)
    → Scheduled k k'
    → IsValid k.proc_table qs
    → IsValid k'.proc_table qs
Scheduled-IsValid k k' qs s v =
    IsValid-same k.proc_table k'.proc_table qs v
      (λ p. record {
        q = ground (arith, Scheduled-ticks k k' p s);
        next = ground (arith, Scheduled-ticks k k' p s);
        sending = ground (arith, Scheduled-ticks k k' p s);
        sendto = ground (arith, Scheduled-ticks k k' p s);
        rw_segment = ground (arith, Scheduled-ticks k k' p s);
      })
      (λ p h. ground (arith, Scheduled-ticks k k' p s, v.phase p h, v.small p h))

pub IsValid-Closed : (t : Table) (qs : ℕ → List ℕ) → IsValid t qs → Closed t
IsValid-Closed t qs v p h s = (v.listed p h s).0

-- deadlock() decides whether the receiver waits for the sender.
pub deadlock-Waits :
    (k : Kernel) (qs : ℕ → List ℕ) (s d : ℕ)
    → IsValid k.proc_table qs
    → d < nr_all
    → ((deadlock_walk (suc nr_all) k.proc_table s d ≡ some true) × Waits k.proc_table s d)
      ⊎ ((deadlock_walk (suc nr_all) k.proc_table s d ≡ some false) × ¬ Waits k.proc_table s d)
deadlock-Waits k qs s d v h =
    let (n, e) = v.ends d h in
    let short : n < nr_all = Ends-lt k.proc_table d n (IsValid-Closed k.proc_table qs v) h e in
    deadlock_walk-Waits k.proc_table s (suc nr_all) d n e (omega arith)

module _ (k : Kernel) (qs : ℕ → List ℕ) (s d m : ℕ) (v : IsValid k.proc_table qs) (hs : s < nr_all)
    (hd : d < nr_all) (ne : s ≢ d) (ready : is_clear (k.proc_table s).p_flags ≡ true) (msg : m ≢ 0)
    (small : m < 2 ^ 32) where
  out : has s (qs d) ≡ false
  out = elim (Bool-cases (has s (qs d))) [ inl y ↦ ground (arith, v.members d s hd y) | inr n ↦ n ]

  abbrev k1 : Kernel
  k1 = with_table k (queued k.proc_table s d m (qs d))

  queued-IsPushed : IsPushed k.proc_table k1.proc_table s d m (qs d)
  queued-IsPushed = record {
    self = Enqueue.queued_self k.proc_table s d m (qs d) ne out;
    other = Enqueue.queued_other k.proc_table s d m (qs d);
    same_q = Enqueue.queued_q k.proc_table s d m (qs d);
    same_next = Enqueue.queued_next k.proc_table s d m (qs d);
    chain = Enqueue.queued-Chain k.proc_table s d m (qs d) ne out (v.distinct d hd) (v.queue d hd);
  }

  abbrev k0 : Kernel
  k0 = with_table k (alter (alter k.proc_table s marked) s (addressed d m))

  append-k1 : append_sending s d k0 ≡ done tt k1
  append-k1 =
      Enqueue.append_sending-appended k0 s d (qs d)
        (rw (same_q)
          (Chain-frame k.proc_table k0.proc_table (qs d) _ (λ p i. ground arith) (v.queue d hd)))
        (length-le-bound (qs d) nr_all (v.distinct d hd) (λ a i. (v.members d a hd i).0))
    where
      same_q : (k0.proc_table d).q_sending ≡ (k.proc_table d).q_sending
      same_q = ground arith

  block-schedule : block s k1 ≡ schedule k1
  unfolding block
  block-schedule = ground (arith, queued-IsPushed.self)

  -- The sender after schedule() has run: the asserts behind block() hold.
  enqueue-schedule :
      (k' : Kernel) → schedule k1 ≡ done tt k' → Scheduled k1 k' → enqueue s d m k ≡ done tt k'
  unfolding enqueue
  enqueue-schedule k' run sch = ground (
    arith,
    append-k1,
    block-schedule,
    run,
    queued-IsPushed.self,
    Scheduled-ticks k1 k' s sch,
    IsIdle-of_ready k.proc_table qs s v hs ready,
  )

  enqueue-endless : schedule k1 ≡ stop endless → enqueue s d m k ≡ stop endless
  unfolding enqueue
  enqueue-endless never = ground (
    arith,
    append-k1,
    block-schedule,
    never,
    queued-IsPushed.self,
    IsIdle-of_ready k.proc_table qs s v hs ready,
  )

  -- The two ways in which the sender blocks.
  pub msg_send-cases :
      accepts k.proc_table d s ≡ false
      → ¬ Waits k.proc_table s d
      → ((k' : Kernel) × (msg_send s d m k ≡ done 0 k')
          × Scheduled (with_table k (queued k.proc_table s d m (qs d))) k'
          × IsValid k'.proc_table (pushed qs d s))
        ⊎ ((msg_send s d m k ≡ stop endless) × Alone k.proc_table s)
  unfolding msg_send deadlock
  msg_send-cases acc away = elim (schedule-cases k1) [
    | inl (k', run, sch) ↦ inl (
      k',
      ground (arith, deadlock-Waits k qs s d v hd, enqueue-schedule k' run sch),
      sch,
      Scheduled-IsValid k1 k' (pushed qs d s) sch (
          pushed-IsValid k.proc_table k1.proc_table qs s d m v hs hd ne ready msg small
            queued-IsPushed away),
    )
    | inr (never, idle) ↦ inr (
      ground (arith, deadlock-Waits k qs s d v hd, enqueue-endless never),
      λ q h n r. ground (arith, idle q h, queued-IsPushed.other q n),
    )
  ]

  -- A ready process sends to one that does not wait for it, no circle would close, and somebody else
  -- may run: the sender goes to the end of the receiver's queue and blocks, schedule() picks the
  -- next process, no assert fails, and the invariant holds with the longer queue.
  pub msg_send-pushed :
      (w : ℕ)
      → accepts k.proc_table d s ≡ false
      → ¬ Waits k.proc_table s d
      → w < nr_all
      → w ≢ s
      → IsReady k.proc_table w
      → 0 < (k.proc_table w).ticks + (k.proc_table w).priority
      → (k' : Kernel) × (msg_send s d m k ≡ done 0 k')
        × Scheduled (with_table k (queued k.proc_table s d m (qs d))) k'
        × IsValid k'.proc_table (pushed qs d s)
  msg_send-pushed w acc away hw nw can some_ticks = elim (msg_send-cases acc away) [
    | inl result ↦ result
    | inr (never, alone) ↦ absurd (omega (arith, alone w hw nw can))
  ]

print-Ends :
    (k : Kernel) (qs : ℕ → List ℕ) (s fuel p n : ℕ)
    → IsValid k.proc_table qs
    → p < nr_all
    → Ends k.proc_table p n
    → n ≤ fuel
    → Waits k.proc_table s p
    → deadlock_print fuel s p k ≡ done tt k
unfolding deadlock_print
print-Ends k qs s zero p zero v h (stops e) b (direct y to) = cc
print-Ends k qs s zero p zero v h (stops e) b (through y w) = cc
print-Ends k qs s zero p (suc n) v h (goes y e) b w = absurd (omega arith)
print-Ends k qs s (suc fuel) p zero v h (stops e) b (direct y to) = cc
print-Ends k qs s (suc fuel) p zero v h (stops e) b (through y w) = cc
print-Ends k qs s (suc fuel) p (suc n) v h (goes y e) b (direct y' to) = ground (arith, v.phase p h)
print-Ends k qs s (suc fuel) p (suc n) v h (goes y e) b (through y' w) = ground (
  arith,
  v.phase p h,
  print-Ends k qs s fuel (k.proc_table p).p_sendto n v (v.listed p h y).0 e (omega arith) w,
)

-- Where the receiver already waits for the sender, directly or through others, msg_send panics and
-- nobody is queued.
pub msg_send-panic :
    (k : Kernel) (qs : ℕ → List ℕ) (s d m : ℕ)
    → IsValid k.proc_table qs
    → d < nr_all
    → s ≢ d
    → Waits k.proc_table s d
    → msg_send s d m k ≡ stop panic
unfolding msg_send deadlock
msg_send-panic k qs s d m v hd ne w = ground (
  arith,
  deadlock-Waits k qs s d v hd,
  print-Ends k qs s (suc nr_all) d (v.ends d hd).0 v hd (v.ends d hd).1
      (omega (
        arith,
        Ends-lt k.proc_table d (v.ends d hd).0 (IsValid-Closed k.proc_table qs v) hd
            (v.ends d hd).1,
      ))
      w,
)
