-- ===== src/Kernel/Ipc/Deliver.antt =====
-- msg_send of kernel/proc.c when the receiver waits.
use dlos.Prelude.{ℕ, ◌^◌, ◌<◌, ◌≡◌, ◌≢◌, true, false, List, arith, update}
use dlos.Const.{nr_all}
use dlos.Kernel.Proc.{Kernel, done, is_clear}
use dlos.Kernel.Ipc.Base.{linear, unblock}
use dlos.Kernel.Ipc.Send.{deadlock_walk, deadlock, accepts, received, deliver, msg_send}
use dlos.Kernel.Ipc.Valid.{IsValid, IsValid-same, va2la-linear, IsIdle-of_ready}

-- The state after a delivery: the receiver's buffer holds the message and the receiver is ready.
abbrev pub delivered : Kernel → ℕ → ℕ → ℕ → Kernel
delivered k s d m = record k {
  proc_table = update k.proc_table d (received (k.proc_table d));
  mail =
      update k.mail (linear k.proc_table d (k.proc_table d).p_msg)
        (k.mail (linear k.proc_table s m));
}

module _ (k : Kernel) (qs : ℕ → List ℕ) (s d m : ℕ) (v : IsValid k.proc_table qs) (hs : s < nr_all)
    (hd : d < nr_all) (ne : s ≢ d) (ready : is_clear (k.proc_table s).p_flags ≡ true) (msg : m ≢ 0)
    (small : m < 2 ^ 32) (acc : accepts k.proc_table d s ≡ true) where
  no_deadlock : deadlock s d k ≡ done false k
  unfolding deadlock deadlock_walk
  no_deadlock = ground (arith, v.phase d hd)

  deliver-delivered : deliver s d m k ≡ done tt (delivered k s d m)
  unfolding deliver unblock
  deliver-delivered = ground (
    arith,
    v.phase d hd,
    IsIdle-of_ready k.proc_table qs s v hs ready,
    va2la-linear k d (k.proc_table d).p_msg (v.flat d) (v.small d hd),
    va2la-linear k s m (v.flat s) small,
  )

  delivered-IsValid : IsValid (delivered k s d m).proc_table qs
  delivered-IsValid =
      IsValid-same k.proc_table _ qs v
        (λ p. record {
          q = ground arith;
          next = ground arith;
          sending = ground arith;
          sendto = ground arith;
          rw_segment = ground arith;
        })
        (λ p h. (ground (arith, v.phase p h, v.phase d hd), ground (arith, v.small p h)))

  -- A ready process sends to one that waits for it: the receiver's buffer gets the message, the
  -- receiver becomes ready, nothing else changes, no assert fails, and the queues are the same.
  pub msg_send-delivered :
      (msg_send s d m k ≡ done 0 (delivered k s d m)) × IsValid (delivered k s d m).proc_table qs
  unfolding msg_send
  msg_send-delivered = (ground (arith, no_deadlock, deliver-delivered), delivered-IsValid)
