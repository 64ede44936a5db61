-- ===== src/Kernel/Ipc/ReceiveWait.antt =====
-- msg_receive of kernel/proc.c when it takes an interrupt, and when it waits.
use dlos.Prelude.{
  ℕ, ◌+◌, ◌^◌, ◌<◌, ◌≡◌, ◌≢◌, refl, none, true, false, List, [], ◌∷◌, arith, inl, inr, has, ◌⊎◌,
  update, ◌∙◌,
}
use dlos.Const.{nr_all, no_task, any, interrupt}
use dlos.Kernel.Proc.{Proc, Kernel, done, stop, endless, assertion, is_clear, pure, ◌>>◌}
use dlos.Kernel.Sched.{schedule}
use dlos.Kernel.Sched.Scan.{IsReady, Alone}
use dlos.Kernel.Sched.Choice.{Scheduled, schedule-cases, Scheduled-ticks}
use dlos.Kernel.Ipc.Base.{linear, block}
use dlos.Kernel.Ipc.Receive.{
  interrupt_message, receive_interrupt, wait_message, receive_from, receive_any, msg_receive,
}
use dlos.Kernel.Ipc.Queue.{Chain}
use dlos.Kernel.Ipc.Valid.{IsValid, IsValid-same, IsIdle, IsIdle-of_ready, va2la-linear}
use dlos.Kernel.Ipc.Enqueue.{with_table, alter}
use dlos.Kernel.Ipc.SendQueued.{Scheduled-IsValid}
use dlos.Kernel.Ipc.ReceiveTaken.{takes_interrupt, next_sender}

abbrev pub no_interrupt : Proc → Proc
no_interrupt r = record r { has_int_msg = false }

-- The state after `p` has taken its pending interrupt into its buffer `m`.
abbrev pub interrupted : Kernel → ℕ → ℕ → Kernel
interrupted k p m = record k {
  proc_table = alter k.proc_table p no_interrupt;
  mail = update k.mail (linear k.proc_table p m) interrupt_message;
}

abbrev pub waiting_for : ℕ → ℕ → Proc → Proc
waiting_for src m r = record r {
  p_flags = record r.p_flags { receiving = true };
  p_msg = m;
  p_recvfrom = src;
}

-- The state in which `p` waits for `src` with the buffer `m`.
abbrev pub waiting : Kernel → ℕ → ℕ → ℕ → Kernel
waiting k p src m = with_table k (alter k.proc_table p (waiting_for src m))

module _ (k : Kernel) (qs : ℕ → List ℕ) (p src m : ℕ) (v : IsValid k.proc_table qs)
    (hp : p < nr_all) (ready : is_clear (k.proc_table p).p_flags ≡ true) (ne : src ≢ p)
    (msg : m ≢ 0) (small : m < 2 ^ 32) where
  idle : IsIdle (k.proc_table p)
  idle = IsIdle-of_ready k.proc_table qs p v hp ready

  -- A pending interrupt that the call asks for comes before every message: the buffer gets the
  -- message HARD_INT from INTERRUPT, the interrupt is no longer pending, and the queues are the same.
  pub msg_receive-interrupted :
      takes_interrupt (k.proc_table p) src ≡ true
      → (msg_receive p src m k ≡ done 0 (interrupted k p m))
        × IsValid (interrupted k p m).proc_table qs
  unfolding msg_receive receive_interrupt
  msg_receive-interrupted pending = (
    ground (arith, idle, va2la-linear k p m (v.flat p) small),
    IsValid-same k.proc_table _ qs v
        (λ r. record {
          q = ground arith;
          next = ground arith;
          sending = ground arith;
          sendto = ground arith;
          rw_segment = ground arith;
        })
        (λ r h. (ground (arith, v.phase r h, v.phase p hp), ground (arith, v.small r h))),
  )

  any-wait : next_sender any (qs p) ≡ none → receive_any p m k ≡ wait_message p any m k
  unfolding receive_any
  any-wait n = go (qs p) n (v.queue p hp)
    where
      go :
          (xs : List ℕ)
          → next_sender any xs ≡ none
          → Chain k.proc_table (k.proc_table p).q_sending xs
          → receive_any p m k ≡ wait_message p any m k
      go [] n c = ground (arith, c)
      go (x ∷ xs) n c = cc

  not_there : (xs : List ℕ) → src ≢ any → next_sender src xs ≡ none → has src xs ≡ false
  not_there [] a n = refl
  not_there (x ∷ xs) a n = ground arith

  from-wait :
      src < nr_all
      → src ≢ any
      → next_sender src (qs p) ≡ none
      → receive_from p src m k ≡ wait_message p src m k
  unfolding receive_from
  from-wait h a n = ground (arith, v.listed src h, not_there (qs p) a n)

  -- No message of the queue fits: msg_receive comes to wait_message.
  msg_receive-wait_message :
      src < nr_all ⊎ (src ≡ any) ⊎ (src ≡ interrupt)
      → takes_interrupt (k.proc_table p) src ≡ false
      → next_sender src (qs p) ≡ none
      → msg_receive p src m k ≡ (wait_message p src m >> pure 0) k
  unfolding msg_receive
  msg_receive-wait_message (inl h) no_int next =
      let a : src ≢ any = omega arith in ground (arith, from-wait h a next)
  msg_receive-wait_message (inr (inl e)) no_int next =
      let n : next_sender any (qs p) ≡ none = rw (← e) next in ground (arith, any-wait n)
  msg_receive-wait_message (inr (inr e)) no_int next = ground arith

  abbrev k1 : Kernel
  k1 = waiting k p src m

  block-schedule : block p k1 ≡ schedule k1
  unfolding block
  block-schedule = ground arith

  waiting-IsValid : src ≢ no_task → IsValid k1.proc_table qs
  waiting-IsValid some_one =
      IsValid-same k.proc_table _ qs v
        (λ r. record {
          q = ground arith;
          next = ground arith;
          sending = ground arith;
          sendto = ground arith;
          rw_segment = ground arith;
        })
        (λ r h. (ground (arith, v.phase r h, idle), ground (arith, v.small r h)))

  module _ (range : src < nr_all ⊎ (src ≡ any) ⊎ (src ≡ interrupt))
      (no_int : takes_interrupt (k.proc_table p) src ≡ false)
      (next : next_sender src (qs p) ≡ none) where
    -- The two ways in which the caller blocks, if no interrupt is pending.
    pub msg_receive-cases :
        (k.proc_table p).has_int_msg ≡ false
        → ((k' : Kernel) × (msg_receive p src m k ≡ done 0 k')
            × Scheduled (waiting k p src m) k'
            × IsValid k'.proc_table qs)
          ⊎ ((msg_receive p src m k ≡ stop endless) × Alone k.proc_table p)
    unfolding wait_message
    msg_receive-cases clear = elim (schedule-cases k1) [
      | inl (k', run, sch) ↦ inl (
        k',
        msg_receive-wait_message range no_int next
            ∙ ground (arith, block-schedule, run, Scheduled-ticks k1 k' p sch, idle),
        sch,
        Scheduled-IsValid k1 k' qs sch (waiting-IsValid (omega arith)),
      )
      | inr (never, alone) ↦ inr (
        msg_receive-wait_message range no_int next ∙ ground (arith, block-schedule, never, idle),
        λ q h n r. ground (arith, alone q h),
      )
    ]

    -- And if one is: an interrupt that the call does not ask for makes the last assert of
    -- msg_receive fail, unless schedule() does not return.
    pub msg_receive-pending :
        (k.proc_table p).has_int_msg ≡ true
        → (msg_receive p src m k ≡ stop (assertion 342))
          ⊎ ((msg_receive p src m k ≡ stop endless) × Alone k.proc_table p)
    unfolding wait_message
    msg_receive-pending pend = elim (schedule-cases k1) [
      | inl (k', run, sch) ↦ inl (
          msg_receive-wait_message range no_int next
          ∙ ground (arith, block-schedule, run, Scheduled-ticks k1 k' p sch, idle))
      | inr (never, alone) ↦ inr (
        msg_receive-wait_message range no_int next ∙ ground (arith, block-schedule, never, idle),
        λ q h n r. ground (arith, alone q h),
      )
    ]

    module _ (w : ℕ) (hw : w < nr_all) (nw : w ≢ p) (can : IsReady k.proc_table w)
        (some_ticks : 0 < (k.proc_table w).ticks + (k.proc_table w).priority) where
      -- No message fits and no interrupt is pending, and somebody else may run: the caller waits
      -- with its buffer, schedule() picks the next process, no assert fails, and the queues are the
      -- same.
      pub msg_receive-waiting :
          (k.proc_table p).has_int_msg ≡ false
          → (k' : Kernel) × (msg_receive p src m k ≡ done 0 k')
            × Scheduled (waiting k p src m) k'
            × IsValid k'.proc_table qs
      msg_receive-waiting clear = elim (msg_receive-cases clear) [
        | inl result ↦ result
        | inr (never, alone) ↦ absurd (omega (arith, alone w hw nw can))
      ]

      -- A process waits for one other, which sends it nothing, while an interrupt is pending, and
      -- somebody else may run: the last assert of msg_receive fails.
      pub msg_receive-assertion :
          (k.proc_table p).has_int_msg ≡ true → msg_receive p src m k ≡ stop (assertion 342)
      msg_receive-assertion pend = elim (msg_receive-pending pend) [
        | inl fails ↦ fails
        | inr (never, alone) ↦ absurd (omega (arith, alone w hw nw can))
      ]
