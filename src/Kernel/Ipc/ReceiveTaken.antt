-- ===== src/Kernel/Ipc/ReceiveTaken.antt =====
-- msg_receive of kernel/proc.c when a message waits in the queue.
use dlos.Prelude.{
  ℕ, suc, ◌^◌, ◌<◌, ◌≤◌, ◌≡◌, ◌≢◌, refl, none, some, Bool, true, false, List, [], ◌∷◌, arith, ◌==◌,
  inl, inr, has, length-le-bound, length, ◌⊎◌, if◌then◌else◌, Option, update, ◌&&◌, ◌||◌,
  ℕ_discrete,
}
use dlos.Const.{nr_all, any, interrupt}
use dlos.Kernel.Proc.{Proc, Kernel, Code, done, is_clear}
use dlos.Kernel.Ipc.Base.{linear, unblock}
use dlos.Kernel.Ipc.Receive.{
  find_prev, unlink_sending, assert_pair, take_message, receive_from, receive_any, msg_receive,
}
use dlos.Kernel.Ipc.Queue.{Chain, before, before-has, before-ne, find_prev-before}
use dlos.Kernel.Ipc.Valid.{IsValid, IsIdle, IsSender, IsIdle-of_ready, va2la-linear}
use dlos.Kernel.Ipc.Enqueue.{with_table}
use dlos.Kernel.Ipc.Taken.{popped, removed, taken, IsTaken, taken_head, taken_later, taken-IsValid}

-- The state after `p` has taken the message of `from` into its buffer `m`.
abbrev pub fetched : Kernel → ℕ → ℕ → Option ℕ → ℕ → Kernel
fetched k p from prev m = record k {
  proc_table = taken k.proc_table p from prev;
  mail =
      update k.mail (linear k.proc_table p m)
        (k.mail (linear k.proc_table from (k.proc_table from).p_msg));
}

-- The interrupt that msg_receive looks at before the queues.
abbrev pub takes_interrupt : Proc → ℕ → Bool
takes_interrupt r src = r.has_int_msg && (src == any || src == interrupt)

module _ (k : Kernel) (qs : ℕ → List ℕ) (p from m : ℕ) (v : IsValid k.proc_table qs)
    (hp : p < nr_all) (hf : from < nr_all) (ready : is_clear (k.proc_table p).p_flags ≡ true)
    (msg : m ≢ 0) (small : m < 2 ^ 32) where
  idle : IsIdle (k.proc_table p)
  idle = IsIdle-of_ready k.proc_table qs p v hp ready

  sender :
      has from (qs p) ≡ true
      → IsSender (k.proc_table from) × ((k.proc_table from).p_sendto ≡ p) × (p ≢ from)
  sender mem = ground (arith, v.members p from hp mem, v.phase from hf)

  abbrev unlinked : Option ℕ → Kernel
  unlinked prev = with_table k (removed k.proc_table p from prev)

  -- The rest of take_message, once the process has left the queue.
  take-fetched :
      (prev : Option ℕ)
      → has from (qs p) ≡ true
      → unlink_sending p from prev k ≡ done tt (unlinked prev)
      → take_message p from prev m k ≡ done tt (fetched k p from prev m)
  unfolding take_message unblock
  take-fetched none mem u = ground (
    arith,
    u,
    sender mem,
    va2la-linear (unlinked none) p m (λ h. ground (arith, v.flat p)) small,
    va2la-linear (unlinked none) from (k.proc_table from).p_msg (λ h. ground (arith, v.flat from))
        (v.small from hf),
  )
  take-fetched (some q) mem u = ground (
    arith,
    u,
    sender mem,
    va2la-linear (unlinked (some q)) p m (λ h. ground (arith, v.flat p)) small,
    va2la-linear (unlinked (some q)) from (k.proc_table from).p_msg
        (λ h. ground (arith, v.flat from)) (v.small from hf),
  )

  -- The head of the queue, and a process behind it.
  take_head :
      (ys : List ℕ)
      → qs p ≡ from ∷ ys
      → (take_message p from none m k ≡ done tt (fetched k p from none m))
        × IsTaken k.proc_table (taken k.proc_table p from none) p from (qs p)
  unfolding unlink_sending
  take_head ys e =
      let c : Chain k.proc_table (k.proc_table p).q_sending (from ∷ ys) = rw e at (v.queue p hp) in
      let mem : has from (qs p) ≡ true = rw e (ground arith) in
      (
        take-fetched none mem (ground (arith, c.0)),
        rw e (taken_head k.proc_table p from ys (sender mem).2 (rw e at (v.distinct p hp)) c.1),
      )

  take_later :
      (x q : ℕ) (ys : List ℕ)
      → qs p ≡ x ∷ ys
      → x ≢ from
      → has from ys ≡ true
      → before from (some x) ys ≡ some q
      → has q (x ∷ ys) ≡ true
      → q ≢ from
      → (take_message p from (some q) m k ≡ done tt (fetched k p from (some q) m))
        × IsTaken k.proc_table (taken k.proc_table p from (some q)) p from (qs p)
  unfolding unlink_sending
  take_later x q ys e ne h b i nq =
      let c : Chain k.proc_table (k.proc_table p).q_sending (x ∷ ys) = rw e at (v.queue p hp) in
      let mem : has from (qs p) ≡ true = rw e (ground arith) in
      (
        take-fetched (some q) mem (ground (arith, c.0)),
        rw e (
            taken_later k.proc_table p from x q ys ne (rw e at (v.distinct p hp)) h b i nq c.0 c.1),
      )

-- Whom msg_receive takes a message from: the first of the queue for ANY, else the one asked for.
abbrev pub next_sender : ℕ → List ℕ → Option ℕ
next_sender src [] = none
next_sender src (x ∷ xs) =
    if src == any then some x else if has src (x ∷ xs) then some src else none

module _ (k : Kernel) (qs : ℕ → List ℕ) (p from m : ℕ) (v : IsValid k.proc_table qs)
    (hp : p < nr_all) (ready : is_clear (k.proc_table p).p_flags ≡ true) (msg : m ≢ 0)
    (small : m < 2 ^ 32) where
  Fetches : Code Kernel (Unit {0}) → Type 0
  Fetches c =
      (prev : Option ℕ) × (c k ≡ done tt (fetched k p from prev m))
      × IsTaken k.proc_table (taken k.proc_table p from prev) p from (qs p)

  any-Fetches : (ys : List ℕ) → from < nr_all → qs p ≡ from ∷ ys → Fetches (receive_any p m)
  unfolding receive_any assert_pair Fetches
  any-Fetches ys hf e =
      let c : Chain k.proc_table (k.proc_table p).q_sending (from ∷ ys) = rw e at (v.queue p hp) in
      let mem : has from (qs p) ≡ true = rw e (ground arith) in
      let (t, is) = take_head k qs p from m v hp hf ready msg small ys e in
      (
        none,
        ground (
          arith,
          c.0,
          t,
          sender k qs p from m v hp hf ready msg small mem,
          idle k qs p from m v hp hf ready msg small,
        ),
        is,
      )

  from-Fetches :
      (x : ℕ) (ys : List ℕ)
      → from < nr_all
      → qs p ≡ x ∷ ys
      → has from (x ∷ ys) ≡ true
      → Fetches (receive_from p from m)
  unfolding receive_from assert_pair Fetches
  from-Fetches x ys hf e h = elim (ℕ_discrete x from) [
    | yes same ↦
        let (t, is) = take_head k qs p from m v hp hf ready msg small ys (ground (arith, e)) in
        (none, ground (arith, c.0, found, t, both, self), is)
    | no ne ↦
        let (q, b, i) = before-has from x ys (ground arith) in
        let nq = before-ne from x q ys ne (ground arith) b in
        let (t, is) =
          take_later k qs p from m v hp hf ready msg small x q ys e ne (ground arith) b i nq in
        (some q, ground (arith, c.0, found, b, t, both, self), is)
  ]
    where
      c : Chain k.proc_table (k.proc_table p).q_sending (x ∷ ys)
      c = rw e at (v.queue p hp)

      short : length (x ∷ ys) ≤ nr_all
      short =
          length-le-bound (x ∷ ys) nr_all (rw e at (v.distinct p hp))
            (λ a i. (v.members p a hp (rw e i)).0)

      found :
          find_prev (suc nr_all) k.proc_table from (k.proc_table p).q_sending none
          ≡ some (before from none (x ∷ ys))
      found =
          find_prev-before k.proc_table from (suc nr_all) (x ∷ ys) _ none (omega (arith, short)) c

      both : IsSender (k.proc_table from) × ((k.proc_table from).p_sendto ≡ p) × (p ≢ from)
      both = sender k qs p from m v hp hf ready msg small (rw e h)

      self : IsIdle (k.proc_table p)
      self = idle k qs p from m v hp hf ready msg small

  -- A message waits that the call asks for: it is copied to the caller's buffer, its sender leaves
  -- the queue and is ready again, no assert fails, and the invariant holds with the shorter queue.
  pub msg_receive-popped :
      (src : ℕ)
      → src ≢ p
      → src < nr_all ⊎ (src ≡ any)
      → takes_interrupt (k.proc_table p) src ≡ false
      → next_sender src (qs p) ≡ some from
      → (prev : Option ℕ) × (msg_receive p src m k ≡ done 0 (fetched k p from prev m))
        × IsValid (fetched k p from prev m).proc_table (popped qs p from)
  unfolding msg_receive Fetches
  msg_receive-popped src ne range no_int next = go (qs p) refl next
    where
      finish :
          (src ≡ any) ⊎ (src ≡ from)
          → Fetches (if src == any then receive_any p m else receive_from p from m)
          → has from (qs p) ≡ true
          → from < nr_all
          → (prev : Option ℕ) × (msg_receive p src m k ≡ done 0 (fetched k p from prev m))
            × IsValid (fetched k p from prev m).proc_table (popped qs p from)
      finish w f mem hf = (
        f.0,
        ground (arith, f.1, w, range),
        taken-IsValid k.proc_table _ qs p from v hp hf mem f.2,
      )

      go :
          (xs : List ℕ)
          → qs p ≡ xs
          → next_sender src xs ≡ some from
          → (prev : Option ℕ) × (msg_receive p src m k ≡ done 0 (fetched k p from prev m))
            × IsValid (fetched k p from prev m).proc_table (popped qs p from)
      go [] e n = cc
      go (x ∷ ys) e n = elim (ℕ_discrete src any) [
        | yes a ↦
            let same : qs p ≡ from ∷ ys = ground arith in
            let mem : has from (qs p) ≡ true = rw same (ground arith) in
            let hf = (v.members p from hp mem).0 in
            finish (inl a) (rw a (any-Fetches ys hf same)) mem hf
        | no a ↦
            let mem : has from (x ∷ ys) ≡ true = ground arith in
            let mem' : has from (qs p) ≡ true = rw e mem in
            let hf = (v.members p from hp mem').0 in
            let test : (src == any) ≡ false = ground arith in
            finish (inr (ground arith)) (rw test (from-Fetches x ys hf e mem)) mem' hf
      ]
