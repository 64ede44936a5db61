-- ===== src/Kernel/Ipc/Receive.antt =====
-- msg_receive and inform_int of kernel/proc.c.

use dlos.Prelude.{
  ℕ, zero, suc, ◌+◌, Option, none, some, Bool, true, false, not, ◌&&◌, ◌||◌, ltb, ◌==◌,
  if◌then◌else◌, update,
}
use dlos.Const.{nr_all, any, no_task, interrupt, hard_int}
use dlos.Kernel.Proc.{
  Proc, Table, Message, reset_msg, Kernel, Code, endless, pure, ◌>>=◌, ◌>>◌, halt, get, modify,
  assert, is_clear, is_sending, is_receiving,
}
use dlos.Kernel.Ipc.Base.{va2la, copy_message, set_proc, is_null, block, unblock}

abbrev pub interrupt_message : Message
interrupt_message = record reset_msg { source = interrupt; type = hard_int }

-- msg_receive, an interrupt is pending.
unfoldable pub receive_interrupt : ℕ → ℕ → Code Kernel (Unit {0})
receive_interrupt p m = do
  assert 252 (not (m == 0))
  to ← va2la p m
  modify λ k. record k { mail = update k.mail to interrupt_message }
  set_proc p λ r. record r { has_int_msg = false }
  k ← get
  let r = k.proc_table p
  assert 255 (is_clear r.p_flags)
  assert 256 (r.p_msg == 0)
  assert 257 (r.p_sendto == no_task)
  assert 258 (not r.has_int_msg)

-- The asserts on the receiver and on the sender that it takes a message from.
unfoldable pub assert_pair : ℕ → ℕ → ℕ → Code Kernel (Unit {0})
assert_pair line p from = do
  k ← get
  let r = k.proc_table p
  let f = k.proc_table from
  assert line (is_clear r.p_flags)
  assert (line + 1) (r.p_msg == 0)
  assert (line + 2) (r.p_recvfrom == no_task)
  assert (line + 3) (r.p_sendto == no_task)
  assert (line + 4) (not (is_null r.q_sending))
  assert (line + 5) (is_sending f.p_flags)
  assert (line + 6) (not (f.p_msg == 0))
  assert (line + 7) (f.p_recvfrom == no_task)
  assert (line + 8) (f.p_sendto == p)

-- The search of `src` in a queue: the process before it, or the last one if it is not there.
unfoldable pub find_prev : ℕ → Table → ℕ → Option ℕ → Option ℕ → Option (Option ℕ)
find_prev zero t src p prev = none
find_prev (suc fuel) t src none prev = some prev
find_prev (suc fuel) t src (some p) prev =
    let rest = find_prev fuel t src (t p).next_sending (some p) in
    if p == src then some prev else rest

abbrev pub sent : Proc → Proc
sent f = record f { p_msg = 0; p_sendto = no_task; p_flags = record f.p_flags { sending = false } }

abbrev pub is_some_pid : Option ℕ → ℕ → Bool
is_some_pid none p = false
is_some_pid (some q) p = q == p

-- `from` leaves the queue of `p`; `prev` stands before it.
unfoldable pub unlink_sending : ℕ → ℕ → Option ℕ → Code Kernel (Unit {0})
unlink_sending p from prev = do
  k ← get
  let next = (k.proc_table from).next_sending
  if is_some_pid (k.proc_table p).q_sending from
      then (do
        assert 313 (is_null prev)
        set_proc p λ r. record r { q_sending = next }
        set_proc from λ f. record f { next_sending = none })
      else (elim prev [
        | none ↦ assert 318 false
        | some q ↦ (do
          set_proc q λ r. record r { next_sending = next }
          set_proc from λ f. record f { next_sending = none })
      ])

-- msg_receive with `copyok`: the message of `from` is taken.
unfoldable pub take_message : ℕ → ℕ → Option ℕ → ℕ → Code Kernel (Unit {0})
take_message p from prev m = do
  unlink_sending p from prev
  assert 323 (not (m == 0))
  k ← get
  assert 324 (not ((k.proc_table from).p_msg == 0))
  to ← va2la p m
  la ← va2la from (k.proc_table from).p_msg
  copy_message to la
  set_proc from sent
  unblock from

-- msg_receive without `copyok`: the receiver waits.
unfoldable pub wait_message : ℕ → ℕ → ℕ → Code Kernel (Unit {0})
wait_message p src m = do
  set_proc p
      λ r. record r { p_flags = record r.p_flags { receiving = true }; p_msg = m; p_recvfrom = src }
  block p
  k ← get
  let r = k.proc_table p
  assert 338 (is_receiving r.p_flags)
  assert 339 (not (r.p_msg == 0))
  assert 340 (not (r.p_recvfrom == no_task))
  assert 341 (r.p_sendto == no_task)
  assert 342 (not r.has_int_msg)

-- msg_receive from one process.
unfoldable pub receive_from : ℕ → ℕ → ℕ → Code Kernel (Unit {0})
receive_from p src m = do
  k ← get
  let f = k.proc_table src
  if f.p_flags.sending && f.p_sendto == p
      then (do
        assert 288 (not (is_null (k.proc_table p).q_sending))
        elim (find_prev (suc nr_all) k.proc_table src (k.proc_table p).q_sending none) [
          | none ↦ halt endless
          | some prev ↦ do assert_pair 299 p src; take_message p src prev m
        ])
      else wait_message p src m
    -- msg_receive from ANY.

unfoldable pub receive_any : ℕ → ℕ → Code Kernel (Unit {0})
receive_any p m = do
  k ← get
  elim (k.proc_table p).q_sending [
    | none ↦ wait_message p any m
    | some from ↦ do assert_pair 269 p from; take_message p from none m
  ]

unfoldable pub msg_receive : ℕ → ℕ → ℕ → Code Kernel ℕ
msg_receive p src m = do
  assert 243 (not (p == src))
  k ← get
  if (k.proc_table p).has_int_msg && (src == any || src == interrupt)
      then receive_interrupt p m
      else if src == any
      then receive_any p m
      else if ltb src nr_all
      then receive_from p src m
      else wait_message p src m
  pure 0

-- inform_int: an interrupt becomes a message of task `p`, whose addresses are linear.
unfoldable pub inform_int : ℕ → Code Kernel (Unit {0})
inform_int p = do
  k ← get
  let r = k.proc_table p
  if r.p_flags.receiving && (r.p_recvfrom == interrupt || r.p_recvfrom == any)
      then (do
        modify λ k. record k {
          mail =
              update k.mail r.p_msg
                (record (k.mail r.p_msg) { source = interrupt; type = hard_int });
        }
        set_proc p λ r. record r {
          p_msg = 0;
          has_int_msg = false;
          p_flags = record r.p_flags { receiving = false };
          p_recvfrom = no_task;
        }
        k ← get
        let r = k.proc_table p
        assert 420 (is_clear r.p_flags)
        unblock p
        assert 423 (is_clear r.p_flags)
        assert 424 (r.p_msg == 0)
        assert 425 (r.p_recvfrom == no_task)
        assert 426 (r.p_sendto == no_task))
      else (set_proc p λ r. record r { has_int_msg = true })
