-- ===== src/Kernel/Ipc/Send.antt =====
-- deadlock and msg_send of kernel/proc.c.

use dlos.Prelude.{
  ℕ, zero, suc, Option, none, some, Bool, true, false, not, ◌&&◌, ◌||◌, ◌==◌, if◌then◌else◌,
}
use dlos.Const.{nr_all, any, no_task}
use dlos.Kernel.Proc.{
  Proc, Table, Kernel, Code, stop, endless, panic, pure, ◌>>=◌, ◌>>◌, halt, get, assert, is_clear,
  is_sending,
}
use dlos.Kernel.Ipc.Base.{va2la, copy_message, set_proc, block, unblock}

-- The walk of deadlock() from process `p` along p_sendto.
unfoldable pub deadlock_walk : ℕ → Table → ℕ → ℕ → Option Bool
deadlock_walk zero t src p = none
deadlock_walk (suc fuel) t src p =
    let rest = deadlock_walk fuel t src (t p).p_sendto in
    if (t p).p_flags.sending then if (t p).p_sendto == src then some true else rest else some false

-- The loop that prints the cycle: it asserts that every process on it holds a message.
unfoldable pub deadlock_print : ℕ → ℕ → ℕ → Code Kernel (Unit {0})
deadlock_print zero src p k = stop endless
deadlock_print (suc fuel) src p k =
    let next = (k.proc_table p).p_sendto in
    let rest = deadlock_print fuel src next in
    (do assert 150 (not ((k.proc_table p).p_msg == 0)); if next == src then pure tt else rest) k

-- deadlock(). A walk visits at most every process once, and then a process that does not send.
unfoldable pub deadlock : ℕ → ℕ → Code Kernel Bool
deadlock src dest = do
  k ← get
  elim (deadlock_walk (suc nr_all) k.proc_table src dest) [
    | none ↦ halt endless
    | some true ↦ do deadlock_print (suc nr_all) src dest; pure true
    | some false ↦ pure false
  ]

-- Whether `dest` waits for a message that `sender` may send.
abbrev pub accepts : Table → ℕ → ℕ → Bool
accepts t dest sender =
    (t dest).p_flags.receiving && ((t dest).p_recvfrom == sender || (t dest).p_recvfrom == any)

abbrev pub received : Proc → Proc
received p = record p {
  p_msg = 0;
  p_flags = record p.p_flags { receiving = false };
  p_recvfrom = no_task;
}

-- msg_send, the receiver waits.
unfoldable pub deliver : ℕ → ℕ → ℕ → Code Kernel (Unit {0})
deliver sender dest m = do
  k ← get
  assert 181 (not ((k.proc_table dest).p_msg == 0))
  assert 182 (not (m == 0))
  to ← va2la dest (k.proc_table dest).p_msg
  from ← va2la sender m
  copy_message to from
  set_proc dest received
  unblock dest
  k ← get
  let d = k.proc_table dest
  let s = k.proc_table sender
  assert 191 (is_clear d.p_flags)
  assert 192 (d.p_msg == 0)
  assert 193 (d.p_recvfrom == no_task)
  assert 194 (d.p_sendto == no_task)
  assert 195 (is_clear s.p_flags)
  assert 196 (s.p_msg == 0)
  assert 197 (s.p_recvfrom == no_task)
  assert 198 (s.p_sendto == no_task)

-- `while (p->next_sending) p = p->next_sending`
unfoldable pub last_sending : ℕ → Table → ℕ → Option ℕ
last_sending zero t p = none
last_sending (suc fuel) t p = elim (t p).next_sending [
  | none ↦ some p
  | some q ↦ last_sending fuel t q
]

-- The sender goes to the end of the receiver's queue. A queue holds a process at most once.
unfoldable pub append_sending : ℕ → ℕ → Code Kernel (Unit {0})
append_sending sender dest = do
  k ← get
  elim (k.proc_table dest).q_sending [
    | none ↦ set_proc dest λ p. record p { q_sending = some sender }
    | some q ↦ elim (last_sending nr_all k.proc_table q) [
      | none ↦ halt endless
      | some last ↦ set_proc last λ p. record p { next_sending = some sender }
    ]
  ]
  set_proc sender λ p. record p { next_sending = none }

-- msg_send, the receiver does not wait.
unfoldable pub enqueue : ℕ → ℕ → ℕ → Code Kernel (Unit {0})
enqueue sender dest m = do
  set_proc sender λ p. record p { p_flags = record p.p_flags { sending = true } }
  k ← get
  assert 202 (is_sending (k.proc_table sender).p_flags)
  set_proc sender λ p. record p { p_sendto = dest; p_msg = m }
  append_sending sender dest
  block sender
  k ← get
  let s = k.proc_table sender
  assert 228 (is_sending s.p_flags)
  assert 229 (not (s.p_msg == 0))
  assert 230 (s.p_recvfrom == no_task)
  assert 231 (s.p_sendto == dest)

unfoldable pub msg_send : ℕ → ℕ → ℕ → Code Kernel ℕ
msg_send sender dest m = do
  assert 172 (not (sender == dest))
  dead ← deadlock sender dest
  if dead then halt panic else do
    k ← get
    if accepts k.proc_table dest sender then deliver sender dest m else enqueue sender dest m
    pure 0
