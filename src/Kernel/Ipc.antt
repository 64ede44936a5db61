-- ===== src/Kernel/Ipc.antt =====
-- The message system of kernel/proc.c: the system call, and the function that user code calls.
pub mod Base
pub mod Send
pub mod Receive
pub mod Queue
pub mod Waits
pub mod Valid
pub mod Deliver
pub mod Enqueue
pub mod Pushed
pub mod SendQueued
pub mod Taken
pub mod ReceiveTaken
pub mod ReceiveWait
pub mod Inform
pub mod Calls
mod Tests
use Prim.Native.Nat.{bit_or}
use dlos.Prelude.{
  ℕ, zero, suc, ◌+◌, ◌*◌, ◌%◌, ◌^◌, Option, none, some, Bool, true, false, not, ◌&&◌, ◌||◌, ltb,
  ◌==◌, if◌then◌else◌, update,
}
use dlos.Const.{
  nr_tasks, nr_native_procs, nr_all, any, no_task, interrupt, hard_int, send_function,
  receive_function, both_function,
}
use dlos.Kernel.Proc.{
  Descriptor, Flags, Proc, Table, Message, reset_msg, Kernel, Code, done, stop, endless, panic,
  pure, ◌>>=◌, ◌>>◌, halt, get, modify, assert, is_clear, is_sending, is_receiving,
}
use dlos.Kernel.Sched.{schedule}
use dlos.Kernel.Ipc.Base.{va2la}
use dlos.Kernel.Ipc.Send.{msg_send}
use dlos.Kernel.Ipc.Receive.{msg_receive}

-- sys_sendrec: the system call of process `p`.
unfoldable pub sys_sendrec : ℕ → ℕ → ℕ → ℕ → Code Kernel ℕ
sys_sendrec function src_dest m p = do
  k ← get
  assert 46 (k.k_reenter == 0)
  assert 47 (ltb src_dest nr_all || src_dest == any || src_dest == interrupt)
  mla ← va2la p m
  modify λ k. record k { mail = update k.mail mla (record (k.mail mla) { source = p }) }
  assert 55 (not (p == src_dest))
  if function == send_function
      then msg_send p src_dest m
      else if function == receive_function
      then msg_receive p src_dest m
      else halt panic

-- send_recv, over the system call `sendrec` and the memory that the caller clears.
module _ {S : Type 0} (clear : ℕ → Code S (Unit {0})) (sendrec : ℕ → ℕ → ℕ → Code S ℕ) where
  unfoldable pub send_recv : ℕ → ℕ → ℕ → Code S ℕ
  send_recv function src_dest msg = do
    if function == receive_function then clear msg else pure tt
    if function == both_function
        then (do
          ret ← sendrec send_function src_dest msg
          if ret == 0 then sendrec receive_function src_dest msg else pure ret)
        else if function == send_function || function == receive_function
        then sendrec function src_dest msg
        else do assert 98 false; pure 0
