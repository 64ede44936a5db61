-- ===== src/Libc/Calls.antt =====
-- The system calls of lib/open.c, lib/close.c, lib/read.c, lib/write.c, lib/unlink.c and
-- lib/getpid.c: a message to a task, and what the answer says.
use dlos.Prelude.{ℕ, ◌==◌}
use dlos.Const.{
  task_fs, task_sys, open_type, close_type, read_type, write_type, unlink_type, get_pid_type,
  syscall_ret,
}
use dlos.Kernel.Proc.{Message, Code, pure, ◌>>=◌, ◌>>◌, assert}

-- `send_recv` is send_recv(BOTH, task, msg): it gives the answer. `strlen` is the one of lib/string.asm,
-- and `msg` what is on the stack where the message will be.
module _ {S : Type 0} (send_recv : ℕ → Message → Code S Message) (strlen : ℕ → ℕ)
    (msg : Message) where
  unfoldable pub open_file : ℕ → ℕ → Code S ℕ
  open_file pathname flags = do
    answer ←
        send_recv task_fs
          (record msg { type = open_type; m3p1 = pathname; m3i1 = flags; m3i2 = strlen pathname })
    assert 23 (answer.type == syscall_ret)
    pure answer.m3i1

  unfoldable pub close : ℕ → Code S ℕ
  close fd = do
    answer ← send_recv task_fs (record msg { type = close_type; m3i1 = fd })
    pure answer.m3i1

  unfoldable pub read : ℕ → ℕ → ℕ → Code S ℕ
  read fd buf count = do
    answer ←
        send_recv task_fs (record msg { type = read_type; m3i1 = fd; m3p2 = buf; m3i2 = count })
    pure answer.m3i2

  unfoldable pub write : ℕ → ℕ → ℕ → Code S ℕ
  write fd buf count = do
    answer ←
        send_recv task_fs (record msg { type = write_type; m3i1 = fd; m3p2 = buf; m3i2 = count })
    pure answer.m3i2

  unfoldable pub unlink : ℕ → Code S ℕ
  unlink pathname = do
    answer ←
        send_recv task_fs
          (record msg { type = unlink_type; m3p1 = pathname; m3i2 = strlen pathname })
    pure answer.m3i1

  unfoldable pub getpid : Code S ℕ
  getpid = do
    answer ← send_recv task_sys (record msg { type = get_pid_type })
    assert 17 (answer.type == syscall_ret)
    pure answer.m3i2
