-- ===== src/Fs/Task.antt =====
-- task_fs of fs/main.c: a request is served by the operation for its type, and answered.
pub mod Resume
pub mod Close
mod Tests
use dlos.Prelude.{ℕ, ◌-◌, ◌^◌, Option, none, some, ◌==◌, if◌then◌else◌, false, ◌∷◌, ◌||◌}
use dlos.Const.{
  open_type, close_type, read_type, write_type, unlink_type, suspend_proc, resume_proc, fork_type,
  exit_type, syscall_ret,
}
use dlos.Kernel.Proc.{Message, Code, done, stop, assertion, pure, ◌>>=◌, ◌>>◌, get, modify, halt}
use dlos.Fs.State.{Fs}
use dlos.Fs.Files.{do_open, do_close}
use dlos.Fs.Share.{fs_fork, fs_exit}
use dlos.Fs.Unlink.{do_unlink}
use dlos.Fs.ReadWrite.{do_rdwt}

-- What the operations return as an int: `none` is -1.
abbrev pub returned : Option ℕ → ℕ
returned none = 2 ^ 32 - 1
returned (some n) = n

-- FD and RETVAL are the same member of the message.
abbrev pub set_retval : ℕ → Code Fs (Unit {0})
set_retval n = modify λ s. record s { fs_msg = record s.fs_msg { m3i1 = n } }

abbrev pub set_cnt : ℕ → Code Fs (Unit {0})
set_cnt n = modify λ s. record s { fs_msg = record s.fs_msg { m3i2 = n } }

-- The switch of task_fs on the type of the message from `src`. It returns which process gets the
-- answer. An unknown type fails the assert.
unfoldable pub served : (Message → Message) → ℕ → ℕ → Code Fs ℕ
served driver type src =
    if type == open_type
    then (do fd ← do_open; set_retval (returned fd); pure src)
    else if type == close_type
    then (do r ← do_close; set_retval r; pure src)
    else if type == read_type || type == write_type
    then (do n ← do_rdwt driver; set_cnt (returned n); pure src)
    else if type == unlink_type
    then (do r ← do_unlink; set_retval r; pure src)
    else if type == resume_proc
    then (do s ← get; pure s.fs_msg.m3i3)
    else if type == fork_type
    then (do r ← fs_fork; set_retval r; pure src)
    else if type == exit_type
    then (do r ← fs_exit; set_retval r; pure src)
    else halt (assertion 56)

-- The end of a round: no answer if the terminal has the caller wait.
unfoldable pub answer : ℕ → Code Fs (Unit {0})
answer src = do
  s ← get
  let msg = record s.fs_msg { type = syscall_ret }
  if s.fs_msg.type == suspend_proc
      then pure tt
      else modify λ s. record s { fs_msg = msg; outbox = (src, msg) ∷ s.outbox }

-- A round of the loop of task_fs for the message `msg`, without the log.
unfoldable pub fs_round : (Message → Message) → Message → Code Fs (Unit {0})
fs_round driver msg = do
  modify λ s. record s { fs_msg = msg; pcaller = msg.source }
  src ← served driver msg.type msg.source
  answer src

-- send_recv(BOTH, TASK_FS, msg) of process `p`: task_fs serves the message and answers it.
abbrev pub ask_fs : (Message → Message) → ℕ → ℕ → Message → Code Fs Message
ask_fs driver p task msg = do fs_round driver (record msg { source = p }); s ← get; pure s.fs_msg
