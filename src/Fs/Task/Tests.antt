-- ===== src/Fs/Task/Tests.antt =====
-- Process 9 of the sample file system reads from the first terminal, and closes a file.

use dlos.Prelude.{◌≡◌, refl, ◌∷◌, arith}
use dlos.Const.{task_tty, read_type, suspend_proc, resume_proc, syscall_ret}
use dlos.Kernel.Proc.{Message, done, reset_msg}
use dlos.Fs.State.{Inode, Fs}
use dlos.Fs.Sample.{inode, fs}
use dlos.Fs.Task.{fs_round, ask_fs}
use dlos.Fs.Task.Close.{Closed, close-Closed}
use dlos.Libc.Calls.{close}
use dlos.Fs.Task.Resume.{asked, IsTerminal, fs_round-resumed}

abbrev terminal : Inode
terminal = record inode { i_mode = 0x2000; i_start_sect = 0x400 }

abbrev on_terminal : Fs
on_terminal = record fs { inode_table = λ _. terminal }

-- The terminals have every reader wait.
abbrev driver : Message → Message
driver m = record m { source = task_tty; type = suspend_proc }

abbrev asks : Message
asks = record reset_msg { source = 9; type = read_type; m3i1 = 3; m3i2 = 8; m3p2 = 0x9000 }

abbrev resumes : Message
resumes = record reset_msg { source = task_tty; type = resume_proc; m3i2 = 8; m3i3 = 9 }

asks-IsTerminal : IsTerminal on_terminal asks 2 4
asks-IsTerminal = record {
  entry = refl;
  f_in_table = omega arith;
  mode = refl;
  inode = refl;
  q_in_table = omega arith;
  special = refl;
  major = refl;
}

fs_round-resumed_example :
    (s1 s2 : Fs) × (fs_round driver asks on_terminal ≡ done tt s1)
    × (s1.outbox ≡ (task_tty, asked asks 0x400) ∷ on_terminal.outbox)
    × (fs_round driver resumes s1 ≡ done tt s2)
    × (s2.outbox ≡ (9, record resumes { type = syscall_ret }) ∷ s1.outbox)
    × (s2 ≡ record on_terminal { fs_msg = s2.fs_msg; pcaller = s2.pcaller; outbox = s2.outbox })
fs_round-resumed_example =
    fs_round-resumed driver on_terminal asks resumes 2 4 refl asks-IsTerminal refl refl refl refl

-- The length of a string is not asked for.
close-Closed_example :
    (s' : Fs) × (close (ask_fs driver 9) (λ _. 0) reset_msg 3 fs ≡ done 0 s') × Closed fs s' 9 3 2 4
close-Closed_example =
    close-Closed driver (λ _. 0) reset_msg fs 9 3 2 4 refl refl (omega arith) (omega arith)
      (omega arith)
