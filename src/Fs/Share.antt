-- ===== src/Fs/Share.antt =====
-- fs_fork and fs_exit of fs/main.c: a child shares the open files of its parent.
pub mod Counts
use dlos.Prelude.{
  ℕ, zero, suc, ◌+◌, ◌-◌, ◌%◌, ◌^◌, ◌==◌, Option, none, some, if◌then◌else◌, update, Bool,
}
use dlos.Kernel.Proc.{Code, done, stop, panic, pure, ◌>>=◌, ◌>>◌, get, modify, halt}
use dlos.Fs.State.{Inode, FileDesc, Fs, nr_files, set_inode, set_file_desc}
use dlos.Fs.Files.{set_filp, with_some, released}

-- The child has the file of one entry of `filp` too.
unfoldable pub share_file : Option ℕ → Code Fs (Unit {0})
share_file none = pure tt
share_file (some f) = do
  set_file_desc f λ d. record d { fd_cnt = d.fd_cnt + 1 }
  s ← get
  with_some (s.f_desc_table f).fd_inode λ p. set_inode p λ r. record r { i_cnt = r.i_cnt + 1 }

-- The loop of fs_fork, with `n` entries left from entry `i` on.
unfoldable pub fork_files : ℕ → ℕ → ℕ → Code Fs (Unit {0})
fork_files zero i child = pure tt
fork_files (suc n) i child = do
  s ← get
  share_file ((s.kernel.proc_table child).filp i)
  fork_files n (i + 1) child

unfoldable pub fs_fork : Code Fs ℕ
fs_fork = do s ← get; fork_files nr_files 0 s.fs_msg.m3i2; pure 0

-- Process `p` gives up the file of entry `i`.
unfoldable pub leave_file : ℕ → ℕ → Option ℕ → Code Fs (Unit {0})
leave_file p i none = pure tt
leave_file p i (some f) = do
  s ← get
  with_some (s.f_desc_table f).fd_inode
      λ q. set_inode q λ r. record r { i_cnt = (r.i_cnt + 2 ^ 32 - 1) % 2 ^ 32 }
  set_file_desc f released
  set_filp p i none

-- The loop of fs_exit, with `n` entries left from entry `i` on.
unfoldable pub exit_files : ℕ → ℕ → ℕ → Code Fs (Unit {0})
exit_files zero i p = pure tt
exit_files (suc n) i p = do
  s ← get
  leave_file p i ((s.kernel.proc_table p).filp i)
  exit_files n (i + 1) p

unfoldable pub fs_exit : Code Fs ℕ
fs_exit = do s ← get; exit_files nr_files 0 s.fs_msg.m3i2; pure 0
