-- ===== src/Const.antt =====
-- The constants of include/sys/const.h, include/sys/proc.h and include/sys/fs.h that several
-- parts share. A C `int` that is only compared is kept as its 32-bit pattern.
use dlos.Prelude.{ℕ, ◌+◌, ◌-◌, ◌^◌}

abbrev pub nr_tasks : ℕ
nr_tasks = 5

abbrev pub nr_procs : ℕ
nr_procs = 32

abbrev pub nr_native_procs : ℕ
nr_native_procs = 4

-- The entries of proc_table: NR_TASKS + NR_PROCS.
abbrev pub nr_all : ℕ
nr_all = 37

-- ANY, NO_TASK, and INTERRUPT, which is -10.
abbrev pub any : ℕ
any = nr_tasks + nr_procs + 10

abbrev pub no_task : ℕ
no_task = nr_tasks + nr_procs + 20

abbrev pub interrupt : ℕ
interrupt = 2 ^ 32 - 10

abbrev pub task_tty : ℕ
task_tty = 0

abbrev pub task_sys : ℕ
task_sys = 1

abbrev pub task_hd : ℕ
task_hd = 2

abbrev pub task_fs : ℕ
task_fs = 3

abbrev pub task_mm : ℕ
task_mm = 4

-- `function` of a system call.
abbrev pub send_function : ℕ
send_function = 1

abbrev pub receive_function : ℕ
receive_function = 2

abbrev pub both_function : ℕ
both_function = 3

-- enum msgtype
abbrev pub hard_int : ℕ
hard_int = 1

abbrev pub get_ticks_type : ℕ
get_ticks_type = 2

abbrev pub get_pid_type : ℕ
get_pid_type = 3

abbrev pub open_type : ℕ
open_type = 4

abbrev pub close_type : ℕ
close_type = 5

abbrev pub read_type : ℕ
read_type = 6

abbrev pub write_type : ℕ
write_type = 7

abbrev pub unlink_type : ℕ
unlink_type = 10

abbrev pub suspend_proc : ℕ
suspend_proc = 12

abbrev pub resume_proc : ℕ
resume_proc = 13

abbrev pub fork_type : ℕ
fork_type = 16

abbrev pub exit_type : ℕ
exit_type = 17

abbrev pub syscall_ret : ℕ
syscall_ret = 18

abbrev pub dev_open : ℕ
dev_open = 1001

abbrev pub dev_close : ℕ
dev_close = 1002

abbrev pub dev_read : ℕ
dev_read = 1003

abbrev pub dev_write : ℕ
dev_write = 1004

abbrev pub dev_ioctl : ℕ
dev_ioctl = 1005

abbrev pub nr_consoles : ℕ
nr_consoles = 3

abbrev pub sector_size : ℕ
sector_size = 512

abbrev pub max_ticks : ℕ
max_ticks = 0x7FFFABCD
