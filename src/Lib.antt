-- ===== src/Lib.antt =====
-- dlos, a small operating system for the i386 in C. Its kernel (kernel/) schedules processes
-- and passes messages between them; the tasks of the system are processes that wait for
-- messages: the terminals (kernel/tty.c), the clock and system service (kernel/systask.c), the
-- disk (kernel/hd.c), the file system (fs/) and the memory (mm/). A user program calls a
-- function of lib/, which sends a message with send_recv and waits for the answer. Interrupts
-- reach the tasks through inform_int.
--
-- The files, and the code that they model:
--   Prelude: names of the libraries, Boolean tests, lists and integers over the native numbers,
--     tables.
--   Const: constants of include/sys/.
--   Kernel/Proc: struct proc, MESSAGE and the globals of kernel/proc.c; Run, the way a kernel
--     function ends; and Code, a chain of such functions with the state passed on.
--   Kernel/Sched: schedule of kernel/proc.c; its proofs in Sched/Scan and Sched/Choice.
--   Kernel/Ipc: sys_sendrec and send_recv of kernel/proc.c, with msg_send and deadlock in
--     Ipc/Send and msg_receive and inform_int in Ipc/Receive. Ipc/Queue has the queues of
--     senders, Ipc/Waits the chains of processes that wait, Ipc/Valid the invariant; the other
--     modules prove one case of a system call each.
--   Kernel/Clock: clock_handler of kernel/clock.c and the service of kernel/systask.c.
--   Kernel/Protect: kernel/protect.c and its macros in include/sys/protect.h; the packing of
--     descriptors in Protect/Segments, the gates and the tables that init_prot leaves in
--     Protect/Gates and Protect/Tables.
--   Kernel/Start: kernel_main of kernel/main.c with the tables of kernel/global.c; it calls
--     get_kernel_map and get_boot_params of lib/klib.c (Kernel/KernelMap), where a record holds
--     what elf.h, which is not in the repository, says of the file of the kernel; that what it
--     leaves is valid for the message system is in Start/Ready.
--   Kernel/Hd: kernel/hd.c, with the drive as a state of its own; requests in Hd/Transfer and
--     Hd/Request, partitions and the other services in Hd/Partition and Hd/Parts.
--   Libc: memcmp, strcmp and strcat of lib/misc.c, on a memory of bytes (Libc/Memory,
--     Libc/Strings); vsprintf of lib/vsprintf.c and itoa of lib/klib.c (Libc/Print); the system
--     calls open, close, read, write, unlink and getpid of lib/ (Libc/Calls).
--   Terminal: kernel/console.c (Terminal/Console), kernel/tty.c (Terminal/Tty),
--     kernel/keyboard.c (Terminal/Keyboard, Terminal/Keys) and include/sys/keymap.h
--     (Terminal/Keymap), on the state of Terminal/State.
--   Mm: alloc_mem and task_mm of mm/main.c, and do_fork of mm/forkexit.c (Mm/Fork).
--   Fs: the inodes and super blocks of fs/main.c (Fs/Inode), fs_fork and fs_exit (Fs/Share),
--     fs/misc.c (Fs/Path), fs/open.c (Fs/Alloc, Fs/Files), fs/link.c (Fs/Unlink),
--     fs/read_write.c (Fs/ReadWrite), mkfs, init_fs and read_super_block of fs/main.c (Fs/Mkfs)
--     and task_fs, which calls all of these (Fs/Task), on the state of Fs/State.
--
-- A pointer into a table is its index. A failed assert, a panic and a loop without end are
-- values of Stop, with the line of the assert. An `int` that is never negative where the code
-- is used is a natural number; unsigned arithmetic that can wrap has its modulus written out.
--
-- Loops are recursion on what is left of their range, or on fuel. schedule has two rounds:
-- after one that refills the ticks of the ready processes the next one finds a process unless
-- all priorities are 0. A walk along a queue of senders or a chain of waiting processes has one
-- round for each entry of proc_table. The loop of out_char that moves the window has as many
-- rounds as the console has cells, and it moves by a line each time. strcmp and strcat take the
-- fuel as an argument, and the theorems ask for more than the strings are long. i2a has 32
-- digits, as many as an int has in base 2. The loop of hd_rdwt has one round more than there
-- are bytes, and each round moves by a sector.
--
-- A message that a task sends to another is put in its outbox: the switch of processes in
-- between is left out. The answer of the terminals to task_fs is a parameter, other drivers'
-- answers are not read. Interrupts come between the calls of the modelled functions: an endless
-- loop is one that nothing in the state ends, so when nobody can run schedule turns until an
-- interrupt makes a process ready. To the file system the disk driver is what rw_sector asks of
-- it, a transfer of bytes for a device that has a driver in dd_map, so that the assert there
-- holds; Kernel/Hd shows that hd_rdwt does that for a drive which answers. The drive is a
-- number of sectors that it has still to transfer, and an interrupt is the end of each.
--
-- Not modelled: assembly and the boot code; the programming of the interrupt controller, the
-- timer and the registers of the disk controller beyond the command; printf, printl and the
-- dumps, which only print; the log of fs/disklog.c; and the test programs of kernel/main.c.
pub mod Const
pub mod Fs
pub mod Kernel
pub mod Libc
pub mod Mm
pub mod Prelude
pub mod Terminal
