-- ===== src/Kernel/Sample.antt =====
-- A small state of the kernel for runs: every process of proc_table is idle.
use dlos.Prelude.{none, false, []}
use dlos.Const.{no_task}
use dlos.Kernel.Proc.{Descriptor, no_flags, Proc, reset_msg, Table, Kernel}

abbrev pub flat_segment : Descriptor
flat_segment = record {
  limit_low = 0xffff;
  base_low = 0;
  base_mid = 0;
  attr1 = 0xb2;
  limit_high_attr2 = 0xcf;
  base_high = 0;
}

abbrev pub idle_proc : Proc
idle_proc = record {
  ldt_sel = 0x28;
  ldt_c = flat_segment;
  ldt_rw = flat_segment;
  ticks = 0;
  priority = 15;
  name = [];
  p_flags = no_flags;
  p_msg = 0;
  p_recvfrom = no_task;
  p_sendto = no_task;
  has_int_msg = false;
  q_sending = none;
  next_sending = none;
  nr_tty = 0;
  p_parent = no_task;
  filp = λ _. none;
}

abbrev pub all_idle : Table
all_idle _ = idle_proc

abbrev pub kernel : Table → Kernel
kernel t = record {
  proc_table = t;
  p_proc_ready = 5;
  mail = λ _. reset_msg;
  k_reenter = 0;
  ticks = 0;
  key_pressed = false;
}
