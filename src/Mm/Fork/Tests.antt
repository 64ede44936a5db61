-- ===== src/Mm/Fork/Tests.antt =====
-- A fork of a process with an image of 64 KB at 8 MB.
use dlos.Prelude.{ltb, [], if◌then◌else◌, true}
use dlos.Kernel.Proc.{Proc, Table, reset_msg, no_flags}
use dlos.Kernel.Sample.{idle_proc, kernel}
use dlos.Kernel.Protect.{init_descriptor}
use dlos.Mm.Fork.{Mm}

abbrev caller : Proc
caller = record idle_proc {
  ldt_c = init_descriptor 0x800000 15 0xC0F8;
  ldt_rw = init_descriptor 0x800000 15 0xC0F2;
}

-- Processes 5 to 9 are in use.
abbrev some_used : Table
some_used p =
    if ltb p 10
    then caller
    else (record idle_proc { p_flags = record no_flags { free_slot = true } })

abbrev state : Mm
state = record {
  kernel = kernel some_used;
  memory = λ a. a;
  memory_size = 0x4000000;
  mm_msg = record reset_msg { source = 5 };
  outbox = [];
}
