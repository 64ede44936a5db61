-- ===== src/Kernel/Protect/Sample.antt =====
-- A machine as the loader leaves it: flat segments, empty gates.
use dlos.Prelude.{◌+◌, ◌*◌, ◌%◌, ◌^◌, ◌==◌, if◌then◌else◌}
use dlos.Kernel.Sample.{flat_segment, all_idle, kernel}
use dlos.Kernel.Protect.{Gate, Image, Machine, blank_descriptor}

abbrev pub no_gate : Gate
no_gate = record { offset_low = 0; selector = 0; dcount = 0; attr = 0; offset_high = 0 }

abbrev pub machine : Machine
machine = record {
  kernel = kernel all_idle;
  gdt = λ i. if i == 0 then blank_descriptor else flat_segment;
  idt = λ _. no_gate;
  tss = record { ss0 = 0; iobase = 0 };
}

abbrev pub image : Image
image = record {
  handler_address = λ _. 0x30400;
  tss_address = 0x38000;
  ldts_address = λ p. (0x39000 + p * 0x200) % 2 ^ 32;
}
