-- ===== src/Kernel/Start/Tests.antt =====
-- The start of the system on a machine with a flat table of descriptors.
use dlos.Prelude.{ℕ, ◌+◌, ◌<◌, ◌≡◌, refl, arith, true, false, [], ◌∷◌, ltb, leb}
use dlos.Const.{nr_tasks, nr_native_procs, nr_all}
use dlos.Kernel.Proc.{done, is_clear, is_free_slot}
use dlos.Kernel.Ipc.Base.{ldt_seg_linear}
use dlos.Kernel.Ipc.Valid.{IsValid}
use dlos.Kernel.Protect.{Machine, init_prot, seg2linear}
use dlos.Kernel.KernelMap.{BootParams}
use dlos.Kernel.Start.{Places, Regs, Boot, kernel_main}
use dlos.Kernel.Start.Ready.{kernel_main-IsValid}
use dlos.Kernel.Protect.Sample.{image, machine}

-- A kernel of two sections, and one that is not loaded.
abbrev params : BootParams
params = record {
  magic = 0xB007;
  mem_size = 0x2000000;
  is_elf = true;
  sections =
      record { alloc = true; sh_addr = 0x30400; sh_size = 0x8000 }
      ∷ record { alloc = false; sh_addr = 0; sh_size = 0x100 }
      ∷ record { alloc = true; sh_addr = 0x39000; sh_size = 0x7000 }
      ∷ [];
}

abbrev places : Places
places = record { program_address = λ _. 0x31000; task_stack = 0x40000; boot_params = params }

abbrev no_regs : Regs
no_regs = record { cs = 0; ds = 0; es = 0; fs = 0; ss = 0; gs = 0; eip = 0; esp = 0; eflags = 0 }

kernel_main-IsValid_example :
    (m' : Machine) × (b : Boot) × (init_prot image machine ≡ done tt m')
    × (kernel_main places (record { machine = m'; regs = λ _. no_regs }) ≡ done tt b)
    × IsValid b.machine.kernel.proc_table (λ _. [])
    × ((p : ℕ)
        → p < nr_all
        → (is_clear (b.machine.kernel.proc_table p).p_flags ≡ ltb p (nr_tasks + nr_native_procs))
          × (is_free_slot (b.machine.kernel.proc_table p).p_flags
              ≡ leb (nr_tasks + nr_native_procs) p))
    × (b.machine.kernel.p_proc_ready ≡ 0)
unfolding seg2linear ldt_seg_linear
kernel_main-IsValid_example =
    kernel_main-IsValid image places machine (λ _. no_regs) refl refl refl (λ h. omega arith)
      (λ p. omega arith) (omega arith)
      (record { magic = refl; elf = refl; some_section = omega arith })
