-- ===== src/Kernel/Start.antt =====
-- kernel_main of kernel/main.c, up to the jump into the first process: the first contents of
-- proc_table, from the tables of kernel/global.c.
mod Tests
pub mod Map
pub mod Ready
use Prim.Native.Nat.{bit_and, bit_or}
use dlos.Prelude.{
  ℕ, zero, suc, ◌+◌, ◌-◌, ◌*◌, ◌/◌, ◌%◌, ◌^◌, Bool, true, false, not, ◌&&◌, Option, none, some, ltb,
  leb, List, [], ◌∷◌, get_or, ◌==◌, update, if◌then◌else◌,
}
use dlos.Const.{nr_tasks, nr_native_procs, nr_all, no_task}
use dlos.Kernel.Proc.{
  Descriptor, Flags, Proc, Kernel, Code, no_flags, done, stop, assertion, assert, halt, pure, ◌>>=◌,
  ◌>>◌, get, modify,
}
use dlos.Libc.Strings.{strcmp_is_0}
use dlos.Kernel.Protect.{Machine, selector_kernel_cs, init_descriptor}
use dlos.Kernel.KernelMap.{BootParams, get_kernel_map}

-- The functions that the processes run.
pub data Program : Type 0 where
  tty_task sys_task hd_task fs_task mm_task init_program program_a program_b program_c : Program

pub record Task : Type 0 where
  pub initial_eip : Program
  pub stacksize : ℕ
  pub name : List ℕ

-- struct stackframe: the registers that kernel_main sets.
pub record Regs : Type 0 where
  pub cs : ℕ
  pub ds : ℕ
  pub es : ℕ
  pub fs : ℕ
  pub ss : ℕ
  pub gs : ℕ
  pub eip : ℕ
  pub esp : ℕ
  pub eflags : ℕ

-- What the linker and the loader tell: the addresses of the programs and of `task_stack`, and the
-- parameters of the boot.
pub record Places : Type 0 where
  pub program_address : Program → ℕ
  pub task_stack : ℕ
  pub boot_params : BootParams

module _ {S : Type 0} where
  -- `assert(ret == 0)`
  abbrev pub found_map : Option (ℕ × ℕ) → Code S (ℕ × ℕ)
  found_map none = halt (assertion 66)
  found_map (some r) = pure r

-- `regs` holds the saved registers of each process.
pub record Boot : Type 0 where
  pub machine : Machine
  pub regs : ℕ → Regs

abbrev pub stack_size_default : ℕ
stack_size_default = 0x4000

abbrev pub stack_size_total : ℕ
stack_size_total = 9 * stack_size_default

abbrev pub no_entry : Task
no_entry = record { initial_eip = init_program; stacksize = 0; name = [] }

abbrev pub init_name : List ℕ
init_name = 73 ∷ 78 ∷ 73 ∷ 84 ∷ []

-- task_table
abbrev pub task_table : List Task
task_table =
    record { initial_eip = tty_task; stacksize = stack_size_default; name = 84 ∷ 84 ∷ 89 ∷ [] }
    ∷ record { initial_eip = sys_task; stacksize = stack_size_default; name = 83 ∷ 89 ∷ 83 ∷ [] }
    ∷ record { initial_eip = hd_task; stacksize = stack_size_default; name = 72 ∷ 68 ∷ [] }
    ∷ record { initial_eip = fs_task; stacksize = stack_size_default; name = 70 ∷ 83 ∷ [] }
    ∷ record { initial_eip = mm_task; stacksize = stack_size_default; name = 77 ∷ 77 ∷ [] }
    ∷ []

abbrev pub test_name : ℕ → List ℕ
test_name c = 84 ∷ 101 ∷ 115 ∷ 116 ∷ c ∷ []

-- user_proc_table
abbrev pub user_proc_table : List Task
user_proc_table =
    record { initial_eip = init_program; stacksize = stack_size_default; name = init_name }
    ∷ record { initial_eip = program_a; stacksize = stack_size_default; name = test_name 65 }
    ∷ record { initial_eip = program_b; stacksize = stack_size_default; name = test_name 66 }
    ∷ record { initial_eip = program_c; stacksize = stack_size_default; name = test_name 67 }
    ∷ []

-- What differs between a task and a user process.
pub record Level : Type 0 where
  pub privilege : ℕ
  pub rpl : ℕ
  pub eflags : ℕ
  pub prio : ℕ

abbrev pub level_of : ℕ → Level
level_of i =
    if ltb i nr_tasks
    then record { privilege = 1; rpl = 1; eflags = 0x1202; prio = 15 }
    else record { privilege = 3; rpl = 3; eflags = 0x202; prio = 5 }

abbrev pub task_of : ℕ → Task
task_of i =
    if ltb i nr_tasks
    then get_or task_table i no_entry
    else get_or user_proc_table (i - nr_tasks) no_entry

abbrev pub da_32 : ℕ
da_32 = 0x4000

abbrev pub da_limit_4k : ℕ
da_limit_4k = 0x8000

abbrev pub da_c : ℕ
da_c = 0x98

abbrev pub da_drw : ℕ
da_drw = 0x92

-- The attributes of a segment with a limit in pages: `DA_32 | DA_LIMIT_4K | type | privilege << 5`.
abbrev pub paged_segment : ℕ → ℕ → ℕ
paged_segment type privilege = bit_or (bit_or (bit_or da_32 da_limit_4k) type) (privilege * 2 ^ 5)

-- The segment of type `type` in the LDT of a process other than INIT: the kernel's code segment
-- with its own `attr1`, for the data too.
abbrev pub kernel_segment : (ℕ → Descriptor) → ℕ → ℕ → Descriptor
kernel_segment gdt type privilege = record (gdt (selector_kernel_cs / 2 ^ 3)) {
  attr1 = bit_or type (privilege * 2 ^ 5) % 2 ^ 8;
}

-- `k` is the base and the limit of the kernel.
abbrev pub ldt_segment : ℕ × ℕ → (ℕ → Descriptor) → List ℕ → ℕ → ℕ → Descriptor
ldt_segment k gdt name type privilege =
    if not (strcmp_is_0 name init_name)
    then kernel_segment gdt type privilege
    else init_descriptor 0 ((k.0 + k.1) % 2 ^ 32 / 2 ^ 12) (paged_segment type privilege)

-- INIT asks for the place of the kernel; the others leave `k_base` and `k_limit` alone.
unfoldable pub map_for : Places → List ℕ → Code Boot (ℕ × ℕ)
map_for places name =
    if not (strcmp_is_0 name init_name)
    then pure (0, 0)
    else do k ← get_kernel_map places.boot_params; found_map k

-- What the round for process `i` writes into its entry.
unfoldable pub start_proc : ℕ × ℕ → (ℕ → Descriptor) → ℕ → Proc → Proc
start_proc k gdt i p =
    let task = task_of i in
    let level = level_of i in
    record p {
      name = task.name;
      p_parent = no_task;
      ldt_c = ldt_segment k gdt task.name da_c level.privilege;
      ldt_rw = ldt_segment k gdt task.name da_drw level.privilege;
      p_flags = no_flags;
      p_msg = 0;
      p_recvfrom = no_task;
      p_sendto = no_task;
      has_int_msg = false;
      q_sending = none;
      next_sending = none;
      ticks = level.prio;
      priority = level.prio;
      filp = λ _. none;
    }

-- SA_TIL is 4; the selectors point into the LDT, `gs` to the video memory.
unfoldable pub start_regs : Places → ℕ → ℕ → Regs
start_regs places i p_task_stack =
    let level = level_of i in
    let code = bit_or (bit_or (0 * 2 ^ 3) 4) level.rpl in
    let rw_data = bit_or (bit_or (1 * 2 ^ 3) 4) level.rpl in
    record {
      cs = code;
      ds = rw_data;
      es = rw_data;
      fs = rw_data;
      ss = rw_data;
      gs = bit_or (bit_and 0x1B 0xFFFC) level.rpl;
      eip = places.program_address (task_of i).initial_eip;
      esp = p_task_stack;
      eflags = level.eflags;
    }

abbrev pub free_proc : Proc → Proc
free_proc p = record p {
  p_flags = record {
    sending = false;
    receiving = false;
    waiting = false;
    hanging = false;
    free_slot = true;
  };
}

abbrev pub set_entry : ℕ → (Proc → Proc) → Code Boot (Unit {0})
set_entry i f = modify λ b. record b {
  machine = record b.machine {
    kernel = record b.machine.kernel {
      proc_table = update b.machine.kernel.proc_table i (f (b.machine.kernel.proc_table i));
    };
  };
}

-- The loop of kernel_main, with `n` processes left from process `i` on and the top of the next
-- stack.
unfoldable pub start_procs : Places → ℕ → ℕ → ℕ → Code Boot (Unit {0})
start_procs places zero i p_task_stack = pure tt
start_procs places (suc n) i p_task_stack = do
  b ← get
  if leb (nr_tasks + nr_native_procs) i then set_entry i free_proc else do
    k ← map_for places (task_of i).name
    set_entry i (start_proc k b.machine.gdt i)
    modify λ b. record b { regs = update b.regs i (start_regs places i p_task_stack) }
  start_procs places n (i + 1) (
      if leb (nr_tasks + nr_native_procs) i
      then p_task_stack
      else p_task_stack - (task_of i).stacksize)

-- kernel_main without what it prints and the set-up of the clock and the keyboard.
unfoldable pub kernel_main : Places → Code Boot (Unit {0})
kernel_main places = do
  start_procs places nr_all 0 (places.task_stack + stack_size_total)
  set_entry nr_tasks λ p. record p { nr_tty = 0 }
  set_entry (nr_tasks + 1) λ p. record p { nr_tty = 1 }
  set_entry (nr_tasks + 2) λ p. record p { nr_tty = 2 }
  modify λ b. record b {
    machine = record b.machine {
      kernel = record b.machine.kernel { k_reenter = 0; ticks = 0; p_proc_ready = 0 };
    };
  }
