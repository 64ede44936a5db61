-- ===== src/Mm/Fork.antt =====
-- do_fork of mm/forkexit.c, and the task that calls it (mm/main.c).
mod Tests
pub mod Copy
use Prim.Native.Nat.{bit_and, bit_or}
use dlos.Prelude.{
  length, ℕ, zero, suc, ◌+◌, ◌-◌, ◌*◌, ◌/◌, ◌%◌, ◌^◌, Bool, true, false, not, ◌&&◌, Option, none,
  some, ltb, leb, ◌==◌, if◌then◌else◌, List, [], ◌∷◌, update,
}
use dlos.Prelude.Int.{pos}
use dlos.Const.{nr_tasks, nr_native_procs, nr_all, task_fs, fork_type, syscall_ret}
use dlos.Kernel.Proc.{
  Descriptor, Proc, Message, Kernel, Code, Run, done, stop, panic, reset_msg, is_free_slot, pure,
  ◌>>=◌, ◌>>◌, get, modify, halt, assert,
}
use dlos.Kernel.Protect.{init_descriptor, reassembly}
use dlos.Kernel.Start.{da_c, da_drw, paged_segment}
use dlos.Libc.Print.{word, text, vsprintf}
use dlos.Mm.{alloc_mem}

-- The state of the task: `memory` by linear address, and the messages sent, the last first. The
-- answers to them are not read.
pub record Mm : Type 0 where
  pub kernel : Kernel
  pub memory : ℕ → ℕ
  pub memory_size : ℕ
  pub mm_msg : Message
  pub outbox : List (ℕ × Message)

-- The search of do_fork, with `n` entries left from entry `i` on: the first free entry, or the end.
unfoldable pub free_proc_slot : ℕ → ℕ → (ℕ → Proc) → ℕ
free_proc_slot zero i t = i
free_proc_slot (suc n) i t =
    let rest = free_proc_slot n (i + 1) t in if is_free_slot (t i).p_flags then i else rest

-- Base, limit and size that do_fork reads from a descriptor. `granular` is the one whose
-- granularity counts, which do_fork takes with the limit of the code segment.
abbrev pub segment_base : Descriptor → ℕ
segment_base d = reassembly d.base_high 24 d.base_mid 16 d.base_low

abbrev pub segment_limit : Descriptor → ℕ
segment_limit d = reassembly 0 0 (bit_and d.limit_high_attr2 0xF) 16 d.limit_low

abbrev pub segment_size : ℕ → Descriptor → ℕ
segment_size limit granular =
    (limit + 1)
    * (if bit_and granular.limit_high_attr2 (0x8000 / 2 ^ 8) == 0 then 1 else 4096)
    % 2 ^ 32

abbrev pub set_child : ℕ → (Proc → Proc) → Code Mm (Unit {0})
set_child p f = modify λ s. record s {
  kernel = record s.kernel {
    proc_table = update s.kernel.proc_table p (f (s.kernel.proc_table p));
  };
}

-- alloc_mem works on `memory_size`.
abbrev pub allocate : ℕ → ℕ → Code Mm ℕ
allocate pid memsize s = elim (alloc_mem pid memsize s.memory_size) [
  | done a size ↦ done a (record s { memory_size = size })
  | stop e ↦ stop e
]

-- phys_copy(to, from, size)
abbrev pub phys_copied : ℕ → ℕ → ℕ → (ℕ → ℕ) → ℕ → ℕ
phys_copied to from size m a = if leb to a && ltb a (to + size) then m (from + (a - to)) else m a

abbrev pub send_to : ℕ → Message → Code Mm (Unit {0})
send_to dest m = modify λ s. record s { outbox = (dest, m) ∷ s.outbox }

-- `"%s_%d"`
abbrev pub name_format : List ℕ
name_format = 37 ∷ 115 ∷ 95 ∷ 37 ∷ 100 ∷ []

-- The entry of the child, from that of its parent.
unfoldable pub clone_proc : ℕ → List ℕ → Proc → Proc → Proc
clone_proc pid name parent child = record parent {
  ldt_sel = child.ldt_sel;
  p_parent = pid;
  name = name;
}

-- `PROC_IMAGE_SIZE_DEFAULT - 1`, in pages.
abbrev pub child_limit : ℕ
child_limit = (0x100000 - 1) / 2 ^ 12

-- The two segments of the child start at its region.
abbrev pub move_segments : ℕ → Proc → Proc
move_segments child_base p = record p {
  ldt_c = init_descriptor child_base child_limit (paged_segment da_c 3);
  ldt_rw = init_descriptor child_base child_limit (paged_segment da_drw 3);
}

-- do_fork from alloc_mem on: the child gets a copy of the `size` bytes at `base`.
unfoldable pub copy_region : ℕ → ℕ → ℕ → Code Mm ℕ
copy_region child_pid base size = do
  child_base ← allocate child_pid size
  modify λ s. record s { memory = phys_copied child_base base size s.memory }
  set_child child_pid (move_segments child_base)
  send_to task_fs (record reset_msg { type = fork_type; m3i2 = child_pid })
  modify λ s. record s { mm_msg = record s.mm_msg { m3i2 = child_pid } }
  send_to child_pid (record reset_msg { type = syscall_ret; m3i1 = 0; m3i2 = 0 })
  pure 0

-- do_fork from the check of the caller's segments on.
unfoldable pub copy_image : ℕ → Descriptor → Descriptor → Code Mm ℕ
copy_image child_pid code rw_data = do
  let size = segment_size (segment_limit code) code
  assert 52 (
      segment_base code == segment_base rw_data
      && segment_limit code == segment_limit rw_data
      && size == segment_size (segment_limit code) rw_data)
  copy_region child_pid (segment_base code) size

-- do_fork behind the choice of `child_pid` and the name of the child.
unfoldable pub fork_into : ℕ → ℕ → List ℕ → Code Mm ℕ
fork_into pid child_pid name = do
  s0 ← get
  set_child child_pid (clone_proc pid name (s0.kernel.proc_table pid))
  s ← get
  copy_image child_pid (s.kernel.proc_table pid).ldt_c (s.kernel.proc_table pid).ldt_rw

-- The size of `name` in struct proc, with the final 0.
abbrev pub name_size : ℕ
name_size = 16

-- A name that does not fit is written over the fields behind it, `p_flags` first: what comes of the
-- process is undefined.
abbrev pub named : ℕ → ℕ → Option (List ℕ) → Code Mm ℕ
named pid child_pid none = halt panic
named pid child_pid (some name) =
    if ltb (length name) name_size then fork_into pid child_pid name else halt panic

-- do_fork with the entry that the search found. -1 is 2 ^ 32 - 1.
unfoldable pub fork_as : ℕ → Code Mm ℕ
fork_as child_pid = do
  s ← get
  let pid = s.mm_msg.source
  assert 27 (leb (nr_tasks + nr_native_procs) child_pid)
  if child_pid == nr_all then pure (2 ^ 32 - 1) else do
    assert 30 (ltb child_pid nr_all)
    named pid child_pid
        (vsprintf name_format (text (s.kernel.proc_table pid).name ∷ word (pos child_pid) ∷ []))

unfoldable pub do_fork : Code Mm ℕ
do_fork = do s ← get; fork_as (free_proc_slot nr_all 0 s.kernel.proc_table)

-- A round of the loop of task_mm, with the message `msg` received.
unfoldable pub mm_round : Message → Code Mm (Unit {0})
mm_round msg = do
  modify λ s. record s { mm_msg = msg }
  if msg.type == fork_type
      then (do r ← do_fork; modify λ s. record s { mm_msg = record s.mm_msg { m3i1 = r } })
      else assert 45 false
  modify λ s. record s { mm_msg = record s.mm_msg { type = syscall_ret } }
  s ← get
  send_to msg.source s.mm_msg
