-- ===== src/Mm/Fork/Copy.antt =====
-- do_fork of mm/forkexit.c gives the child a copy of its parent's memory.

use dlos.Prelude.{ℕ, ◌+◌, ◌≤◌, ◌<◌, ◌≡◌, ◌≢◌, ◌⊎◌, List, ◌∷◌, ◌++◌, update}
use dlos.Prelude.Int.{pos}
use dlos.Const.{task_fs, fork_type, syscall_ret}
use dlos.Kernel.Proc.{Descriptor, Proc, Table, reset_msg}
use dlos.Kernel.Ipc.Base.{ldt_seg_linear, linear}
use dlos.Libc.Print.{i2a, int_digits}
use dlos.Mm.{base_of}
use dlos.Mm.Fork.{
  Mm, segment_base, segment_limit, segment_size, phys_copied, clone_proc, move_segments,
}

-- The caller's segments, as do_fork reads them.
pub record Image (code rw_data : Descriptor) (base limit size : ℕ) : Type 0 where
  pub code_base : segment_base code ≡ base
  pub rw_base : segment_base rw_data ≡ base
  pub code_limit : segment_limit code ≡ limit
  pub rw_limit : segment_limit rw_data ≡ limit
  pub code_size : segment_size limit code ≡ size
  pub rw_size : segment_size limit rw_data ≡ size
  pub linear_base : ldt_seg_linear rw_data ≡ base

-- The state behind copy_image.
abbrev copied_state : Mm → ℕ → ℕ → ℕ → Mm
copied_state s child base size =
    let t = s.kernel.proc_table in
    record s {
      kernel = record s.kernel {
        proc_table = update t child (move_segments (base_of child) (t child));
      };
      memory = phys_copied (base_of child) base size s.memory;
      mm_msg = record s.mm_msg { m3i2 = child };
      outbox =
          (child, record reset_msg { type = syscall_ret; m3i1 = 0; m3i2 = 0 })
          ∷ (task_fs, record reset_msg { type = fork_type; m3i2 = child })
          ∷ s.outbox;
    }

abbrev table : Mm → Table
table s = s.kernel.proc_table

-- The child has its parent's entry and memory, at places of its own.
pub record Forked (s s' : Mm) (pid child size : ℕ) : Type 0 where
  pub others : (q : ℕ) → q ≢ child → s'.kernel.proc_table q ≡ s.kernel.proc_table q
  pub parent : (s'.kernel.proc_table child).p_parent ≡ pid
  pub selector : (s'.kernel.proc_table child).ldt_sel ≡ (s.kernel.proc_table child).ldt_sel
  pub name :
      (s'.kernel.proc_table child).name
      ≡ (s.kernel.proc_table pid).name ++ 95 ∷ i2a int_digits (pos child) 10
  pub flags : (s'.kernel.proc_table child).p_flags ≡ (s.kernel.proc_table pid).p_flags
  pub files : (s'.kernel.proc_table child).filp ≡ (s.kernel.proc_table pid).filp
  pub memory_copied :
      (va : ℕ)
      → va < size
      → s'.memory (linear s'.kernel.proc_table child va)
        ≡ s.memory (linear s.kernel.proc_table pid va)
  pub memory_kept :
      (a : ℕ) → (a < base_of child) ⊎ (base_of child + size ≤ a) → s'.memory a ≡ s.memory a
  pub outbox :
      s'.outbox
      ≡ (child, record reset_msg { type = syscall_ret; m3i1 = 0; m3i2 = 0 })
        ∷ (task_fs, record reset_msg { type = fork_type; m3i2 = child })
        ∷ s.outbox

-- The entry of the child in the end.
abbrev child_entry : Mm → ℕ → ℕ → List ℕ → Proc
child_entry s pid child name =
    move_segments (base_of child) (clone_proc pid name (table s pid) (table s child))
