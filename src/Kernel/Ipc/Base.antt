-- ===== src/Kernel/Ipc/Base.antt =====
-- What the message functions of kernel/proc.c share: addresses, writes to a process, block and unblock.
-- A number behind `assert` is the line of the assert in kernel/proc.c.
use Prim.Native.Nat.{bit_or}
use dlos.Prelude.{
  ℕ, ◌+◌, ◌*◌, ◌%◌, ◌^◌, Option, none, some, Bool, true, false, not, ltb, ◌==◌, if◌then◌else◌,
  update,
}
use dlos.Const.{nr_tasks, nr_native_procs}
use dlos.Kernel.Proc.{
  Descriptor, Proc, Table, Kernel, Code, pure, ◌>>=◌, ◌>>◌, get, modify, assert, is_clear,
}
use dlos.Kernel.Sched.{schedule}

-- ldt_seg_linear
unfoldable pub ldt_seg_linear : Descriptor → ℕ
ldt_seg_linear d = bit_or (bit_or (d.base_high * 2 ^ 24) (d.base_mid * 2 ^ 16)) d.base_low

-- The linear address of `va` in process `pid`, as a u32.
abbrev pub linear : Table → ℕ → ℕ → ℕ
linear t pid va = (ldt_seg_linear (t pid).ldt_rw + va) % 2 ^ 32

unfoldable pub va2la : ℕ → ℕ → Code Kernel ℕ
va2la pid va = do
  k ← get
  let la = linear k.proc_table pid va
  assert 119 (if ltb pid (nr_tasks + nr_native_procs) then la == va else true)
  pure la

-- phys_copy(to, from, sizeof(MESSAGE))
abbrev pub copy_message : ℕ → ℕ → Code Kernel (Unit {0})
copy_message to from = modify λ k. record k { mail = update k.mail to (k.mail from) }

-- A write to the fields of one process.
abbrev pub set_proc : ℕ → (Proc → Proc) → Code Kernel (Unit {0})
set_proc p f = modify λ k. record k { proc_table = update k.proc_table p (f (k.proc_table p)) }

abbrev pub is_null : Option ℕ → Bool
is_null none = true
is_null (some p) = false

unfoldable pub block : ℕ → Code Kernel (Unit {0})
block p = do k ← get; assert 131 (not (is_clear (k.proc_table p).p_flags)); schedule

unfoldable pub unblock : ℕ → Code Kernel (Unit {0})
unblock p = do k ← get; assert 136 (is_clear (k.proc_table p).p_flags)
