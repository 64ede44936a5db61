-- ===== src/Mm.antt =====
-- alloc_mem of mm/main.c: each child process has a region of memory of its own.
mod Tests
pub mod Fork
use dlos.Prelude.{
  ℕ, ◌+◌, ◌-◌, ◌*◌, ◌<◌, ◌≤◌, ◌≡◌, ◌≢◌, ◌⊎◌, inl, inr, refl, true, false, ltb, leb, if◌then◌else◌,
  arith, Bool-cases,
}
use dlos.Const.{nr_tasks, nr_native_procs}
use dlos.Kernel.Proc.{Code, Run, done, stop, panic, pure, ◌>>=◌, ◌>>◌, halt, get, assert}

abbrev pub procs_base : ℕ
procs_base = 0xA00000

abbrev pub proc_image_size_default : ℕ
proc_image_size_default = 0x100000

-- alloc_mem on a machine with `memory_size` bytes, which is the state. What it prints is left out.
unfoldable pub alloc_mem : ℕ → ℕ → Code ℕ ℕ
alloc_mem pid memsize = do
  memory_size ← get
  assert 67 (leb (nr_tasks + nr_native_procs) pid)
  if ltb proc_image_size_default memsize then halt panic else pure tt
  let base = procs_base + (pid - (nr_tasks + nr_native_procs)) * proc_image_size_default
  if leb memory_size (base + memsize) then halt panic else pure base

abbrev pub base_of : ℕ → ℕ
base_of pid = procs_base + (pid - (nr_tasks + nr_native_procs)) * proc_image_size_default

-- A child gets its region if memory reaches past it.
pub alloc_mem-room :
    (memory_size pid memsize : ℕ)
    → nr_tasks + nr_native_procs ≤ pid
    → memsize ≤ proc_image_size_default
    → base_of pid + memsize < memory_size
    → alloc_mem pid memsize memory_size ≡ done (base_of pid) memory_size
unfolding alloc_mem
alloc_mem-room memory_size pid memsize own fits room = ground arith

alloc_mem-done :
    (memory_size pid memsize a : ℕ)
    → alloc_mem pid memsize memory_size ≡ done a memory_size
    → (nr_tasks + nr_native_procs ≤ pid)
      × (memsize ≤ proc_image_size_default)
      × (a ≡ base_of pid)
      × (a + memsize < memory_size)
unfolding alloc_mem
alloc_mem-done memory_size pid memsize a e =
    elim (Bool-cases (leb (nr_tasks + nr_native_procs) pid)) [
      | inr low ↦ absurd (ground arith)
      | inl own ↦ elim (Bool-cases (ltb proc_image_size_default memsize)) [
        | inl large ↦ absurd (ground arith)
        | inr fits ↦ elim (Bool-cases (leb memory_size (base_of pid + memsize))) [
          | inl full ↦ absurd (ground arith)
          | inr room ↦
              let here : a ≡ base_of pid = ground arith in
              (ground arith, ground arith, here, ground (arith, here))
        ]
      ]
    ]

-- What two successful calls for different processes return: regions that end within memory and do
-- not overlap.
pub alloc_mem-apart :
    (memory_size p q m n a b : ℕ)
    → p ≢ q
    → alloc_mem p m memory_size ≡ done a memory_size
    → alloc_mem q n memory_size ≡ done b memory_size
    → (a + m < memory_size) × ((a + m ≤ b) ⊎ (b + n ≤ a))
alloc_mem-apart memory_size p q m n a b ne e f =
    let (lp, sp, ea, ra) = alloc_mem-done memory_size p m a e in
    let (lq, sq, eb, rb) = alloc_mem-done memory_size q n b f in
    (ra, omega (arith, ea, eb, lp, lq, sp, sq, ne))
