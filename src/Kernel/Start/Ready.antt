-- ===== src/Kernel/Start/Ready.antt =====
-- The table that init_prot and kernel_main leave is one that the message system keeps valid.
use dlos.Prelude.{
  ℕ, zero, suc, inl, inr, ◌+◌, ◌-◌, ◌^◌, ◌≤◌, ◌<◌, ◌≡◌, refl, sym, Bool, true, false, leb, ltb,
  none, if◌then◌else◌, List, [], update, update_self, update_ne, ℕ_discrete, Bool-cases, arith, ap,
  subst, ◌∙◌,
}
use dlos.Const.{nr_tasks, nr_native_procs, nr_all}
use dlos.Kernel.Proc.{
  Descriptor, Proc, Table, Code, is_clear, is_free_slot, ◌>>=◌, ◌>>◌, modify, done, >>=-done,
}
use dlos.Kernel.Ipc.Base.{ldt_seg_linear}
use dlos.Kernel.Ipc.Valid.{IsValid, InPhase}
use dlos.Kernel.Ipc.Waits.{stops}
use dlos.Kernel.Protect.{
  Handler, Image, Machine, init_descriptor, init_prot, seg2linear, selector_kernel_ds,
}
use dlos.Kernel.Protect.Tables.{init_prot-Prepared}
use dlos.Libc.Strings.{strcmp_is_0}
use dlos.Kernel.Start.{
  map_for, Places, Boot, Regs, set_entry, init_name, ldt_segment, task_of, start_proc, start_regs,
  free_proc, stack_size_total, start_procs, kernel_main,
}
use dlos.Kernel.Start.Map.{HasKernel, map_of, map_for-run}

-- The entry of process `p` behind its round.
abbrev started : Places → (ℕ → Descriptor) → ℕ → Proc → Proc
started places gdt p r =
    if leb (nr_tasks + nr_native_procs) p
    then free_proc r
    else start_proc (map_of places (task_of p).name) gdt p r

abbrev table : Boot → Table
table b = b.machine.kernel.proc_table

record Started (places : Places) (b b' : Boot) (i j : ℕ) : Type 0 where
  entry : (p : ℕ) → i ≤ p → p < j → table b' p ≡ started places b.machine.gdt p (table b p)
  before : (p : ℕ) → p < i → table b' p ≡ table b p
  gdt : b'.machine.gdt ≡ b.machine.gdt

-- The state behind the round for process `i`, which leaves the entry `r` and the registers `regs`.
abbrev behind : Boot → ℕ → Proc → (ℕ → Regs) → Boot
behind b i r regs = record b {
  machine = record b.machine {
    kernel = record b.machine.kernel { proc_table = update b.machine.kernel.proc_table i r };
  };
  regs = regs;
}

abbrev round : Places → ℕ → ℕ → (ℕ → Descriptor) → Bool → Code Boot (Unit {0})
round places i top gdt unused = if unused then set_entry i free_proc else do
  k ← map_for places (task_of i).name
  set_entry i (start_proc k gdt i)
  modify λ b. record b { regs = update b.regs i (start_regs places i top) }

round_run :
    (places : Places) (i top : ℕ) (b : Boot) (unused : Bool)
    → HasKernel places.boot_params
    → round places i top b.machine.gdt unused b
      ≡ done tt (
          behind b i
            (if unused
              then free_proc (table b i)
              else start_proc (map_of places (task_of i).name) b.machine.gdt i (table b i))
            (if unused then b.regs else update b.regs i (start_regs places i top)))
round_run places i top b true h = refl
round_run places i top b false h =
    >>=-done (map_for places (task_of i).name) _ (map_for-run places (task_of i).name b h)

start_procs-Started :
    (places : Places) (n i j top : ℕ) (b : Boot)
    → HasKernel places.boot_params
    → i + n ≡ j
    → (b' : Boot) × (start_procs places n i top b ≡ done tt b') × Started places b b' i j
unfolding start_procs
start_procs-Started places zero i j top b kernel all =
    (b, refl, record { entry = λ p l u. absurd (omega arith); before = λ p l. refl; gdt = refl })
start_procs-Started places (suc n) i j top b kernel all =
    let unused = leb (nr_tasks + nr_native_procs) i in
    let r = started places b.machine.gdt i (table b i) in
    let regs = if unused then b.regs else update b.regs i (start_regs places i top) in
    let top' = if unused then top else top - (task_of i).stacksize in
    let b1 = behind b i r regs in
    let (b2, run, c) = start_procs-Started places n (i + 1) j top' b1 kernel (omega arith) in
    (
      b2,
      >>=-done (round places i top b.machine.gdt unused) (λ _. start_procs places n (i + 1) top')
            (round_run places i top b unused kernel)
          ∙ run,
      record {
        entry = λ p l u. elim (ℕ_discrete i p) [
          | yes here ↦
              c.before p (omega arith)
              ∙ ap (update (table b) i r) (sym here)
              ∙ update_self (table b) i r
              ∙ ap (λ x. started places b.machine.gdt x (table b x)) here
          | no there ↦
              c.entry p (omega arith) u
              ∙ ap (started places b.machine.gdt p) (update_ne (table b) i p r there)
        ];
        before = λ p l. c.before p (omega arith) ∙ update_ne (table b) i p r (omega arith);
        gdt = c.gdt;
      },
    )

-- What the invariant of the message system asks of a process that has not run.
record IsFresh (r : Proc) (p : ℕ) : Type 0 where
  q : r.q_sending ≡ none
  sending : r.p_flags.sending ≡ false
  phase : InPhase r
  small : r.p_msg < 2 ^ 32
  flat : p < nr_tasks + nr_native_procs → ldt_seg_linear r.ldt_rw ≡ 0
  ready : is_clear r.p_flags ≡ ltb p (nr_tasks + nr_native_procs)
  unused : is_free_slot r.p_flags ≡ leb (nr_tasks + nr_native_procs) p

IsValid-of_fresh : (t : Table) → ((p : ℕ) → p < nr_all → IsFresh (t p) p) → IsValid t (λ _. [])
IsValid-of_fresh t fresh = record {
  queue = λ d h. (fresh d h).q;
  distinct = λ d h. tt;
  members = λ d s h i. absurd (ground arith);
  listed = λ s h i. absurd (ground (arith, (fresh s h).sending));
  phase = λ p h. (fresh p h).phase;
  small = λ p h. (fresh p h).small;
  flat = λ p h. (fresh p (omega arith)).flat h;
  ends = λ p h. (0, stops (fresh p h).sending);
}

ldt_segment-flat :
    (k : ℕ × ℕ) (gdt : ℕ → Descriptor) (name : List ℕ) (type privilege : ℕ)
    → ldt_seg_linear (gdt 1) ≡ 0
    → ldt_seg_linear (ldt_segment k gdt name type privilege) ≡ 0
unfolding ldt_seg_linear init_descriptor
ldt_segment-flat k gdt name type privilege flat = elim (Bool-cases (strcmp_is_0 name init_name)) [
  | inl same ↦ rw same refl
  | inr other ↦ rw other flat
]

started-IsFresh :
    (places : Places) (gdt : ℕ → Descriptor) (p : ℕ) (r : Proc)
    → ldt_seg_linear (gdt 1) ≡ 0
    → r.q_sending ≡ none
    → r.p_msg < 2 ^ 32
    → IsFresh (started places gdt p r) p
unfolding start_proc
started-IsFresh places gdt p r flat no_queue small =
    elim (Bool-cases (leb (nr_tasks + nr_native_procs) p)) [
      | inl unused ↦ rw unused (record {
        q = no_queue;
        sending = refl;
        phase = inr (inr (inr refl));
        small = small;
        flat = λ h. absurd (ground arith);
        ready = ground arith;
        unused = sym unused;
      })
      | inr used ↦ rw used (record {
        q = refl;
        sending = refl;
        phase = inl (refl, refl, refl, refl);
        small = omega arith;
        flat = λ h. ldt_segment-flat (map_of places (task_of p).name) gdt _ _ _ flat;
        ready = ground arith;
        unused = sym used;
      })
    ]

IsFresh-nr_tty : (r : Proc) (p n : ℕ) → IsFresh r p → IsFresh (record r { nr_tty = n }) p
IsFresh-nr_tty r p n f = record {
  q = f.q;
  sending = f.sending;
  phase = f.phase;
  small = f.small;
  flat = f.flat;
  ready = f.ready;
  unused = f.unused;
}

with_tty-IsFresh :
    (t : Table) (q n : ℕ)
    → ((p : ℕ) → p < nr_all → IsFresh (t p) p)
    → (p : ℕ) → p < nr_all
    → IsFresh (update t q (record (t q) { nr_tty = n }) p) p
with_tty-IsFresh t q n fresh p h = elim (ℕ_discrete q p) [
  | yes here ↦
      subst (λ r. IsFresh r p)
        (sym (
          ap (update t q (record (t q) { nr_tty = n })) (sym here)
          ∙ update_self t q (record (t q) { nr_tty = n })
          ∙ ap (λ x. record (t x) { nr_tty = n }) here))
        (IsFresh-nr_tty (t p) p n (fresh p h))
  | no there ↦
      subst (λ r. IsFresh r p) (sym (update_ne t q p (record (t q) { nr_tty = n }) there))
        (fresh p h)
]

-- The start of the system: init_prot and then kernel_main, where the descriptors of the kernel's
-- code and data and the first one have the base 0, addresses fit in 32 bits, and the boot parameters
-- hold their magic number and the kernel's ELF file with a section to load. Both return; the
-- table is valid for the message system, with all queues empty; the first nine processes are
-- ready and all others are free; and process 0 is the one to run.
pub kernel_main-IsValid :
    (image : Image) (places : Places) (m : Machine) (regs : ℕ → Regs)
    → seg2linear m.gdt selector_kernel_ds ≡ 0
    → seg2linear m.gdt 0 ≡ 0
    → ldt_seg_linear (m.gdt 1) ≡ 0
    → ((h : Handler) → image.handler_address h < 2 ^ 32)
    → ((p : ℕ) → image.ldts_address p < 2 ^ 32)
    → image.tss_address < 2 ^ 32
    → HasKernel places.boot_params
    → (m' : Machine) × (b : Boot) × (init_prot image m ≡ done tt m')
      × (kernel_main places (record { machine = m'; regs = regs }) ≡ done tt b)
      × IsValid b.machine.kernel.proc_table (λ _. [])
      × ((p : ℕ)
          → p < nr_all
          → (is_clear (b.machine.kernel.proc_table p).p_flags ≡ ltb p (nr_tasks + nr_native_procs))
            × (is_free_slot (b.machine.kernel.proc_table p).p_flags
                ≡ leb (nr_tasks + nr_native_procs) p))
      × (b.machine.kernel.p_proc_ready ≡ 0)
unfolding kernel_main
kernel_main-IsValid image places m regs ds dummy cs handlers ldts tss kernel =
    let (m1, prepared, p, kept) = init_prot-Prepared image m ds dummy handlers ldts tss in
    let b0 : Boot = record { machine = m1; regs = regs } in
    let top = places.task_stack + stack_size_total in
    let (b1, run, c) = start_procs-Started places nr_all 0 nr_all top b0 kernel refl in
    let flat : ldt_seg_linear (m1.gdt 1) ≡ 0 = ap ldt_seg_linear (kept 1 (omega arith)) ∙ cs in
    let fresh : (q : ℕ) → q < nr_all → IsFresh (table b1 q) q = λ q h.
      subst (λ r. IsFresh r q) (sym (c.entry q (omega arith) h))
        (started-IsFresh places m1.gdt q (m1.kernel.proc_table q) flat
          (ap (λ (r : Proc). r.q_sending) (p.proc q h))
          (subst (λ x. x < 2 ^ 32) (sym (ap (λ (r : Proc). r.p_msg) (p.proc q h)))
            (omega arith))) in
    let t1 = update (table b1) 5 (record (table b1 5) { nr_tty = 0 }) in
    let t2 = update t1 6 (record (t1 6) { nr_tty = 1 }) in
    let t3 = update t2 7 (record (t2 7) { nr_tty = 2 }) in
    let fresh3 =
      with_tty-IsFresh t2 7 2 (with_tty-IsFresh t1 6 1 (with_tty-IsFresh (table b1) 5 0 fresh)) in
    let b2 : Boot = record b1 {
      machine = record b1.machine {
        kernel = record b1.machine.kernel {
          proc_table = t3;
          k_reenter = 0;
          ticks = 0;
          p_proc_ready = 0;
        };
      };
    } in
    (
      m1,
      b2,
      prepared,
      >>=-done (start_procs places nr_all 0 top) _ run,
      IsValid-of_fresh t3 fresh3,
      λ q h. ((fresh3 q h).ready, (fresh3 q h).unused),
      refl,
    )
