-- ===== src/Kernel/Protect/Tables.antt =====
-- init_prot of kernel/protect.c: what the tables of the processor and proc_table hold behind it.
use dlos.Prelude.{
  ℕ, zero, suc, ◌+◌, ◌*◌, ◌/◌, ◌%◌, ◌^◌, ◌≤◌, ◌<◌, ◌≡◌, refl, sym, true, ltb, update, update_self,
  update_ne, ℕ_discrete, arith, ap, subst, ◌∙◌,
}
use dlos.Const.{nr_all}
use dlos.Kernel.Proc.{Descriptor, Proc, done}
use dlos.Kernel.Protect.{
  copr_error, sys_call, gdt_size, selector_ldt_first, Handler, Image, Machine, selector_kernel_ds,
  index_tss, index_ldt_first, da_ldt, da_386_tss, init_descriptor, seg2linear, makelinear,
  idt_calls, init_idt, blank_proc, init_ldts, init_prot,
}
use dlos.Kernel.Protect.Segments.{Packed, init_descriptor-Packed}
use dlos.Kernel.Protect.Gates.{
  LeadsTo, LeadFrom, kernel_gate, user_gate, exceptions, lines, AllSet, init_idt-AllSet,
  AllSet-Gates,
}

-- What the loop over proc_table left for the entries from `i` to `j`.
record Cleared (image : Image) (m m' : Machine) (i j : ℕ) : Type 0 where
  proc :
      (p : ℕ)
      → i ≤ p
      → p < j
      → m'.kernel.proc_table p ≡ record blank_proc { ldt_sel = selector_ldt_first + p * 8 }
  ldt :
      (p : ℕ)
      → i ≤ p
      → p < j
      → m'.gdt (index_ldt_first + p) ≡ init_descriptor (image.ldts_address p) 15 da_ldt
  proc_before : (p : ℕ) → p < i → m'.kernel.proc_table p ≡ m.kernel.proc_table p
  gdt_before : (d : ℕ) → d < index_ldt_first + i → m'.gdt d ≡ m.gdt d
  idt : m'.idt ≡ m.idt

makelinear-flat :
    (gdt : ℕ → Descriptor) (a : ℕ)
    → seg2linear gdt selector_kernel_ds ≡ 0
    → a < 2 ^ 32
    → makelinear gdt selector_kernel_ds a ≡ a
makelinear-flat gdt a flat small = rw flat (omega arith)

seg2linear_kept :
    (gdt : ℕ → Descriptor) (i : ℕ) (d : Descriptor)
    → seg2linear gdt selector_kernel_ds ≡ 0
    → 2 < i
    → seg2linear (update gdt i d) selector_kernel_ds ≡ 0
unfolding seg2linear
seg2linear_kept gdt i d flat h = rw (update_ne gdt i 2 d (omega arith)) flat

init_ldts-Cleared :
    (image : Image) (n i j : ℕ) (m : Machine)
    → i + n ≡ j
    → j < 120
    → seg2linear m.gdt selector_kernel_ds ≡ 0
    → ((p : ℕ) → image.ldts_address p < 2 ^ 32)
    → (m' : Machine) × (init_ldts image n i m ≡ done tt m') × Cleared image m m' i j
unfolding init_ldts
init_ldts-Cleared image zero i j m all h flat small = (
  m,
  refl,
  record {
    proc = λ p l u. absurd (omega arith);
    ldt = λ p l u. absurd (omega arith);
    proc_before = λ p l. refl;
    gdt_before = λ d l. refl;
    idt = refl;
  },
)
init_ldts-Cleared image (suc n) i j m all h flat small =
    let t = m.kernel.proc_table in
    let q : Proc = record blank_proc { ldt_sel = (selector_ldt_first + i * 2 ^ 3) % 2 ^ 16 } in
    let base = makelinear m.gdt selector_kernel_ds (image.ldts_address i) in
    let d = init_descriptor base 15 da_ldt in
    let m1 : Machine = record m {
      kernel = record m.kernel { proc_table = update t i q };
      gdt = update m.gdt (index_ldt_first + i) d;
    } in
    let flat1 = seg2linear_kept m.gdt (index_ldt_first + i) d flat (omega arith) in
    let room : ltb (index_ldt_first + i) gdt_size ≡ true = ground arith in
    let (m2, run, c) = init_ldts-Cleared image n (i + 1) j m1 (omega arith) h flat1 small in
    (
      m2,
      rw room run,
      record {
        proc = λ p l u. elim (ℕ_discrete i p) [
          | yes here ↦
              c.proc_before p (omega arith)
              ∙ ap (update t i q) (sym here)
              ∙ update_self t i q
              ∙ ap (λ x. record blank_proc { ldt_sel = x }) (omega (arith, here))
          | no there ↦ c.proc p (omega arith) u
        ];
        ldt = λ p l u. elim (ℕ_discrete i p) [
          | yes here ↦
              c.gdt_before (index_ldt_first + p) (omega arith)
              ∙ ap (λ x. update m.gdt (index_ldt_first + i) d (index_ldt_first + x)) (sym here)
              ∙ update_self m.gdt (index_ldt_first + i) d
              ∙ ap (λ x. init_descriptor x 15 da_ldt)
                  (makelinear-flat m.gdt (image.ldts_address i) flat (small i)
                    ∙ ap image.ldts_address here)
          | no there ↦ c.ldt p (omega arith) u
        ];
        proc_before = λ p l. c.proc_before p (omega arith) ∙ update_ne t i p q (omega arith);
        gdt_before = λ e l.
            c.gdt_before e (omega arith) ∙ update_ne m.gdt (index_ldt_first + i) e d (omega arith);
        idt = c.idt;
      },
    )

-- What init_prot leaves.
pub record Prepared (image : Image) (m : Machine) : Type 0 where
  pub proc :
      (p : ℕ)
      → p < nr_all
      → m.kernel.proc_table p ≡ record blank_proc { ldt_sel = selector_ldt_first + p * 8 }
  pub ldt :
      (p : ℕ)
      → p < nr_all
      → Packed (m.gdt ((m.kernel.proc_table p).ldt_sel / 8)) (image.ldts_address p) 15 da_ldt
  pub tss : Packed (m.gdt index_tss) image.tss_address 103 da_386_tss
  pub faults : LeadFrom image m.idt 0 exceptions
  pub copr : LeadsTo image (m.idt 16) copr_error kernel_gate
  pub interrupts : LeadFrom image m.idt 32 (lines 16 0)
  pub calls : LeadsTo image (m.idt 0x90) sys_call user_gate

-- init_prot, where the descriptor for the kernel's data and the first descriptor have the base 0 and
-- the addresses fit in 32 bits: it returns; every entry of proc_table is zero but for its selector,
-- which selects the descriptor of that entry's LDT, with the address of the LDT as base; the TSS has
-- its descriptor; the gates of the exceptions 0 to 14 and 16 and of the sixteen interrupts from 0x20 on
-- lead to their functions in the kernel's code segment, for the kernel only, and the gate 0x90 leads to
-- sys_call, for every process. The other descriptors before the TSS are as they were.
pub init_prot-Prepared :
    (image : Image) (m : Machine)
    → seg2linear m.gdt selector_kernel_ds ≡ 0
    → seg2linear m.gdt 0 ≡ 0
    → ((h : Handler) → image.handler_address h < 2 ^ 32)
    → ((p : ℕ) → image.ldts_address p < 2 ^ 32)
    → image.tss_address < 2 ^ 32
    → (m' : Machine) × (init_prot image m ≡ done tt m')
      × Prepared image m'
      × ((d : ℕ) → d < index_tss → m'.gdt d ≡ m.gdt d)
unfolding init_prot
init_prot-Prepared image m flat dummy handlers ldts tss =
    let base = makelinear m.gdt (seg2linear m.gdt selector_kernel_ds) image.tss_address in
    let d = init_descriptor base 103 da_386_tss in
    let m1 : Machine = record m {
      gdt = update m.gdt index_tss d;
      idt = init_idt image idt_calls m.idt;
      tss = record { ss0 = selector_kernel_ds; iobase = 104 };
    } in
    let flat1 = seg2linear_kept m.gdt index_tss d flat (omega arith) in
    let (m2, run, c) = init_ldts-Cleared image nr_all 0 nr_all m1 refl (omega arith) flat1 ldts in
    let address : base ≡ image.tss_address =
      ap (λ s. makelinear m.gdt s image.tss_address) flat
      ∙ ap (λ b. (b + image.tss_address) % 2 ^ 32) dummy
      ∙ omega arith in
    let gates = AllSet-Gates image handlers m2.idt (
      subst (λ x. AllSet image idt_calls x) (sym c.idt)
        (init_idt-AllSet image idt_calls m.idt refl)) in
    (
      m2,
      run,
      record {
        proc = λ p h. c.proc p (omega arith) h;
        ldt = λ p h.
            let here : (m2.kernel.proc_table p).ldt_sel / 8 ≡ index_ldt_first + p =
              ap (λ (q : Proc). q.ldt_sel / 8) (c.proc p (omega arith) h) ∙ omega arith in
            subst (λ x. Packed x (image.ldts_address p) 15 da_ldt)
              (sym (ap m2.gdt here ∙ c.ldt p (omega arith) h))
              (init_descriptor-Packed (image.ldts_address p) 15 da_ldt (ldts p) (omega arith)
                (omega arith));
        tss =
            subst (λ x. Packed x image.tss_address 103 da_386_tss)
              (sym (
                c.gdt_before index_tss (omega arith)
                ∙ update_self m.gdt index_tss d
                ∙ ap (λ b. init_descriptor b 103 da_386_tss) address))
              (init_descriptor-Packed image.tss_address 103 da_386_tss tss (omega arith)
                (omega arith));
        faults = gates.faults;
        copr = gates.copr;
        interrupts = gates.interrupts;
        calls = gates.calls;
      },
      λ e h. c.gdt_before e (omega arith) ∙ update_ne m.gdt index_tss e d (omega arith),
    )
