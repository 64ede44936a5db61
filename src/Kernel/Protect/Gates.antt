-- ===== src/Kernel/Protect/Gates.antt =====
-- init_idt of kernel/protect.c: where the gates of the processor lead.
use dlos.Prelude.{
  ℕ, zero, suc, ◌+◌, ◌*◌, ◌/◌, ◌^◌, ◌<◌, ◌≡◌, refl, Bool, true, not, ◌&&◌, ◌==◌, List, [], ◌∷◌,
  update, update_self, arith, ap, ◌∙◌, bit_and_mask,
}
use dlos.Kernel.Protect.{
  divide_error, single_step_exception, nmi, breakpoint_exception, overflow, bounds_check,
  inval_opcode, copr_not_available, double_fault, copr_seg_overrun, inval_tss, segment_not_present,
  stack_exception, general_protection, page_fault, copr_error, hwint, sys_call, Gate, Handler,
  Image, da_386_i_gate, idt_desc, idt_calls, init_idt,
}

-- The address that a gate leads to.
abbrev pub entry_of : Gate → ℕ
entry_of g = g.offset_high * 2 ^ 16 + g.offset_low

-- A gate for an interrupt: it leads to `h`, in the kernel's code segment, with the given attributes.
pub record LeadsTo (image : Image) (g : Gate) (h : Handler) (attributes : ℕ) : Type 0 where
  pub entry : entry_of g ≡ image.handler_address h
  pub selector : g.selector ≡ 8
  pub dcount : g.dcount ≡ 0
  pub attr : g.attr ≡ attributes

-- An interrupt gate that is present, for the kernel only and for every process.
abbrev pub kernel_gate : ℕ
kernel_gate = 0x8E

abbrev pub user_gate : ℕ
user_gate = 0xEE

-- The gates from vector `v` on lead to these functions, in order.
abbrev pub LeadFrom : Image → (ℕ → Gate) → ℕ → List Handler → Type 0
LeadFrom image idt v [] = Unit {0}
LeadFrom image idt v (h ∷ hs) = LeadsTo image (idt v) h kernel_gate × LeadFrom image idt (v + 1) hs

-- The exceptions of the processor from 0 to 14, and the lines of the interrupt controllers.
abbrev pub exceptions : List Handler
exceptions =
    divide_error ∷ single_step_exception ∷ nmi ∷ breakpoint_exception ∷ overflow ∷ bounds_check
    ∷ inval_opcode ∷ copr_not_available ∷ double_fault ∷ copr_seg_overrun ∷ inval_tss
    ∷ segment_not_present ∷ stack_exception ∷ general_protection ∷ page_fault ∷ []

abbrev pub lines : ℕ → ℕ → List Handler
lines zero i = []
lines (suc n) i = hwint i ∷ lines n (i + 1)

entry_of-idt_desc : (t base p : ℕ) → base < 2 ^ 32 → entry_of (idt_desc t base p) ≡ base
unfolding idt_desc
entry_of-idt_desc t base p h = omega (arith, bit_and_mask 16 base, bit_and_mask 16 (base / 2 ^ 16))

-- No call is for vector `v`.
abbrev none_for : ℕ → List (ℕ × Handler × ℕ) → Bool
none_for v [] = true
none_for v ((w, h, p) ∷ calls) = not (v == w) && none_for v calls

abbrev once_per_vector : List (ℕ × Handler × ℕ) → Bool
once_per_vector [] = true
once_per_vector ((v, h, p) ∷ calls) = none_for v calls && once_per_vector calls

-- Every call wrote its gate.
abbrev pub AllSet : Image → List (ℕ × Handler × ℕ) → (ℕ → Gate) → Type 0
AllSet image [] idt = Unit {0}
AllSet image ((v, h, p) ∷ calls) idt =
    (idt v ≡ idt_desc da_386_i_gate (image.handler_address h) p) × AllSet image calls idt

init_idt_kept :
    (image : Image) (calls : List (ℕ × Handler × ℕ)) (idt : ℕ → Gate) (v : ℕ)
    → none_for v calls ≡ true
    → init_idt image calls idt v ≡ idt v
unfolding init_idt
init_idt_kept image [] idt v none_for = refl
init_idt_kept image ((w, h, p) ∷ calls) idt v free =
    init_idt_kept image calls _ v (ground (arith, free)) ∙ ground (arith, free)

pub init_idt-AllSet :
    (image : Image) (calls : List (ℕ × Handler × ℕ)) (idt : ℕ → Gate)
    → once_per_vector calls ≡ true
    → AllSet image calls (init_idt image calls idt)
unfolding init_idt
init_idt-AllSet image [] idt once = tt
init_idt-AllSet image ((v, h, p) ∷ calls) idt once =
    let g = idt_desc da_386_i_gate (image.handler_address h) p in
    let idt' = update idt v g in
    (
      init_idt_kept image calls idt' v (ground (arith, once)) ∙ update_self idt v g,
      init_idt-AllSet image calls idt' (ground (arith, once)),
    )

-- Calls for consecutive vectors, for the kernel only.
abbrev kernel_calls : ℕ → List Handler → List (ℕ × Handler × ℕ) → List (ℕ × Handler × ℕ)
kernel_calls v [] rest = rest
kernel_calls v (h ∷ hs) rest = (v, h, 0) ∷ kernel_calls (v + 1) hs rest

module _ (image : Image) (small : (h : Handler) → image.handler_address h < 2 ^ 32) where
  kernel-LeadsTo :
      (g : Gate) (h : Handler)
      → g ≡ idt_desc da_386_i_gate (image.handler_address h) 0
      → LeadsTo image g h kernel_gate
  unfolding idt_desc
  kernel-LeadsTo g h e = record {
    entry = ap entry_of e ∙ entry_of-idt_desc da_386_i_gate (image.handler_address h) 0 (small h);
    selector = ap (λ (x : Gate). x.selector) e;
    dcount = ap (λ (x : Gate). x.dcount) e;
    attr = ap (λ (x : Gate). x.attr) e;
  }

  user-LeadsTo :
      (g : Gate) (h : Handler)
      → g ≡ idt_desc da_386_i_gate (image.handler_address h) 3
      → LeadsTo image g h user_gate
  unfolding idt_desc
  user-LeadsTo g h e = record {
    entry = ap entry_of e ∙ entry_of-idt_desc da_386_i_gate (image.handler_address h) 3 (small h);
    selector = ap (λ (x : Gate). x.selector) e;
    dcount = ap (λ (x : Gate). x.dcount) e;
    attr = ap (λ (x : Gate). x.attr) e;
  }

  split :
      (idt : ℕ → Gate) (v : ℕ) (hs : List Handler) (rest : List (ℕ × Handler × ℕ))
      → AllSet image (kernel_calls v hs rest) idt
      → LeadFrom image idt v hs × AllSet image rest idt
  split idt v [] rest s = (tt, s)
  split idt v (h ∷ hs) rest (e, s) =
      let (ok, s') = split idt (v + 1) hs rest s in ((kernel-LeadsTo (idt v) h e, ok), s')

  -- The gates of init_prot.
  pub record Gates (idt : ℕ → Gate) : Type 0 where
    pub faults : LeadFrom image idt 0 exceptions
    pub copr : LeadsTo image (idt 16) copr_error kernel_gate
    pub interrupts : LeadFrom image idt 32 (lines 16 0)
    pub calls : LeadsTo image (idt 0x90) sys_call user_gate

  pub AllSet-Gates : (idt : ℕ → Gate) → AllSet image idt_calls idt → Gates idt
  AllSet-Gates idt s =
      let last : List (ℕ × Handler × ℕ) = (0x90, sys_call, 3) ∷ [] in
      let irqs = kernel_calls 32 (lines 16 0) last in
      let (faults, s0) = split idt 0 exceptions ((16, copr_error, 0) ∷ irqs) s in
      let (copr, s1) = s0 in
      let (interrupts, s2) = split idt 32 (lines 16 0) last s1 in
      record {
        faults = faults;
        copr = kernel-LeadsTo (idt 16) copr_error copr;
        interrupts = interrupts;
        calls = user-LeadsTo (idt 0x90) sys_call s2.0;
      }
