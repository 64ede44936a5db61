-- ===== src/Terminal/Tty/Shown.antt =====
-- What the task of the terminals of kernel/tty.c draws, on any of its consoles.
use dlos.Prelude.{
  ℕ, inl, inr, ◌⊎◌, ◌+◌, ◌*◌, ◌^◌, ◌≤◌, ◌<◌, ◌≡◌, refl, ◌||◌, List, [], ◌∷◌, ◌==◌, arith,
  Bool-cases, ◌∙◌,
}
use dlos.Const.{nr_consoles, task_tty}
use dlos.Kernel.Proc.{done, pure, ◌>>=◌, >>=-done}
use dlos.Kernel.Ipc.Base.{ldt_seg_linear, va2la}
use dlos.Kernel.Ipc.Valid.{va2la-linear}
use dlos.Terminal.State.{Terminal, in_kernel}
use dlos.Terminal.Console.{v_mem_base, v_mem_size, out_char}
use dlos.Terminal.Console.Valid.{IsConsole}
use dlos.Terminal.Console.Draw.{out_char-Drawn}
use dlos.Terminal.Tty.{print_chars, sys_printx, resume_chars, Locals}

-- All consoles are valid and lie in the memory of the screen.
abbrev pub AllConsoles : Terminal → Type 0
AllConsoles s =
    (c : ℕ)
    → c < nr_consoles
    → IsConsole (s.console_table c)
      × ((s.console_table c).original_addr + (s.console_table c).v_mem_limit) * 2 ≤ v_mem_size

-- Code that draws, on any consoles.
pub record Shown (s s' : Terminal) : Type 0 where
  pub rest :
      s' ≡ record s { memory = s'.memory; console_table = s'.console_table; ports = s'.ports }
  pub cells : (a : ℕ) → a < v_mem_base ⊎ (v_mem_base + v_mem_size ≤ a) → s'.memory a ≡ s.memory a
  pub consoles : AllConsoles s'

pub Shown-trans : (s s' s'' : Terminal) → Shown s s' → Shown s' s'' → Shown s s''
Shown-trans s s' s'' d e = record {
  rest = cc (d.rest, e.rest);
  cells = λ a o. e.cells a o ∙ d.cells a o;
  consoles = e.consoles;
}

pub out_char-Shown :
    (c ch : ℕ) (s : Terminal)
    → AllConsoles s
    → c < nr_consoles
    → (s' : Terminal) × (out_char c ch s ≡ done tt s') × Shown s s'
out_char-Shown c ch s v h =
    let (s', run, seen, d) = out_char-Drawn c ch s (v c h).0 in
    (
      s',
      run,
      record {
        rest = d.rest;
        cells = λ a o. d.cells a (ground (arith, (v c h).1));
        consoles = λ e i. elim (Bool-cases (c == e)) [
          | inl y ↦
              let same : e ≡ c = ground arith in
              rw same (d.valid, ground (arith, (v c h).1, d.place))
          | inr n ↦
              let same : s'.console_table e ≡ s.console_table e = d.others e (ground arith) in
              rw same (v e i)
        ];
      },
    )

pub print_chars-Shown :
    (c : ℕ) (text : List ℕ) (s : Terminal)
    → AllConsoles s
    → c < nr_consoles
    → (s' : Terminal) × (print_chars c text s ≡ done tt s') × Shown s s'
unfolding print_chars
print_chars-Shown c [] s v h = (s, refl, record { rest = refl; cells = λ a o. refl; consoles = v })
print_chars-Shown c (ch ∷ text) s v h = elim (Bool-cases (ch == 2 || ch == 3)) [
  | inl y ↦ rw y (print_chars-Shown c text s v h)
  | inr n ↦
      let (s1, run1, shown1) = out_char-Shown c ch s v h in
      let (s2, run2, shown2) = print_chars-Shown c text s1 shown1.consoles h in
      rw n (
        s2,
        >>=-done (out_char c ch) (λ _. print_chars c text) run1 ∙ run2,
        Shown-trans s s1 s2 shown1 shown2,
      )
]

-- The task's own segment begins at 0, its local variables have addresses below 2 ^ 32, and its
-- consoles exist.
pub record IsTask (s : Terminal) (t : ℕ) (l : Locals) : Type 0 where
  pub flat : ldt_seg_linear (s.kernel.proc_table task_tty).ldt_rw ≡ 0
  pub small : (l.ch < 2 ^ 32) × (l.resume_text < 2 ^ 32)
  pub consoles : AllConsoles s
  pub console : (s.tty_table t).p_console < nr_consoles
  pub debug_console : (s.tty_table (s.kernel.proc_table task_tty).nr_tty).p_console < nr_consoles

pub va2la_run :
    (s : Terminal) (t va : ℕ)
    → ldt_seg_linear (s.kernel.proc_table task_tty).ldt_rw ≡ 0
    → va < 2 ^ 32
    → in_kernel (va2la task_tty va) s ≡ done va s
va2la_run s t va flat small =
    let run = va2la-linear s.kernel task_tty va (λ _. flat) small in ground (arith, run)

pub printx_run :
    (s : Terminal) (t : ℕ) (l : Locals)
    → IsTask s t l
    → (s' : Terminal) × (sys_printx l.resume_text resume_chars task_tty s ≡ done 0 s') × Shown s s'
unfolding sys_printx
printx_run s t l v =
    let (s', run, shown) =
      print_chars-Shown (s.tty_table (s.kernel.proc_table task_tty).nr_tty).p_console resume_chars s
        v.consoles v.debug_console in
    let printed : (print_chars (s.tty_table (s.kernel.proc_table task_tty).nr_tty).p_console
              resume_chars
            >>= λ _. pure 0)
          s
        ≡ done 0 s' =
      >>=-done
        (print_chars (s.tty_table (s.kernel.proc_table task_tty).nr_tty).p_console resume_chars)
        (λ _. pure 0) run in
    elim (Bool-cases (s.kernel.k_reenter == 0)) [
      | inl y ↦ (
        s',
        rw y (
            >>=-done (in_kernel (va2la task_tty l.resume_text) >>= λ la. pure tt) _ (
              >>=-done (in_kernel (va2la task_tty l.resume_text)) (λ la. pure tt)
                (va2la_run s t l.resume_text v.flat v.small.1))
            ∙ printed),
        shown,
      )
      | inr n ↦ (s', rw n printed, shown)
    ]
