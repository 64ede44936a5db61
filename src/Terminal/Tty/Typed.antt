-- ===== src/Terminal/Tty/Typed.antt =====
-- What a key changes before the answer, in tty_dev_write of kernel/tty.c.
use dlos.Prelude.{
  ℕ, inl, inr, ◌≢◌, ◌+◌, ◌-◌, ◌≡◌, refl, Bool, true, false, update, not, ◌&&◌, leb, ◌==◌,
  if◌then◌else◌, arith, Bool-cases, ◌∙◌,
}
use dlos.Const.{task_tty}
use dlos.Kernel.Proc.{done, >>=-done}
use dlos.Kernel.Ipc.Base.{ldt_seg_linear, va2la}
use dlos.Terminal.State.{Terminal, in_kernel}
use dlos.Terminal.Console.{out_char}
use dlos.Terminal.Tty.{Locals, echo_char, erase_char, echo_key}
use dlos.Terminal.Tty.Shown.{AllConsoles, out_char-Shown, IsTask, va2la_run}

-- The counts of a reader after a character: what is left to read, and what was read.
abbrev pub echoed : ℕ → ℕ → ℕ → ℕ × ℕ
echoed ch left trans =
    if leb 32 ch && leb ch 126
    then (left - 1, trans + 1)
    else if ch == 8 && not (trans == 0)
    then (left + 1, trans - 1)
    else (left, trans)

-- What a key does before the answer, where `printable` and `erases` tell its kind: out_char draws it, and
-- a printable one is stored behind what the reader has; or nothing happens.
abbrev pub Echo : Bool → Bool → Terminal → Terminal → ℕ → ℕ → Type 0
Echo true erases s s' t ch =
    (s1 : Terminal) × (out_char (s.tty_table t).p_console ch s ≡ done tt s1)
    × (s' ≡ record s1 {
      memory = update s1.memory ((s.tty_table t).tty_req_buf + (s.tty_table t).tty_trans_cnt) ch;
      tty_table = update s1.tty_table t (record (s1.tty_table t) {
        tty_trans_cnt = (s1.tty_table t).tty_trans_cnt + 1;
        tty_left_cnt = (s1.tty_table t).tty_left_cnt - 1;
      });
    })
Echo false true s s' t ch =
    (s1 : Terminal) × (out_char (s.tty_table t).p_console ch s ≡ done tt s1)
    × (s' ≡ record s1 {
      tty_table = update s1.tty_table t (record (s1.tty_table t) {
        tty_trans_cnt = (s1.tty_table t).tty_trans_cnt - 1;
        tty_left_cnt = (s1.tty_table t).tty_left_cnt + 1;
      });
    })
Echo false false s s' t ch = s' ≡ s

-- A state in which only the screen, one terminal's counts and a byte of its reader differ.
pub record Typed (s s' : Terminal) (t ch : ℕ) : Type 0 where
  pub kernel : s'.kernel ≡ s.kernel
  pub outbox : s'.outbox ≡ s.outbox
  pub others : (u : ℕ) → t ≢ u → s'.tty_table u ≡ s.tty_table u
  pub self : s'.tty_table t ≡ record (s.tty_table t) {
    tty_left_cnt = (echoed ch (s.tty_table t).tty_left_cnt (s.tty_table t).tty_trans_cnt).0;
    tty_trans_cnt = (echoed ch (s.tty_table t).tty_left_cnt (s.tty_table t).tty_trans_cnt).1;
  }
  pub stored :
      leb 32 ch && leb ch 126 ≡ true
      → s'.memory ((s.tty_table t).tty_req_buf + (s.tty_table t).tty_trans_cnt) ≡ ch
  pub echo :
      Echo (leb 32 ch && leb ch 126) (ch == 8 && not ((s.tty_table t).tty_trans_cnt == 0)) s s' t ch
  pub consoles : AllConsoles s'

pub echo_key-Typed :
    (s : Terminal) (t ch : ℕ) (l : Locals)
    → IsTask s t l
    → (s' : Terminal) × (echo_key l t ch s ≡ done tt s') × Typed s s' t ch
unfolding echo_key echo_char erase_char
echo_key-Typed s t ch l v =
    let (s1, run1, shown) = out_char-Shown (s.tty_table t).p_console ch s v.consoles v.console in
    elim (Bool-cases (leb 32 ch && leb ch 126)) [
      | inl y ↦
          let flat : ldt_seg_linear (s1.kernel.proc_table task_tty).ldt_rw ≡ 0 =
            rw (shown.rest) v.flat in
          rw y (
            _,
            >>=-done (out_char (s.tty_table t).p_console ch) _ run1
                ∙ >>=-done (in_kernel (va2la task_tty l.ch)) _ (va2la_run s1 t l.ch flat v.small.0),
            record {
              kernel = cc (shown.rest);
              outbox = cc (shown.rest);
              others = λ u n. ground (arith, shown.rest);
              self = ground (arith, shown.rest, y);
              stored = λ _. ground arith;
              echo = rw y (s1, run1, refl);
              consoles = shown.consoles;
            },
          )
      | inr n ↦ elim (Bool-cases (ch == 8 && not ((s.tty_table t).tty_trans_cnt == 0))) [
        | inl y ↦
            rw (n, y)
              (
                _,
                >>=-done (out_char (s.tty_table t).p_console ch) _ run1,
                record {
                  kernel = cc (shown.rest);
                  outbox = cc (shown.rest);
                  others = λ u n. ground (arith, shown.rest);
                  self = ground (arith, shown.rest, y);
                  stored = λ e. cc;
                  echo = rw (n, y) (s1, run1, refl);
                  consoles = shown.consoles;
                },
              )
        | inr m ↦
            rw (n, m)
              (
                s,
                refl,
                record {
                  kernel = refl;
                  outbox = refl;
                  others = λ u n. refl;
                  self = ground (arith, n, m);
                  stored = λ e. cc;
                  echo = rw (n, m) refl;
                  consoles = v.consoles;
                },
              )
      ]
    ]
