-- ===== src/Terminal/Tty/Echo.antt =====
-- What tty_dev_write of kernel/tty.c does with a key: the screen, the reader's buffer, the counts
-- and the answer.
use dlos.Prelude.{
  ℕ, inl, inr, ◌≢◌, ◌+◌, ◌%◌, ◌≤◌, ◌<◌, ◌⊎◌, ◌&&◌, not, leb, subst, ◌≡◌, refl, Bool, true, false,
  ◌||◌, List, ◌∷◌, ◌==◌, if◌then◌else◌, update, arith, Bool-cases, ap, ◌∙◌,
}
use dlos.Const.{task_tty}
use dlos.Kernel.Proc.{done, >>=-done}
use dlos.Terminal.State.{Terminal, Tty}
use dlos.Terminal.Console.{v_mem_base, v_mem_size, out_char}
use dlos.Terminal.Tty.{
  sys_printx, resume_chars, resume_message, Locals, resume_reader, echo_key, finish_read,
  without_key, tty_dev_write,
}
use dlos.Terminal.Tty.Input.{keys, IsTty, without_key-keys}
use dlos.Terminal.Tty.Shown.{AllConsoles, Shown, Shown-trans, out_char-Shown, IsTask, printx_run}
use dlos.Terminal.Tty.Typed.{echoed, Echo, Typed, echo_key-Typed}

-- The end of a reading, if `answers` says so: a line feed and the text "tty resume" go to the screens,
-- then the answer is sent with the number of characters read, and nothing is left to read.
abbrev pub End : Bool → Locals → ℕ → Terminal → Terminal → Type 0
End true l t s s' =
    (s1 s2 : Terminal) × (out_char (s.tty_table t).p_console 10 s ≡ done tt s1)
    × (sys_printx l.resume_text resume_chars task_tty s1 ≡ done 0 s2)
    × (s' ≡ record s2 {
      outbox = ((s.tty_table t).tty_caller, resume_message l.msg (s.tty_table t)) ∷ s2.outbox;
      tty_table = update s2.tty_table t (record (s2.tty_table t) { tty_left_cnt = 0 });
    })
End false l t s s' = s' ≡ s

abbrev answered : Terminal → Terminal → Locals → ℕ → Terminal
answered s1 s2 l t = record s2 {
  outbox = ((s1.tty_table t).tty_caller, resume_message l.msg (s1.tty_table t)) ∷ s2.outbox;
  tty_table = update s2.tty_table t (record (s2.tty_table t) { tty_left_cnt = 0 });
}

resume_reader_run :
    (s : Terminal) (t : ℕ) (l : Locals)
    → IsTask s t l
    → (s1 : Terminal) × (resume_reader l t s ≡ done tt (answered s s1 l t))
      × Shown s s1
      × End true l t s (answered s s1 l t)
unfolding resume_reader
resume_reader_run s t l v =
    let (s1, run1, shown1) = out_char-Shown (s.tty_table t).p_console 10 s v.consoles v.console in
    let task1 : IsTask s1 t l = record {
      flat = rw (shown1.rest) v.flat;
      small = v.small;
      consoles = shown1.consoles;
      console = rw (shown1.rest) v.console;
      debug_console = rw (shown1.rest) v.debug_console;
    } in
    let (s2, run2, shown2) = printx_run s1 t l task1 in
    (
      s2,
      >>=-done (out_char (s.tty_table t).p_console 10) _ run1
          ∙ >>=-done (sys_printx l.resume_text resume_chars task_tty) _ run2,
      Shown-trans s s1 s2 shown1 shown2,
      (s1, s2, run1, run2, refl),
    )

-- Whether the reader gets its answer.
abbrev pub answers : ℕ → ℕ → ℕ → Bool
answers ch left trans = ch == 10 || (echoed ch left trans).0 == 0

-- What the terminal is after the key, before the answer.
abbrev typed : Tty → ℕ → Tty
typed r ch = record (without_key r) {
  tty_left_cnt = (echoed ch r.tty_left_cnt r.tty_trans_cnt).0;
  tty_trans_cnt = (echoed ch r.tty_left_cnt r.tty_trans_cnt).1;
}

-- The key is taken off the buffer.
abbrev pub popped : Terminal → ℕ → Terminal
popped s t = record s { tty_table = update s.tty_table t (without_key (s.tty_table t)) }

popped-IsTask : (s : Terminal) (t : ℕ) (l : Locals) → IsTask s t l → IsTask (popped s t) t l
popped-IsTask s t l v = record {
  flat = v.flat;
  small = v.small;
  consoles = v.consoles;
  console = ground (arith, v.console);
  debug_console = ground (arith, v.debug_console);
}

popped-typed :
    (s s1 : Terminal) (t ch : ℕ)
    → Typed (popped s t) s1 t ch
    → (s1.tty_table t ≡ typed (s.tty_table t) ch) × (s1.outbox ≡ s.outbox)
popped-typed s s1 t ch y = (ground (arith, y.self), y.outbox)

Typed-IsTask :
    (s s1 : Terminal) (t ch : ℕ) (l : Locals) → IsTask s t l → Typed s s1 t ch → IsTask s1 t l
Typed-IsTask s s1 t ch l v y = record {
  flat = rw (y.kernel) v.flat;
  small = v.small;
  consoles = y.consoles;
  console = rw (y.self) v.console;
  debug_console = elim (Bool-cases (t == (s1.kernel.proc_table task_tty).nr_tty)) [
    | inl same ↦ ground (arith, y.self, v.console)
    | inr other ↦
        rw (y.others (s1.kernel.proc_table task_tty).nr_tty (ground arith))
          (rw (y.kernel) v.debug_console)
  ];
}

finish_read_answers :
    (s : Terminal) (t ch : ℕ) (l : Locals)
    → (ch == 10 || (s.tty_table t).tty_left_cnt == 0) ≡ true
    → finish_read l t ch s ≡ resume_reader l t s
unfolding finish_read
finish_read_answers s t ch l e = rw e refl

finish_read_waits :
    (s : Terminal) (t ch : ℕ) (l : Locals)
    → (ch == 10 || (s.tty_table t).tty_left_cnt == 0) ≡ false
    → finish_read l t ch s ≡ done tt s
unfolding finish_read
finish_read_waits s t ch l e = rw e refl

answered_self :
    (s1 s2 : Terminal) (l : Locals) (t : ℕ) (r : Tty)
    → s1.tty_table t ≡ r
    → Shown s1 s2
    → ((answered s1 s2 l t).tty_table t ≡ record r { tty_left_cnt = 0 })
      × ((answered s1 s2 l t).outbox ≡ (r.tty_caller, resume_message l.msg r) ∷ s1.outbox)
answered_self s1 s2 l t r e shown =
    let same : s2.tty_table t ≡ r = ap (λ (s : Terminal). s.tty_table t) (shown.rest) ∙ e in
    let sent : s2.outbox ≡ s1.outbox = ap (λ (s : Terminal). s.outbox) (shown.rest) in
    (ground (arith, same), rw (e, sent) refl)

-- A reader waits at terminal `t`, and its oldest key is `key`: tty_dev_write takes the key off the
-- buffer. A printable key is drawn by out_char and stored in the reader's buffer behind what it has, a
-- backspace is drawn and takes a character back if there is one. Then, if the key is a line feed or
-- nothing is left to read, the line feed and the text "tty resume" are printed and the answer is sent
-- with the number of characters read, and the reader no longer waits; the memory outside the screen
-- stays as the key left it. Otherwise nothing more changes.
pub tty_dev_write-echoed :
    (s : Terminal) (t key : ℕ) (rest : List ℕ) (l : Locals)
    → IsTask s t l
    → IsTty (s.tty_table t)
    → keys (s.tty_table t) ≡ key ∷ rest
    → (s.tty_table t).tty_left_cnt ≢ 0
    → (s1 s' : Terminal) × (tty_dev_write l t s ≡ done tt s')
      × Echo
          (leb 32 (key % 256) && leb (key % 256) 126)
          (key % 256 == 8 && not ((s.tty_table t).tty_trans_cnt == 0))
          (popped s t)
          s1
          t
          (key % 256)
      × End
          (answers (key % 256) (s.tty_table t).tty_left_cnt (s.tty_table t).tty_trans_cnt)
          l
          t
          s1
          s'
      × ((a : ℕ) → (a < v_mem_base) ⊎ (v_mem_base + v_mem_size ≤ a) → s'.memory a ≡ s1.memory a)
      × IsTty (s'.tty_table t)
      × (keys (s'.tty_table t) ≡ rest)
      × AllConsoles s'
      × ((s'.tty_table t).tty_trans_cnt
          ≡ (echoed (key % 256) (s.tty_table t).tty_left_cnt (s.tty_table t).tty_trans_cnt).1)
      × ((s'.tty_table t).tty_left_cnt ≡ (
          if answers (key % 256) (s.tty_table t).tty_left_cnt (s.tty_table t).tty_trans_cnt
          then 0
          else (echoed (key % 256) (s.tty_table t).tty_left_cnt (s.tty_table t).tty_trans_cnt).0))
      × (s'.outbox ≡ (
          if answers (key % 256) (s.tty_table t).tty_left_cnt (s.tty_table t).tty_trans_cnt
          then ((s.tty_table t).tty_caller, resume_message l.msg (s'.tty_table t)) ∷ s.outbox
          else s.outbox))
unfolding tty_dev_write
tty_dev_write-echoed s t key rest l v ring e left =
    let r = s.tty_table t in
    let ch = key % 256 in
    let (more, oldest, keys', ring') = without_key-keys r key rest ring e in
    let code : r.in_buf r.p_inbuf_tail % 256 ≡ ch = ap (λ k. k % 256) oldest in
    let (s1, run1, y) = echo_key-Typed (popped s t) t ch l (popped-IsTask s t l v) in
    let (self, outbox) = popped-typed s s1 t ch y in
    let trans : ((popped s t).tty_table t).tty_trans_cnt ≡ r.tty_trans_cnt = ground arith in
    let waits : (r.tty_left_cnt == 0) ≡ false = ground arith in
    let task1 = Typed-IsTask (popped s t) s1 t ch l (popped-IsTask s t l v) y in
    let (s2, run2, shown, end) = resume_reader_run s1 t l task1 in
    let drawn : Echo (leb 32 ch && leb ch 126) (ch == 8 && not (r.tty_trans_cnt == 0)) (popped s t)
        s1 t ch =
      subst
        (λ (n : ℕ). Echo (leb 32 ch && leb ch 126) (ch == 8 && not (n == 0)) (popped s t) s1 t ch)
        trans y.echo in
    let (now, sent) = answered_self s1 s2 l t (typed r ch) self shown in
    elim (Bool-cases (answers ch r.tty_left_cnt r.tty_trans_cnt)) [
      | inl a ↦
          let test : (ch == 10 || (s1.tty_table t).tty_left_cnt == 0) ≡ true = rw self a in
          rw (more, waits, code, a)
            (
              s1,
              answered s1 s2 l t,
              >>=-done (echo_key l t ch) (λ _. finish_read l t ch) run1
                  ∙ finish_read_answers s1 t ch l test
                  ∙ run2,
              drawn,
              end,
              shown.cells,
              rw now ring',
              rw now keys',
              shown.consoles,
              rw now refl,
              rw now refl,
              rw now
                  (sent ∙ ap (λ o. (r.tty_caller, resume_message l.msg (typed r ch)) ∷ o) outbox),
            )
      | inr a ↦
          let test : (ch == 10 || (s1.tty_table t).tty_left_cnt == 0) ≡ false = rw self a in
          rw (more, waits, code, a)
            (
              s1,
              s1,
              >>=-done (echo_key l t ch) (λ _. finish_read l t ch) run1
                  ∙ finish_read_waits s1 t ch l test,
              drawn,
              refl,
              λ b o. refl,
              rw self ring',
              rw self keys',
              y.consoles,
              rw self refl,
              rw self refl,
              outbox,
            )
    ]
