-- ===== src/Terminal/Tty/Output.antt =====
-- tty_do_write of kernel/tty.c writes all characters and answers.
use dlos.Prelude.{
  ℕ, zero, suc, inl, inr, ◌+◌, ◌-◌, ◌^◌, ◌≤◌, ◌<◌, ◌≡◌, ◌⊎◌, refl, sym, true, false, ltb, min, ◌∷◌,
  ◌++◌, ◌==◌, if◌then◌else◌, subst, arith, ap, ◌∙◌,
}
use dlos.Const.{nr_consoles, task_tty, syscall_ret, nr_tasks, nr_native_procs}
use dlos.Kernel.Proc.{Message, Code, done, panic, halt, ◌>>◌, >>=-done}
use dlos.Kernel.Ipc.Base.{ldt_seg_linear, linear, va2la}
use dlos.Kernel.Ipc.Valid.{va2la-linear}
use dlos.Terminal.State.{Terminal, in_kernel}
use dlos.Terminal.Console.{v_mem_base, v_mem_size}
use dlos.Terminal.Tty.{
  tty_out_buf_len, send_message, copy_bytes, write_bytes, write_pieces, tty_do_write,
}
use dlos.Terminal.Tty.Shown.{AllConsoles, va2la_run}
use dlos.Terminal.Tty.Draws.{
  Apart, bytes_at, Draws, Draws-append, bytes_at-same, bytes_at-append, copy_bytes-outside,
  copied_bytes, Written, Written-trans, inside-outside, rest-Apart, write_bytes-Draws, Draws-filled,
}

write_pieces-round :
    (fuel c buf p i : ℕ) (s s2 : Terminal)
    → (i == 0) ≡ false
    → ldt_seg_linear (s.kernel.proc_table task_tty).ldt_rw ≡ 0
    → buf < 2 ^ 32
    → write_bytes c buf
        (min tty_out_buf_len i)
        (record s { memory = copy_bytes buf p (min tty_out_buf_len i) s.memory })
      ≡ done tt s2
    → write_pieces (suc fuel) c buf p i s
      ≡ write_pieces fuel c buf (p + min tty_out_buf_len i) (i - min tty_out_buf_len i) s2
unfolding write_pieces
write_pieces-round fuel c buf p i s s2 more flat small run =
    let bytes = min tty_out_buf_len i in
    rw more (
      >>=-done (in_kernel (va2la task_tty buf)) _ (va2la_run s 0 buf flat small)
      ∙ >>=-done (write_bytes c buf bytes) (λ _. write_pieces fuel c buf (p + bytes) (i - bytes))
          run)

write_pieces-Draws :
    (fuel c buf p i : ℕ) (s : Terminal)
    → i ≤ fuel
    → AllConsoles s
    → c < nr_consoles
    → ldt_seg_linear (s.kernel.proc_table task_tty).ldt_rw ≡ 0
    → buf < 2 ^ 32
    → Apart buf tty_out_buf_len v_mem_base v_mem_size
    → Apart p i v_mem_base v_mem_size
    → Apart p i buf tty_out_buf_len
    → (s' : Terminal) × (write_pieces fuel c buf p i s ≡ done tt s')
      × Draws c buf (bytes_at i p s.memory) s s'
      × Written buf s s'
unfolding write_pieces
write_pieces-Draws fuel c buf p zero s f v h flat small buf_out p_out apart =
    (s, none_left fuel, refl, record { rest = refl; cells = λ a o b. refl; consoles = v })
  where
    none_left : (fuel : ℕ) → write_pieces fuel c buf p 0 s ≡ done tt s
    none_left zero = refl
    none_left (suc fuel) = refl
write_pieces-Draws zero c buf p (suc i) s f v h flat small buf_out p_out apart =
    absurd (omega arith)
write_pieces-Draws (suc fuel) c buf p (suc j) s f v h flat small buf_out p_out apart =
    let i = suc j in
    let bytes = min tty_out_buf_len i in
    let left = i - bytes in
    let m1 = copy_bytes buf p bytes s.memory in
    let s1 : Terminal = record s { memory = m1 } in
    let (s2, run2, draws2, shown) =
      write_bytes-Draws bytes c buf buf s1 v h
        (shorter buf tty_out_buf_len v_mem_base v_mem_size bytes buf_out (omega arith)) in
    let filled : (b : ℕ) → (b < buf) ⊎ (buf + tty_out_buf_len ≤ b) → m1 b ≡ s.memory b =
      λ b o. copy_bytes-outside bytes buf p b s.memory (past o (omega arith)) in
    let w2 : Written buf s s2 = record {
      rest = cc shown.rest;
      cells = λ b o out. shown.cells b o ∙ filled b out;
      consoles = shown.consoles;
    } in
    let flat2 : ldt_seg_linear (s2.kernel.proc_table task_tty).ldt_rw ≡ 0 =
      ap (λ (x : Terminal). ldt_seg_linear (x.kernel.proc_table task_tty).ldt_rw) w2.rest ∙ flat in
    let (s3, run3, draws3, w3) =
      write_pieces-Draws fuel c buf (p + bytes) left s2 (omega arith) w2.consoles h flat2 small
        buf_out (rest-Apart p i v_mem_base v_mem_size bytes left p_out (omega arith))
        (rest-Apart p i buf tty_out_buf_len bytes left apart (omega arith)) in
    let first : bytes_at bytes buf m1 ≡ bytes_at bytes p s.memory =
      copied_bytes bytes buf p s.memory (both apart (omega arith) (omega arith)) in
    let later : bytes_at left (p + bytes) s2.memory ≡ bytes_at left (p + bytes) s.memory =
      bytes_at-same left (p + bytes) s2.memory s.memory (λ k lo hi.
        w2.cells k
          (inside-outside p i v_mem_base v_mem_size k p_out (omega (arith, lo)) (omega (arith, hi)))
          (inside-outside p i buf tty_out_buf_len k apart (omega (arith, lo))
            (omega (arith, hi)))) in
    let size : bytes ≡ suc (bytes - 1) = omega arith in
    let start : Draws c buf (bytes_at bytes p s.memory) s s2 =
      subst (λ n. Draws c buf (bytes_at n p s.memory) s s2) (sym size)
        (Draws-filled c buf (bytes - 1) p m1 s.memory s s2 filled (
          subst (λ n. Draws c buf (bytes_at n p s.memory) s1 s2) size
            (subst (λ cs. Draws c buf cs s1 s2) first draws2))) in
    let together : bytes + left ≡ i = omega arith in
    let all : bytes_at bytes p s.memory ++ bytes_at left (p + bytes) s.memory
        ≡ bytes_at i p s.memory =
      bytes_at-append bytes left p s.memory ∙ ap (λ n. bytes_at n p s.memory) together in
    (
      s3,
      write_pieces-round fuel c buf p i s s2 (ground arith) flat small run2 ∙ run3,
      subst (λ cs. Draws c buf cs s s3) all
          (Draws-append c buf (bytes_at bytes p s.memory) (bytes_at left (p + bytes) s.memory) s s2
            s3 start (subst (λ cs. Draws c buf cs s2 s3) later draws3)),
      Written-trans buf s s2 s3 w2 w3,
    )
  where
    shorter : (a n b k n' : ℕ) → Apart a n b k → n' ≤ n → Apart a n' b k
    shorter a n b k n' (inl l) h = inl (omega (arith, l, h))
    shorter a n b k n' (inr l) h = inr l

    past : {b n : ℕ} → (b < buf) ⊎ (buf + tty_out_buf_len ≤ b) → n ≤ 2 → (b < buf) ⊎ (buf + n ≤ b)
    past (inl l) h = inl l
    past (inr l) h = inr (omega (arith, l, h))

    both : {n i : ℕ} → Apart p i buf tty_out_buf_len → n ≤ i → n ≤ 2 → Apart p n buf n
    both (inl l) a b = inl (omega (arith, l, a))
    both (inr l) a b = inr (omega (arith, l, b))

-- A request to write from a process whose addresses are translated, for a count that is not negative,
-- where the bytes to write and the local buffer lie apart from each other and from the screen:
-- tty_do_write ends. It calls out_char for each byte of the caller, in order, filling its buffer in
-- between, and sends one message, the answer of type SYSCALL_RET, to the source of the request. Nothing
-- else changes but memory, the consoles, which stay valid, and the hardware.
pub tty_do_write-answers :
    (buf t : ℕ) (msg : Message) (s : Terminal)
    → AllConsoles s
    → (s.tty_table t).p_console < nr_consoles
    → ldt_seg_linear (s.kernel.proc_table task_tty).ldt_rw ≡ 0
    → buf < 2 ^ 32
    → (msg.m3i3 < nr_tasks + nr_native_procs
        → ldt_seg_linear (s.kernel.proc_table msg.m3i3).ldt_rw ≡ 0)
    → msg.m3p2 < 2 ^ 32
    → msg.m3i2 < 2 ^ 31
    → Apart buf tty_out_buf_len v_mem_base v_mem_size
    → Apart (linear s.kernel.proc_table msg.m3i3 msg.m3p2) msg.m3i2 v_mem_base v_mem_size
    → Apart (linear s.kernel.proc_table msg.m3i3 msg.m3p2) msg.m3i2 buf tty_out_buf_len
    → (s1 s' : Terminal) × (tty_do_write buf t msg s ≡ done tt s')
      × Draws
          (s.tty_table t).p_console
          buf
          (bytes_at msg.m3i2 (linear s.kernel.proc_table msg.m3i3 msg.m3p2) s.memory)
          s
          s1
      × (s' ≡ record s1 { outbox = (msg.source, record msg { type = syscall_ret }) ∷ s.outbox })
      × AllConsoles s'
      × (s' ≡ record s {
        memory = s'.memory;
        console_table = s'.console_table;
        ports = s'.ports;
        outbox = (msg.source, record msg { type = syscall_ret }) ∷ s.outbox;
      })
unfolding tty_do_write
tty_do_write-answers buf t msg s v h flat small user user_small count buf_out p_out apart =
    let p = linear s.kernel.proc_table msg.m3i3 msg.m3p2 in
    let c = (s.tty_table t).p_console in
    let (s1, run, draws, w) =
      write_pieces-Draws msg.m3i2 c buf p msg.m3i2 s (omega arith) v h flat small buf_out p_out
        apart in
    let test : ltb msg.m3i2 (2 ^ 31) ≡ true = ground (arith, count) in
    let reply : Code Terminal (Unit {0}) =
      send_message msg.source (record msg { type = syscall_ret }) in
    let pieces = write_pieces msg.m3i2 c buf p msg.m3i2 in
    let sent : s1.outbox ≡ s.outbox = ap (λ (x : Terminal). x.outbox) w.rest in
    let s' : Terminal = record s1 {
      outbox = (msg.source, record msg { type = syscall_ret }) ∷ s.outbox;
    } in
    (
      s1,
      s',
      >>=-done (in_kernel (va2la msg.m3i3 msg.m3p2)) _
            (translated s msg.m3i3 msg.m3p2 user user_small)
          ∙ ap (λ b. ((if b then pieces else halt panic) >> reply) s) test
          ∙ >>=-done pieces (λ _. reply) run
          ∙ ap
              (λ o.
                done tt
                  (record s1 { outbox = (msg.source, record msg { type = syscall_ret }) ∷ o }))
              sent,
      draws,
      refl,
      w.consoles,
      ap
          (λ (x : Terminal). record x {
            outbox = (msg.source, record msg { type = syscall_ret }) ∷ s.outbox;
          })
          w.rest,
    )
  where
    translated :
        (s : Terminal) (pid va : ℕ)
        → (pid < nr_tasks + nr_native_procs → ldt_seg_linear (s.kernel.proc_table pid).ldt_rw ≡ 0)
        → va < 2 ^ 32
        → in_kernel (va2la pid va) s ≡ done (linear s.kernel.proc_table pid va) s
    translated s pid va flat small =
        let run = va2la-linear s.kernel pid va flat small in ground (arith, run)
