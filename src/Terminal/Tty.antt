-- ===== src/Terminal/Tty.antt =====
-- kernel/tty.c: the keys of a terminal, and what its task does for each message. A terminal is its
-- index in tty_table.
pub mod Input
pub mod Shown
pub mod Typed
pub mod Echo
pub mod Draws
pub mod Output
use dlos.Prelude.{
  ℕ, zero, suc, ◌+◌, ◌-◌, ◌*◌, ◌/◌, ◌%◌, ◌^◌, Bool, true, false, not, ◌&&◌, ◌||◌, ltb, leb, min,
  ◌==◌, if◌then◌else◌, List, [], ◌∷◌, update,
}
use dlos.Const.{
  task_tty, nr_tasks, hard_int, resume_proc, suspend_proc, syscall_ret, dev_open, dev_read,
  dev_write,
}
use dlos.Kernel.Proc.{
  Message, reset_msg, Code, done, stop, panic, endless, pure, ◌>>=◌, ◌>>◌, halt, get, modify,
  assert,
}
use dlos.Kernel.Ipc.Base.{va2la}
use dlos.Terminal.State.{Terminal, Tty, disable_int, in_kernel, tell, set_tty, poke, advance}
use dlos.Terminal.Console.{scr_up, scr_dn, scroll_screen, select_console, out_char, init_screen}
use dlos.Terminal.Keymap.{flag_ext, key_enter, key_backspace, key_up, key_down, key_f1, key_f12}

abbrev pub tty_in_bytes : ℕ
tty_in_bytes = 256

abbrev pub tty_out_buf_len : ℕ
tty_out_buf_len = 2

-- `key & flag`, for a flag that is a power of 2
abbrev pub has_flag : ℕ → ℕ → Bool
has_flag key flag = key / flag % 2 == 1

unfoldable pub put_key : ℕ → ℕ → Code Terminal (Unit {0})
put_key t key = do
  s ← get
  if ltb (s.tty_table t).inbuf_count tty_in_bytes
      then (set_tty t λ r. record r {
        in_buf = update r.in_buf r.p_inbuf_head key;
        p_inbuf_head = advance tty_in_bytes r.p_inbuf_head;
        inbuf_count = r.inbuf_count + 1;
      })
      else pure tt

-- The cases F1 to F12: with Alt they select a console; F12 alone stops the system, after it has
-- printed a process.
unfoldable pub function_key : ℕ → ℕ → Code Terminal (Unit {0})
function_key key raw_code =
    if has_flag key 0x2000 || has_flag key 0x4000
    then select_console (raw_code - key_f1)
    else if raw_code == key_f12
    then (do tell disable_int; halt endless)
    else pure tt

unfoldable pub in_process : ℕ → ℕ → Code Terminal (Unit {0})
in_process t key = do
  s ← get
  let raw_code = key % 0x200
  let shift = has_flag key 0x200 || has_flag key 0x400
  if not (has_flag key flag_ext)
      then put_key t key
      else if raw_code == key_enter
      then put_key t 10
      else if raw_code == key_backspace
      then put_key t 8
      else if raw_code == key_up
      then (if shift then scroll_screen (s.tty_table t).p_console scr_dn else pure tt)
      else if raw_code == key_down
      then (if shift then scroll_screen (s.tty_table t).p_console scr_up else pure tt)
      else if leb key_f1 raw_code && leb raw_code key_f12
      then function_key key raw_code
      else pure tt

unfoldable pub init_tty : ℕ → Code Terminal (Unit {0})
init_tty t = do
  set_tty t λ r. record r { inbuf_count = 0; p_inbuf_head = 0; p_inbuf_tail = 0 }
  init_screen t

-- The last loop of sys_printx, over the characters up to the final 0.
unfoldable pub print_chars : ℕ → List ℕ → Code Terminal (Unit {0})
print_chars c [] = pure tt
print_chars c (ch ∷ text) =
    if ch == 2 || ch == 3 then print_chars c text else do out_char c ch; print_chars c text

abbrev pub first_char : List ℕ → ℕ
first_char [] = 0
first_char (ch ∷ text) = ch

-- sys_printx for process `pid`, where `text` is the string at `s`. A panic, and a failed assert in a
-- task, fill the screen with the message and halt the machine.
unfoldable pub sys_printx : ℕ → List ℕ → ℕ → Code Terminal ℕ
sys_printx s text pid = do
  state ← get
  if state.kernel.k_reenter == 0 then (do la ← in_kernel (va2la pid s); pure tt) else pure tt
  if first_char text == 2 || (first_char text == 3 && ltb state.kernel.p_proc_ready nr_tasks)
      then halt panic
      else print_chars (state.tty_table (state.kernel.proc_table pid).nr_tty).p_console text
  pure 0

-- send_recv(SEND, dest, &msg)
abbrev pub send_message : ℕ → Message → Code Terminal (Unit {0})
send_message dest msg = modify λ s. record s { outbox = (dest, msg) ∷ s.outbox }

-- The local variables of tty_dev_write: the address of `ch`, that of the string "tty resume", and
-- `msg`, which is not initialised.
pub record Locals : Type 0 where
  pub ch : ℕ
  pub resume_text : ℕ
  pub msg : Message

-- A printable character goes to the screen and to the reader.
unfoldable pub echo_char : Locals → ℕ → ℕ → Code Terminal (Unit {0})
echo_char l t ch = do
  s ← get
  out_char (s.tty_table t).p_console ch
  let p = (s.tty_table t).tty_req_buf + (s.tty_table t).tty_trans_cnt
  la ← in_kernel (va2la task_tty l.ch)
  poke p ch
  set_tty t λ r. record r { tty_trans_cnt = r.tty_trans_cnt + 1; tty_left_cnt = r.tty_left_cnt - 1 }

-- A backspace takes the last character back.
unfoldable pub erase_char : ℕ → ℕ → Code Terminal (Unit {0})
erase_char t ch = do
  s ← get
  out_char (s.tty_table t).p_console ch
  set_tty t λ r. record r { tty_trans_cnt = r.tty_trans_cnt - 1; tty_left_cnt = r.tty_left_cnt + 1 }

-- The text "tty resume".
abbrev pub resume_chars : List ℕ
resume_chars = 116 ∷ 116 ∷ 121 ∷ 32 ∷ 114 ∷ 101 ∷ 115 ∷ 117 ∷ 109 ∷ 101 ∷ []

abbrev pub resume_message : Message → Tty → Message
resume_message msg r = record msg {
  type = resume_proc;
  m3i3 = r.tty_procnr;
  m3i2 = r.tty_trans_cnt;
}

-- The reader gets its answer.
unfoldable pub resume_reader : Locals → ℕ → Code Terminal (Unit {0})
resume_reader l t = do
  s ← get
  out_char (s.tty_table t).p_console 10
  ret ← sys_printx l.resume_text resume_chars task_tty
  let r = s.tty_table t
  send_message r.tty_caller (resume_message l.msg r)
  set_tty t λ r. record r { tty_left_cnt = 0 }

-- What a key does for a reader that waits, and then the answer if the line or the buffer is full.
unfoldable pub echo_key : Locals → ℕ → ℕ → Code Terminal (Unit {0})
echo_key l t ch = do
  s ← get
  if leb 32 ch && leb ch 126
      then echo_char l t ch
      else if ch == 8 && not ((s.tty_table t).tty_trans_cnt == 0)
      then erase_char t ch
      else pure tt

unfoldable pub finish_read : Locals → ℕ → ℕ → Code Terminal (Unit {0})
finish_read l t ch = do
  s ← get
  if ch == 10 || (s.tty_table t).tty_left_cnt == 0 then resume_reader l t else pure tt

-- The key leaves the buffer.
abbrev pub without_key : Tty → Tty
without_key r = record r {
  p_inbuf_tail = advance tty_in_bytes r.p_inbuf_tail;
  inbuf_count = r.inbuf_count - 1;
}

unfoldable pub tty_dev_write : Locals → ℕ → Code Terminal (Unit {0})
tty_dev_write l t = do
  s ← get
  let r = s.tty_table t
  let ch = r.in_buf r.p_inbuf_tail % 256
  if r.inbuf_count == 0 then pure tt else do
    set_tty t without_key
    if r.tty_left_cnt == 0 then pure tt else do echo_key l t ch; finish_read l t ch

unfoldable pub tty_do_read : ℕ → Message → Code Terminal (Unit {0})
tty_do_read t msg = do
  la ← in_kernel (va2la msg.m3i3 msg.m3p2)
  set_tty t λ r. record r {
    tty_caller = msg.source;
    tty_procnr = msg.m3i3;
    tty_req_buf = la;
    tty_left_cnt = msg.m3i2;
    tty_trans_cnt = 0;
  }
  send_message msg.source (record msg { type = suspend_proc })

-- phys_copy(to, from, n), from the first byte on
unfoldable pub copy_bytes : ℕ → ℕ → ℕ → (ℕ → ℕ) → ℕ → ℕ
copy_bytes to from zero memory = memory
copy_bytes to from (suc n) memory =
    copy_bytes (to + 1) (from + 1) n (update memory to (memory from))

-- `for (j = 0; j < bytes; j++)`, with `n` rounds left, `a` the address of buf[j]
unfoldable pub write_bytes : ℕ → ℕ → ℕ → Code Terminal (Unit {0})
write_bytes c a zero = pure tt
write_bytes c a (suc n) = do s ← get; out_char c (s.memory a); write_bytes c (a + 1) n

-- The outer loop of tty_do_write, with `i` characters left from address `p` on, for at most `fuel`
-- rounds. It goes by pieces of TTY_OUT_BUF_LEN characters through `buf`.
unfoldable pub write_pieces : ℕ → ℕ → ℕ → ℕ → ℕ → Code Terminal (Unit {0})
write_pieces zero c buf p i = if i == 0 then pure tt else halt endless
write_pieces (suc fuel) c buf p i =
    let bytes = min tty_out_buf_len i in
    let rest = write_pieces fuel c buf (p + bytes) (i - bytes) in
    if i == 0 then pure tt else do
      la ← in_kernel (va2la task_tty buf)
      modify λ s. record s { memory = copy_bytes la p bytes s.memory }
      write_bytes c buf bytes
      rest

-- `buf` is the address of the local buffer. A round takes a character at least: the count is fuel
-- enough. A negative count is a size for phys_copy that runs over all of memory: it is undefined.
unfoldable pub tty_do_write : ℕ → ℕ → Message → Code Terminal (Unit {0})
tty_do_write buf t msg = do
  p ← in_kernel (va2la msg.m3i3 msg.m3p2)
  s ← get
  if ltb msg.m3i2 (2 ^ 31)
      then write_pieces msg.m3i2 (s.tty_table t).p_console buf p msg.m3i2
      else halt panic
  send_message msg.source (record msg { type = syscall_ret })

-- One message to task_tty. The dump of an unknown one is left out.
unfoldable pub tty_message : ℕ → Message → Code Terminal (Unit {0})
tty_message buf msg = do
  assert 46 (not (msg.source == task_tty))
  let t = msg.m3i4
  if msg.type == dev_open
      then send_message msg.source (record reset_msg { type = syscall_ret })
      else if msg.type == dev_read
      then tty_do_read t msg
      else if msg.type == dev_write
      then tty_do_write buf t msg
      else if msg.type == hard_int
      then (modify λ s. record s { kernel = record s.kernel { key_pressed = false } })
      else pure tt
