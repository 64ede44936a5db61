-- ===== src/Terminal/Keyboard.antt =====
-- kernel/keyboard.c: the interrupt handler puts scan codes into a buffer, and keyboard_read turns
-- them into keys. The waits of set_leds for the keyboard (kb_wait, kb_ack) are left out.
use dlos.Prelude.{
  ℕ, ◌+◌, ◌-◌, ◌*◌, ◌%◌, Bool, true, false, ◌&&◌, ◌||◌, ltb, ◌==◌, if◌then◌else◌, List, [], ◌∷◌,
  update, get_or,
}
use dlos.Kernel.Proc.{Code, done, stop, endless, pure, ◌>>=◌, ◌>>◌, get, modify}
use dlos.Terminal.State.{
  Terminal, KbInput, Keyboard, out_byte, disable_int, enable_int, tell, advance,
}
use dlos.Terminal.Tty.{in_process}
use dlos.Terminal.Keymap.{map_cols, keymap, key_printscreen, key_pausebreak}
use dlos.Terminal.Keys.{bit, choose_column, modified, is_lock, pad_key, is_pad, flagged}

abbrev pub kb_in_bytes : ℕ
kb_in_bytes = 32

abbrev pub set_kb_in : (KbInput → KbInput) → Code Terminal (Unit {0})
set_kb_in f = modify λ s. record s { keyboard = record s.keyboard { kb_in = f s.keyboard.kb_in } }

abbrev pub set_keyboard : (Keyboard → Keyboard) → Code Terminal (Unit {0})
set_keyboard f = modify λ s. record s { keyboard = f s.keyboard }

-- The buffer once a scan code has come.
abbrev pub stored : ℕ → KbInput → KbInput
stored scan_code b =
    if ltb b.count kb_in_bytes
    then record b {
      buf = update b.buf b.p_head scan_code;
      p_head = advance kb_in_bytes b.p_head;
      count = b.count + 1;
    }
    else b

-- keyboard_handler, where in_byte(KB_DATA) gives `scan_code`.
unfoldable pub keyboard_handler : ℕ → Code Terminal (Unit {0})
keyboard_handler scan_code = do
  set_kb_in (stored scan_code)
  modify λ s. record s { kernel = record s.kernel { key_pressed = true } }

-- The first loop of get_byte_from_kbuf: while the buffer is empty, only an interrupt of the
-- keyboard ends it, with the first of the scan codes that are to come.
unfoldable pub await_byte : List ℕ → Code Terminal (Unit {0})
await_byte [] s = if s.keyboard.kb_in.count == 0 then stop endless else done tt s
await_byte (code ∷ codes) s =
    let rest =
      (keyboard_handler code >>= λ _. await_byte codes) (record s { scan_codes = codes }) in
    if s.keyboard.kb_in.count == 0 then rest else done tt s

-- The rest of get_byte_from_kbuf.
unfoldable pub take_byte : Code Terminal ℕ
take_byte = do
  tell disable_int
  s ← get
  set_kb_in λ b. record b { p_tail = advance kb_in_bytes b.p_tail; count = b.count - 1 }
  tell enable_int
  pure (s.keyboard.kb_in.buf s.keyboard.kb_in.p_tail)

unfoldable pub get_byte_from_kbuf : Code Terminal ℕ
get_byte_from_kbuf s = (await_byte s.scan_codes >>= λ _. take_byte) s

unfoldable pub set_leds : Code Terminal (Unit {0})
set_leds = do
  s ← get
  let k = s.keyboard
  tell (out_byte 0x60 0xED)
  tell (out_byte 0x60 (bit k.caps_lock * 4 + bit k.num_lock * 2 + bit k.scroll_lock))

-- init_keyboard. `alt`, `code_with_e0` and `column` aside, all is reset.
unfoldable pub init_keyboard : Code Terminal (Unit {0})
init_keyboard = do
  set_kb_in λ b. record b { count = 0; p_head = 0; p_tail = 0 }
  set_keyboard λ k. record k {
    shift_l = false;
    shift_r = false;
    alt_l = false;
    alt_r = false;
    ctrl_l = false;
    ctrl_r = false;
    caps_lock = false;
    num_lock = true;
    scroll_lock = false;
  }
  set_leds

-- The rest of the code of Pause: whether it is `codes`.
unfoldable pub match_codes : List ℕ → Code Terminal Bool
match_codes [] = pure true
match_codes (code ∷ codes) = do
  b ← get_byte_from_kbuf
  if b == code then match_codes codes else pure false

-- After 0xE0: whether `0xE0, last` follows.
abbrev pub print_screen : ℕ → Code Terminal Bool
print_screen last = do
  a ← get_byte_from_kbuf
  if a == 0xE0 then (do b ← get_byte_from_kbuf; pure (b == last)) else pure false

-- What the first bytes say: the key, if it is one of the two with long codes, and the scan code.
unfoldable pub read_prefix : Code Terminal (ℕ × ℕ)
read_prefix = do
  set_keyboard λ k. record k { code_with_e0 = false }
  scan_code ← get_byte_from_kbuf
  if scan_code == 0xE1
      then (do
        is_pausebreak ← match_codes (0x1D ∷ 0x45 ∷ 0xE1 ∷ 0x9D ∷ 0xC5 ∷ [])
        pure ((if is_pausebreak then key_pausebreak else 0), scan_code))
      else if scan_code == 0xE0
      then (do
        scan_code' ← get_byte_from_kbuf
        down ← if scan_code' == 0x2A then print_screen 0x37 else pure false
        up ← if scan_code' == 0xB7 then print_screen 0xAA else pure false
        if down || up
            then pure (key_printscreen, scan_code')
            else do set_keyboard λ k. record k { code_with_e0 = true }; pure (0, scan_code'))
      else pure (0, scan_code)

-- From the scan code on, for the keys of the keymap.
unfoldable pub process_code : ℕ → ℕ → Code Terminal (Unit {0})
process_code t scan_code = do
  let make = ltb (scan_code % 0x100) 0x80
  let row = scan_code % 0x80 * map_cols
  set_keyboard (choose_column (get_or keymap row 0))
  s ← get
  let key = get_or keymap (row + s.keyboard.column) 0
  set_keyboard (modified key make)
  if is_lock key && make then set_leds else pure tt
  s' ← get
  let pad = is_pad key
  if make
      then in_process t
          (flagged s'.keyboard pad (if pad then pad_key s'.keyboard.num_lock key else key))
      else pure tt

unfoldable pub keyboard_read : ℕ → Code Terminal (Unit {0})
keyboard_read t = do
  s ← get
  if s.keyboard.kb_in.count == 0 then pure tt else do
    (key, scan_code) ← read_prefix
    if key == key_pausebreak || key == key_printscreen then pure tt else process_code t scan_code

-- tty_dev_read of kernel/tty.c
unfoldable pub tty_dev_read : ℕ → Code Terminal (Unit {0})
tty_dev_read t = do
  s ← get
  if (s.tty_table t).p_console == s.nr_current_console then keyboard_read t else pure tt
