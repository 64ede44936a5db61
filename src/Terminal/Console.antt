-- ===== src/Terminal/Console.antt =====
-- kernel/console.c. A console is its index in console_table; the memory of the screen holds two
-- bytes for each cell, the character and its colour.
pub mod Valid
pub mod Frame
pub mod Draw
use dlos.Prelude.{
  ℕ, zero, suc, ◌+◌, ◌-◌, ◌*◌, ◌/◌, ◌%◌, ◌^◌, Bool, true, false, not, ◌&&◌, ltb, leb, ◌==◌,
  if◌then◌else◌, update, none, some, Option,
}
use dlos.Const.{nr_consoles}
use dlos.Kernel.Proc.{Code, Run, done, stop, endless, pure, ◌>>=◌, ◌>>◌, get, modify, halt}
use dlos.Terminal.State.{
  ◌+₃₂◌, ◌-₃₂◌, Console, Terminal, out_byte, disable_int, enable_int, tell, set_console, set_tty,
  poke,
}

abbrev pub screen_width : ℕ
screen_width = 80

abbrev pub screen_size : ℕ
screen_size = 80 * 25

abbrev pub v_mem_base : ℕ
v_mem_base = 0xB8000

abbrev pub v_mem_size : ℕ
v_mem_size = 0x8000

-- MAKE_COLOR(BLACK, WHITE)
abbrev pub default_char_color : ℕ
default_char_color = 7

-- SCR_UP and SCR_DN
pub data Direction : Type 0 where
  scr_up scr_dn : Direction

abbrev pub is_current_console : ℕ → Code Terminal Bool
is_current_console c s = done (c == s.nr_current_console) s

abbrev pub set_cursor : ℕ → Code Terminal (Unit {0})
set_cursor position = do
  tell disable_int
  tell (out_byte 0x3D4 0xE)
  tell (out_byte 0x3D5 (position / 2 ^ 8 % 2 ^ 8))
  tell (out_byte 0x3D4 0xF)
  tell (out_byte 0x3D5 (position % 2 ^ 8))
  tell enable_int

abbrev pub set_video_start_addr : ℕ → Code Terminal (Unit {0})
set_video_start_addr addr = do
  tell disable_int
  tell (out_byte 0x3D4 0xC)
  tell (out_byte 0x3D5 (addr / 2 ^ 8 % 2 ^ 8))
  tell (out_byte 0x3D4 0xD)
  tell (out_byte 0x3D5 (addr % 2 ^ 8))
  tell enable_int

unfoldable pub flush : ℕ → Code Terminal (Unit {0})
flush c = do
  current ← is_current_console c
  s ← get
  if current
      then (do
        set_cursor (s.console_table c).cursor
        set_video_start_addr (s.console_table c).current_start_addr)
      else pure tt

-- What select_console does with the number of a console that exists.
unfoldable pub select_console : ℕ → Code Terminal (Unit {0})
select_console nr_console =
    if leb nr_consoles nr_console
    then pure tt
    else do modify λ s. record s { nr_current_console = nr_console }; flush nr_console

-- The move of the window on one console.
unfoldable pub scrolled : Direction → Console → Console
scrolled scr_up p =
    if ltb p.original_addr p.current_start_addr
    then record p { current_start_addr = p.current_start_addr -₃₂ screen_width }
    else p
scrolled scr_dn p =
    if ltb (p.current_start_addr +₃₂ screen_size) (p.original_addr +₃₂ p.v_mem_limit)
    then record p { current_start_addr = p.current_start_addr +₃₂ screen_width }
    else p

unfoldable pub scroll_screen : ℕ → Direction → Code Terminal (Unit {0})
scroll_screen c direction = do set_console c (scrolled direction); flush c

-- `case '\n'`
unfoldable pub line_feed : Console → Console
line_feed p =
    if ltb (p.cursor +₃₂ screen_width) (p.original_addr +₃₂ p.v_mem_limit)
    then record p {
      cursor =
          p.original_addr +₃₂ screen_width * ((p.cursor -₃₂ p.original_addr) / screen_width + 1);
    }
    else p

-- The loop of `case '\b'` over the blanks at the end of a line, for at most `fuel` rounds.
unfoldable pub skip_blanks : ℕ → (ℕ → ℕ) → ℕ → ℕ → ℕ → ℕ → ℕ
skip_blanks zero memory original new_row p_vmem cursor = cursor
skip_blanks (suc fuel) memory original new_row p_vmem cursor =
    let rest = skip_blanks fuel memory original new_row (p_vmem - 2) (cursor - 1) in
    if ltb original cursor && memory (p_vmem - 2) == 32
    then if (cursor -₃₂ original -₃₂ 1) / screen_width == new_row then rest else cursor
    else cursor

-- The cursor that `case '\b'` leaves, with the memory in which the last cell is blank. The loop
-- takes the cursor back at most `cursor` times, so this is fuel enough.
unfoldable pub backspace_cursor : (ℕ → ℕ) → Console → ℕ
unfolding skip_blanks
backspace_cursor memory p =
    let old_row = (p.cursor -₃₂ p.original_addr) / screen_width in
    let back = ltb p.original_addr p.cursor in
    let cursor = if back then p.cursor - 1 else p.cursor in
    let p_vmem = v_mem_base + p.cursor * 2 - (if back then 2 else 0) in
    let new_row = (cursor -₃₂ p.original_addr) / screen_width in
    if new_row == old_row
    then cursor
    else skip_blanks cursor memory p.original_addr new_row p_vmem cursor

-- `case '\b'`
unfoldable pub backspace : ℕ → Code Terminal (Unit {0})
backspace c = do
  s ← get
  let p = s.console_table c
  let p_vmem = v_mem_base + p.cursor * 2
  if ltb p.original_addr p.cursor
      then (do poke (p_vmem - 2) 32; poke (p_vmem - 1) default_char_color)
      else pure tt
  s' ← get
  set_console c λ p. record p { cursor = backspace_cursor s'.memory p }

-- `default`
unfoldable pub put_cell : ℕ → ℕ → Code Terminal (Unit {0})
put_cell c ch = do
  s ← get
  let p = s.console_table c
  let p_vmem = v_mem_base + p.cursor * 2
  if ltb (p.cursor +₃₂ 1) (p.original_addr +₃₂ p.v_mem_limit)
      then (do
        poke p_vmem ch
        poke (p_vmem + 1) default_char_color
        set_console c λ p. record p { cursor = p.cursor +₃₂ 1 })
      else pure tt

-- The loop that scrolls until the cursor is on the screen, for at most `fuel` rounds.
unfoldable pub follow_cursor : ℕ → ℕ → Code Terminal (Unit {0})
follow_cursor zero c s =
    if leb ((s.console_table c).current_start_addr +₃₂ screen_size) (s.console_table c).cursor
    then stop endless
    else done tt s
follow_cursor (suc fuel) c s =
    let rest = (scroll_screen c scr_dn >>= λ _. follow_cursor fuel c) s in
    if leb ((s.console_table c).current_start_addr +₃₂ screen_size) (s.console_table c).cursor
    then rest
    else done tt s

-- out_char. Each round of the loop moves the window by a line, and it stays below the limit: the
-- size of the console is fuel enough.
unfoldable pub out_char : ℕ → ℕ → Code Terminal (Unit {0})
out_char c ch = do
  if ch == 10 then set_console c line_feed else if ch == 8 then backspace c else put_cell c ch
  s ← get
  follow_cursor (s.console_table c).v_mem_limit c
  flush c

-- init_screen of the terminal `nr_tty`.
unfoldable pub init_screen : ℕ → Code Terminal (Unit {0})
init_screen nr_tty = do
  set_tty nr_tty λ t. record t { p_console = nr_tty }
  let con_v_mem_size = v_mem_size / 2 / nr_consoles
  set_console nr_tty λ p. record p {
    original_addr = nr_tty * con_v_mem_size;
    v_mem_limit = con_v_mem_size;
    current_start_addr = nr_tty * con_v_mem_size;
    cursor = nr_tty * con_v_mem_size;
  }
  if nr_tty == 0
      then (do
        s ← get
        set_console nr_tty λ p. record p { cursor = s.disp_pos / 2 }
        modify λ s. record s { disp_pos = 0 })
      else (do out_char nr_tty (nr_tty + 48); out_char nr_tty 35)
  s ← get
  set_cursor (s.console_table nr_tty).cursor
