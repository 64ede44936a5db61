-- ===== src/Terminal/Tests.antt =====
-- The theorems on the terminals at a small state: three consoles, and a reader at the first of them.
use dlos.Prelude.{
  ℕ, ◌≡◌, ◌<◌, ◌≤◌, ◌⊎◌, ◌+◌, ◌*◌, ◌++◌, refl, inl, inr, true, false, [], ◌∷◌, arith,
}
use dlos.Kernel.Sample.{all_idle, kernel}
use dlos.Kernel.Proc.{Message, reset_msg, done}
use dlos.Kernel.Ipc.Base.{ldt_seg_linear}
use dlos.Terminal.State.{Console, Tty, KbInput, Terminal}
use dlos.Terminal.Console.{v_mem_base, v_mem_size, screen_size, out_char}
use dlos.Terminal.Console.Valid.{IsConsole}
use dlos.Terminal.Console.Frame.{Drawn}
use dlos.Terminal.Console.Draw.{out_char-Drawn}
use dlos.Terminal.Keyboard.{kb_in_bytes, keyboard_handler, get_byte_from_kbuf}
use dlos.Terminal.Tty.{Locals, resume_message, tty_dev_write, tty_do_write}
use dlos.Terminal.Tty.Input.{
  keys, IsTty, codes, IsKbInput, enqueued, keyboard_handler-codes, get_byte_from_kbuf-oldest,
}
use dlos.Terminal.Tty.Shown.{AllConsoles, IsTask}
use dlos.Terminal.Tty.Draws.{bytes_at, Draws}
use dlos.Terminal.Tty.Output.{tty_do_write-answers}
use dlos.Const.{syscall_ret}
use dlos.Terminal.Tty.Typed.{Echo}
use dlos.Terminal.Tty.Echo.{End, popped, tty_dev_write-echoed}

abbrev console : ℕ → Console
console c = record {
  current_start_addr = c * 5461;
  original_addr = c * 5461;
  v_mem_limit = 5461;
  cursor = c * 5461;
}

-- The key "a" waits, and a reader of process 5 for two characters.
abbrev tty : ℕ → Tty
tty t = record {
  in_buf = λ _. 97;
  p_inbuf_head = 0;
  p_inbuf_tail = 255;
  inbuf_count = 1;
  tty_caller = 3;
  tty_procnr = 5;
  tty_req_buf = 0x5000;
  tty_left_cnt = 1;
  tty_trans_cnt = 1;
  p_console = 0;
}

abbrev terminal : Terminal
terminal = record {
  kernel = kernel all_idle;
  memory = λ _. 0;
  console_table = console;
  nr_current_console = 0;
  disp_pos = 0;
  tty_table = tty;
  keyboard = record {
    kb_in = record { buf = λ _. 30; p_head = 0; p_tail = 0; count = 0 };
    code_with_e0 = false;
    shift_l = false;
    shift_r = false;
    alt_l = false;
    alt_r = false;
    ctrl_l = false;
    ctrl_r = false;
    caps_lock = false;
    num_lock = true;
    scroll_lock = false;
    column = 0;
  };
  scan_codes = 30 ∷ 158 ∷ [];
  ports = [];
  outbox = [];
}

console-IsConsole : (c : ℕ) → c < 3 → IsConsole (console c)
console-IsConsole c h = record {
  bound = omega arith;
  size = omega arith;
  cursor_low = omega arith;
  cursor_high = omega arith;
  lines = (0, omega arith);
  end = omega arith;
}

tty-IsTty : IsTty (tty 0)
tty-IsTty = record {
  head_in = omega arith;
  tail_in = omega arith;
  count_in = omega arith;
  gap = inr refl;
}

kb_in-IsKbInput : IsKbInput terminal.keyboard.kb_in
kb_in-IsKbInput = record {
  head_in = omega arith;
  tail_in = omega arith;
  count_in = omega arith;
  gap = inl refl;
}

abbrev locals : Locals
locals = record { ch = 0x9000; resume_text = 0x9100; msg = reset_msg }

terminal-IsTask : IsTask terminal 0 locals
unfolding ldt_seg_linear
terminal-IsTask = record {
  flat = refl;
  small = (omega arith, omega arith);
  consoles = λ c h. (console-IsConsole c h, omega arith);
  console = omega arith;
  debug_console = omega arith;
}

out_char-Drawn_example :
    (s' : Terminal) × (out_char 1 10 terminal ≡ done tt s')
    × ((s'.console_table 1).cursor < (s'.console_table 1).current_start_addr + screen_size)
    × Drawn 1 terminal s'
out_char-Drawn_example = out_char-Drawn 1 10 terminal (console-IsConsole 1 (omega arith))

keyboard_handler-codes_example :
    (b : KbInput) × (keyboard_handler 42 terminal
      ≡ done tt (record terminal {
        keyboard = record terminal.keyboard { kb_in = b };
        kernel = record terminal.kernel { key_pressed = true };
      }))
    × IsKbInput b
    × (codes b ≡ enqueued kb_in_bytes [] 42)
keyboard_handler-codes_example = keyboard_handler-codes 42 terminal kb_in-IsKbInput

get_byte_from_kbuf-oldest_example :
    (s' : Terminal) × (get_byte_from_kbuf terminal ≡ done 30 s')
    × (codes s'.keyboard.kb_in ++ s'.scan_codes ≡ 158 ∷ [])
    × IsKbInput s'.keyboard.kb_in
    × (s'.tty_table ≡ tty)
get_byte_from_kbuf-oldest_example =
    get_byte_from_kbuf-oldest terminal 30 (158 ∷ []) kb_in-IsKbInput refl

tty_dev_write-echoed_example :
    (s1 s' : Terminal) × (tty_dev_write locals 0 terminal ≡ done tt s')
    × Echo true false (popped terminal 0) s1 0 97
    × End true locals 0 s1 s'
    × ((a : ℕ) → (a < v_mem_base) ⊎ (v_mem_base + v_mem_size ≤ a) → s'.memory a ≡ s1.memory a)
    × IsTty (s'.tty_table 0)
    × (keys (s'.tty_table 0) ≡ [])
    × AllConsoles s'
    × ((s'.tty_table 0).tty_trans_cnt ≡ 2)
    × ((s'.tty_table 0).tty_left_cnt ≡ 0)
    × (s'.outbox ≡ (3, resume_message reset_msg (s'.tty_table 0)) ∷ [])
tty_dev_write-echoed_example =
    tty_dev_write-echoed terminal 0 97 [] locals terminal-IsTask tty-IsTty refl (omega arith)

-- Process 5 writes three characters at 0x7000 to the first terminal.
abbrev request : Message
request = record reset_msg { source = 3; m3i2 = 3; m3i3 = 5; m3p2 = 0x7000 }

tty_do_write-answers_example :
    (s1 s' : Terminal) × (tty_do_write 0x9000 0 request terminal ≡ done tt s')
    × Draws 0 0x9000 (bytes_at 3 0x7000 terminal.memory) terminal s1
    × (s' ≡ record s1 { outbox = (3, record request { type = syscall_ret }) ∷ [] })
    × AllConsoles s'
    × (s' ≡ record terminal {
      memory = s'.memory;
      console_table = s'.console_table;
      ports = s'.ports;
      outbox = (3, record request { type = syscall_ret }) ∷ [];
    })
unfolding ldt_seg_linear
tty_do_write-answers_example =
    tty_do_write-answers 0x9000 0 request terminal (terminal-IsTask.consoles) (omega arith) refl
      (omega arith) (λ h. refl) (omega arith) (omega arith) (inl (omega arith)) (inl (omega arith))
      (inl (omega arith))
