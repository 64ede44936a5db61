-- ===== src/Terminal/State.antt =====
-- The state of the terminals: CONSOLE (include/sys/console.h), TTY (include/sys/tty.h), KB_INPUT
-- (include/sys/keyboard.h) and the variables of kernel/keyboard.c. A `char` is its byte.
use dlos.Prelude.{ℕ, Bool, List, ◌∷◌, ◌+◌, ◌-◌, ◌^◌, leb, ◌==◌, if◌then◌else◌, update}
use dlos.Kernel.Proc.{Message, Kernel, done, stop, Code, modify}

-- Unsigned arithmetic of 32 bits.
infixl 60 ◌+₃₂◌ ◌-₃₂◌
abbrev pub ◌+₃₂◌ : ℕ → ℕ → ℕ
a +₃₂ b = if leb (2 ^ 32) (a + b) then a + b - 2 ^ 32 else a + b

abbrev pub ◌-₃₂◌ : ℕ → ℕ → ℕ
a -₃₂ b = if leb b a then a - b else a + 2 ^ 32 - b

pub record Console : Type 0 where
  pub current_start_addr : ℕ
  pub original_addr : ℕ
  pub v_mem_limit : ℕ
  pub cursor : ℕ

-- Pointers into `in_buf` are its indices, and `p_console` the index into console_table.
pub record Tty : Type 0 where
  pub in_buf : ℕ → ℕ
  pub p_inbuf_head : ℕ
  pub p_inbuf_tail : ℕ
  pub inbuf_count : ℕ
  pub tty_caller : ℕ
  pub tty_procnr : ℕ
  pub tty_req_buf : ℕ
  pub tty_left_cnt : ℕ
  pub tty_trans_cnt : ℕ
  pub p_console : ℕ

pub record KbInput : Type 0 where
  pub buf : ℕ → ℕ
  pub p_head : ℕ
  pub p_tail : ℕ
  pub count : ℕ

pub record Keyboard : Type 0 where
  pub kb_in : KbInput
  pub code_with_e0 : Bool
  pub shift_l : Bool
  pub shift_r : Bool
  pub alt_l : Bool
  pub alt_r : Bool
  pub ctrl_l : Bool
  pub ctrl_r : Bool
  pub caps_lock : Bool
  pub num_lock : Bool
  pub scroll_lock : Bool
  pub column : ℕ

-- What the code tells the hardware.
pub data Event : Type 0 where
  out_byte : ℕ → ℕ → Event
  disable_int : Event
  enable_int : Event

-- `memory` is the memory by linear address, `ports` what the hardware was told, the last first,
-- `scan_codes` what the keyboard is going to send, and `outbox` the messages that the task of the
-- terminals sent with send_recv(SEND, dest, m), with their receivers, the last first.
pub record Terminal : Type 0 where
  pub kernel : Kernel
  pub memory : ℕ → ℕ
  pub console_table : ℕ → Console
  pub nr_current_console : ℕ
  pub disp_pos : ℕ
  pub tty_table : ℕ → Tty
  pub keyboard : Keyboard
  pub scan_codes : List ℕ
  pub ports : List Event
  pub outbox : List (ℕ × Message)

-- A function of the kernel, called from the terminals.
abbrev pub in_kernel : {A : Type 0} → Code Kernel A → Code Terminal A
in_kernel f s = elim (f s.kernel) [ done a k ↦ done a (record s { kernel = k }) | stop e ↦ stop e ]

abbrev pub tell : Event → Code Terminal (Unit {0})
tell e = modify λ s. record s { ports = e ∷ s.ports }

abbrev pub set_console : ℕ → (Console → Console) → Code Terminal (Unit {0})
set_console c f =
    modify λ s. record s { console_table = update s.console_table c (f (s.console_table c)) }

abbrev pub set_tty : ℕ → (Tty → Tty) → Code Terminal (Unit {0})
set_tty t f = modify λ s. record s { tty_table = update s.tty_table t (f (s.tty_table t)) }

abbrev pub poke : ℕ → ℕ → Code Terminal (Unit {0})
poke a v = modify λ s. record s { memory = update s.memory a v }

-- The step of a pointer into a buffer of `size` cells, back to the start at its end.
abbrev pub advance : ℕ → ℕ → ℕ
advance size p = if p + 1 == size then 0 else p + 1
