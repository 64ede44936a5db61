-- ===== src/Terminal/Keys.antt =====
-- What kernel/keyboard.c makes of a scan code: the column of the keymap, the state of the shift and lock
-- keys, the keys of the pad and the flags.
use dlos.Prelude.{ℕ, ◌+◌, ◌-◌, ◌*◌, Bool, true, false, not, ◌&&◌, ◌||◌, leb, ◌==◌, if◌then◌else◌}
use dlos.Terminal.State.{Keyboard}
use dlos.Terminal.Keymap.{
  key_enter, key_shift_l, key_shift_r, key_ctrl_l, key_ctrl_r, key_alt_l, key_alt_r, key_caps_lock,
  key_num_lock, key_scroll_lock, key_insert, key_delete, key_home, key_end, key_pageup,
  key_pagedown, key_up, key_down, key_left, key_right, key_pad_slash, key_pad_star, key_pad_minus,
  key_pad_plus, key_pad_enter, key_pad_dot, key_pad_0, key_pad_1, key_pad_2, key_pad_3, key_pad_4,
  key_pad_6, key_pad_7, key_pad_8, key_pad_9,
}

abbrev pub bit : Bool → ℕ
bit true = 1
bit false = 0

-- The column of the keymap, which resets `code_with_E0`.
abbrev pub choose_column : ℕ → Keyboard → Keyboard
choose_column first k =
    let shift = k.shift_l || k.shift_r in
    let caps = if k.caps_lock && leb 97 first && leb first 122 then not shift else shift in
    record k { column = if k.code_with_e0 then 2 else if caps then 1 else 0; code_with_e0 = false }

-- The switch on the keys that change the state.
abbrev pub modified : ℕ → Bool → Keyboard → Keyboard
modified key make k =
    if key == key_shift_l
    then record k { shift_l = make }
    else if key == key_shift_r
    then record k { shift_r = make }
    else if key == key_ctrl_l
    then record k { ctrl_l = make }
    else if key == key_ctrl_r
    then record k { ctrl_r = make }
    else if key == key_alt_l
    then record k { alt_l = make }
    else if key == key_alt_r
    then record k { alt_r = make }
    else if key == key_caps_lock && make
    then record k { caps_lock = not k.caps_lock }
    else if key == key_num_lock && make
    then record k { num_lock = not k.num_lock }
    else if key == key_scroll_lock && make
    then record k { scroll_lock = not k.scroll_lock }
    else k

abbrev pub is_lock : ℕ → Bool
is_lock key = key == key_caps_lock || key == key_num_lock || key == key_scroll_lock

-- A key of the pad without NumLock.
abbrev pub pad_move : ℕ → ℕ
pad_move key =
    if key == key_pad_7
    then key_home
    else if key == key_pad_1
    then key_end
    else if key == key_pad_9
    then key_pageup
    else if key == key_pad_3
    then key_pagedown
    else if key == key_pad_0
    then key_insert
    else if key == key_pad_8
    then key_up
    else if key == key_pad_2
    then key_down
    else if key == key_pad_4
    then key_left
    else if key == key_pad_6
    then key_right
    else if key == key_pad_dot
    then key_delete
    else key

-- The key that a key of the pad stands for.
abbrev pub pad_key : Bool → ℕ → ℕ
pad_key num_lock key =
    if key == key_pad_slash
    then 47
    else if key == key_pad_star
    then 42
    else if key == key_pad_minus
    then 45
    else if key == key_pad_plus
    then 43
    else if key == key_pad_enter
    then key_enter
    else if num_lock
    then (if leb key_pad_0 key && leb key key_pad_9
        then key - key_pad_0 + 48
        else if key == key_pad_dot
        then 46
        else key)
    else pad_move key

abbrev pub is_pad : ℕ → Bool
is_pad key = leb key_pad_slash key && leb key key_pad_9

-- The flags are bits of their own, above the key, so `|=` adds them.
abbrev pub flagged : Keyboard → Bool → ℕ → ℕ
flagged k pad key =
    key
    + bit k.shift_l * 0x200
    + bit k.shift_r * 0x400
    + bit k.ctrl_l * 0x800
    + bit k.ctrl_r * 0x1000
    + bit k.alt_l * 0x2000
    + bit k.alt_r * 0x4000
    + bit pad * 0x8000
