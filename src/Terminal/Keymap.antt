-- ===== src/Terminal/Keymap.antt =====
-- The keys of include/sys/keyboard.h, and the table of include/sys/keymap.h: three columns for each scan
-- code, plain, with shift and after 0xE0.
use dlos.Prelude.{ℕ, ◌+◌, List, [], ◌∷◌}

abbrev pub flag_ext : ℕ
flag_ext = 0x100

abbrev pub map_cols : ℕ
map_cols = 3

abbrev pub key_enter : ℕ
key_enter = 0x3 + flag_ext

abbrev pub key_backspace : ℕ
key_backspace = 0x4 + flag_ext

abbrev pub key_shift_l : ℕ
key_shift_l = 0x8 + flag_ext

abbrev pub key_shift_r : ℕ
key_shift_r = 0x9 + flag_ext

abbrev pub key_ctrl_l : ℕ
key_ctrl_l = 0xa + flag_ext

abbrev pub key_ctrl_r : ℕ
key_ctrl_r = 0xb + flag_ext

abbrev pub key_alt_l : ℕ
key_alt_l = 0xc + flag_ext

abbrev pub key_alt_r : ℕ
key_alt_r = 0xd + flag_ext

abbrev pub key_caps_lock : ℕ
key_caps_lock = 0xe + flag_ext

abbrev pub key_num_lock : ℕ
key_num_lock = 0xf + flag_ext

abbrev pub key_scroll_lock : ℕ
key_scroll_lock = 0x10 + flag_ext

abbrev pub key_f1 : ℕ
key_f1 = 0x11 + flag_ext

abbrev pub key_f12 : ℕ
key_f12 = 0x1c + flag_ext

abbrev pub key_printscreen : ℕ
key_printscreen = 0x1d + flag_ext

abbrev pub key_pausebreak : ℕ
key_pausebreak = 0x1e + flag_ext

abbrev pub key_insert : ℕ
key_insert = 0x1f + flag_ext

abbrev pub key_delete : ℕ
key_delete = 0x20 + flag_ext

abbrev pub key_home : ℕ
key_home = 0x21 + flag_ext

abbrev pub key_end : ℕ
key_end = 0x22 + flag_ext

abbrev pub key_pageup : ℕ
key_pageup = 0x23 + flag_ext

abbrev pub key_pagedown : ℕ
key_pagedown = 0x24 + flag_ext

abbrev pub key_up : ℕ
key_up = 0x25 + flag_ext

abbrev pub key_down : ℕ
key_down = 0x26 + flag_ext

abbrev pub key_left : ℕ
key_left = 0x27 + flag_ext

abbrev pub key_right : ℕ
key_right = 0x28 + flag_ext

abbrev pub key_pad_slash : ℕ
key_pad_slash = 0x2c + flag_ext

abbrev pub key_pad_star : ℕ
key_pad_star = 0x2d + flag_ext

abbrev pub key_pad_minus : ℕ
key_pad_minus = 0x2e + flag_ext

abbrev pub key_pad_plus : ℕ
key_pad_plus = 0x2f + flag_ext

abbrev pub key_pad_enter : ℕ
key_pad_enter = 0x30 + flag_ext

abbrev pub key_pad_dot : ℕ
key_pad_dot = 0x31 + flag_ext

abbrev pub key_pad_0 : ℕ
key_pad_0 = 0x32 + flag_ext

abbrev pub key_pad_1 : ℕ
key_pad_1 = 0x33 + flag_ext

abbrev pub key_pad_2 : ℕ
key_pad_2 = 0x34 + flag_ext

abbrev pub key_pad_3 : ℕ
key_pad_3 = 0x35 + flag_ext

abbrev pub key_pad_4 : ℕ
key_pad_4 = 0x36 + flag_ext

abbrev pub key_pad_6 : ℕ
key_pad_6 = 0x38 + flag_ext

abbrev pub key_pad_7 : ℕ
key_pad_7 = 0x39 + flag_ext

abbrev pub key_pad_8 : ℕ
key_pad_8 = 0x3a + flag_ext

abbrev pub key_pad_9 : ℕ
key_pad_9 = 0x3b + flag_ext

abbrev keymap_0 : List ℕ → List ℕ
keymap_0 rest =
    0 ∷ 0 ∷ 0 ∷ 257 ∷ 257 ∷ 0 ∷ 49 ∷ 33 ∷ 0 ∷ 50 ∷ 64 ∷ 0 ∷ 51 ∷ 35 ∷ 0 ∷ 52 ∷ 36 ∷ 0 ∷ 53 ∷ 37 ∷ 0
    ∷ 54 ∷ 94 ∷ 0 ∷ 55 ∷ 38 ∷ 0 ∷ 56 ∷ 42 ∷ 0 ∷ 57 ∷ 40 ∷ 0 ∷ 48 ∷ 41 ∷ 0 ∷ 45 ∷ 95 ∷ 0 ∷ 61 ∷ 43
    ∷ 0 ∷ 260 ∷ 260 ∷ 0 ∷ 258 ∷ 258 ∷ 0 ∷ 113 ∷ 81 ∷ 0 ∷ 119 ∷ 87 ∷ 0 ∷ 101 ∷ 69 ∷ 0 ∷ 114 ∷ 82 ∷ 0
    ∷ 116 ∷ 84 ∷ 0 ∷ 121 ∷ 89 ∷ 0 ∷ 117 ∷ 85 ∷ 0 ∷ 105 ∷ 73 ∷ 0 ∷ 111 ∷ 79 ∷ 0 ∷ 112 ∷ 80 ∷ 0 ∷ 91
    ∷ 123 ∷ 0 ∷ 93 ∷ 125 ∷ 0 ∷ 259 ∷ 259 ∷ 304 ∷ 266 ∷ 266 ∷ 267 ∷ 97 ∷ 65 ∷ 0 ∷ 115 ∷ 83 ∷ 0 ∷ rest

abbrev keymap_1 : List ℕ → List ℕ
keymap_1 rest =
    100 ∷ 68 ∷ 0 ∷ 102 ∷ 70 ∷ 0 ∷ 103 ∷ 71 ∷ 0 ∷ 104 ∷ 72 ∷ 0 ∷ 106 ∷ 74 ∷ 0 ∷ 107 ∷ 75 ∷ 0 ∷ 108
    ∷ 76 ∷ 0 ∷ 59 ∷ 58 ∷ 0 ∷ 39 ∷ 34 ∷ 0 ∷ 96 ∷ 126 ∷ 0 ∷ 264 ∷ 264 ∷ 0 ∷ 92 ∷ 124 ∷ 0 ∷ 122 ∷ 90
    ∷ 0 ∷ 120 ∷ 88 ∷ 0 ∷ 99 ∷ 67 ∷ 0 ∷ 118 ∷ 86 ∷ 0 ∷ 98 ∷ 66 ∷ 0 ∷ 110 ∷ 78 ∷ 0 ∷ 109 ∷ 77 ∷ 0 ∷ 44
    ∷ 60 ∷ 0 ∷ 46 ∷ 62 ∷ 0 ∷ 47 ∷ 63 ∷ 300 ∷ 265 ∷ 265 ∷ 0 ∷ 42 ∷ 42 ∷ 0 ∷ 268 ∷ 268 ∷ 269 ∷ 32 ∷ 32
    ∷ 0 ∷ 270 ∷ 270 ∷ 0 ∷ 273 ∷ 273 ∷ 0 ∷ 274 ∷ 274 ∷ 0 ∷ 275 ∷ 275 ∷ 0 ∷ 276 ∷ 276 ∷ 0 ∷ 277 ∷ 277
    ∷ 0 ∷ rest

abbrev keymap_2 : List ℕ → List ℕ
keymap_2 rest =
    278 ∷ 278 ∷ 0 ∷ 279 ∷ 279 ∷ 0 ∷ 280 ∷ 280 ∷ 0 ∷ 281 ∷ 281 ∷ 0 ∷ 282 ∷ 282 ∷ 0 ∷ 271 ∷ 271 ∷ 0
    ∷ 272 ∷ 272 ∷ 0 ∷ 313 ∷ 55 ∷ 289 ∷ 314 ∷ 56 ∷ 293 ∷ 315 ∷ 57 ∷ 291 ∷ 302 ∷ 45 ∷ 0 ∷ 310 ∷ 52
    ∷ 295 ∷ 311 ∷ 53 ∷ 0 ∷ 312 ∷ 54 ∷ 296 ∷ 303 ∷ 43 ∷ 0 ∷ 307 ∷ 49 ∷ 290 ∷ 308 ∷ 50 ∷ 294 ∷ 309
    ∷ 51 ∷ 292 ∷ 306 ∷ 48 ∷ 287 ∷ 305 ∷ 46 ∷ 288 ∷ 0 ∷ 0 ∷ 0 ∷ 0 ∷ 0 ∷ 0 ∷ 0 ∷ 0 ∷ 0 ∷ 283 ∷ 283 ∷ 0
    ∷ 284 ∷ 284 ∷ 0 ∷ 0 ∷ 0 ∷ 0 ∷ 0 ∷ 0 ∷ 0 ∷ 0 ∷ 0 ∷ 261 ∷ 0 ∷ 0 ∷ 262 ∷ 0 ∷ 0 ∷ 263 ∷ 0 ∷ 0 ∷ 0
    ∷ 0 ∷ 0 ∷ 0 ∷ rest

abbrev keymap_3 : List ℕ → List ℕ
keymap_3 rest =
    0 ∷ 0 ∷ 0 ∷ 0 ∷ 0 ∷ 0 ∷ 0 ∷ 0 ∷ 0 ∷ 0 ∷ 0 ∷ 0 ∷ 0 ∷ 0 ∷ 0 ∷ 0 ∷ 0 ∷ 0 ∷ 0 ∷ 0 ∷ 0 ∷ 0 ∷ 0 ∷ 0
    ∷ 0 ∷ 0 ∷ 0 ∷ 0 ∷ 0 ∷ 0 ∷ 0 ∷ 0 ∷ 0 ∷ 0 ∷ 0 ∷ 0 ∷ 0 ∷ 0 ∷ 0 ∷ 0 ∷ 0 ∷ 0 ∷ 0 ∷ 0 ∷ 0 ∷ 0 ∷ 0 ∷ 0
    ∷ 0 ∷ 0 ∷ 0 ∷ 0 ∷ 0 ∷ 0 ∷ 0 ∷ 0 ∷ 0 ∷ 0 ∷ 0 ∷ 0 ∷ 0 ∷ 0 ∷ 0 ∷ 0 ∷ 0 ∷ 0 ∷ 0 ∷ 0 ∷ 0 ∷ 0 ∷ 0 ∷ 0
    ∷ 0 ∷ 0 ∷ 0 ∷ 0 ∷ 0 ∷ 0 ∷ 0 ∷ 0 ∷ 0 ∷ 0 ∷ 0 ∷ 0 ∷ 0 ∷ 0 ∷ 0 ∷ 0 ∷ 0 ∷ 0 ∷ 0 ∷ 0 ∷ 0 ∷ 0 ∷ 0 ∷ 0
    ∷ rest

unfoldable pub keymap : List ℕ
keymap = keymap_0 (keymap_1 (keymap_2 (keymap_3 [])))
