-- ===== src/Terminal/Console/Draw.antt =====
-- out_char of kernel/console.c: it ends, and it changes only what belongs to its console.
use dlos.Prelude.{
  ℕ, ◌+◌, ◌-◌, ◌*◌, ◌/◌, ◌≤◌, ◌<◌, ◌≡◌, inl, inr, refl, ltb, ◌==◌, if◌then◌else◌, update, arith,
  Bool-cases, ◌∙◌,
}
use dlos.Kernel.Proc.{done, Code, >>=-done}
use dlos.Terminal.State.{◌+₃₂◌, ◌-₃₂◌, Console, Terminal, set_console}
use dlos.Terminal.Console.{
  screen_width, screen_size, v_mem_base, flush, line_feed, follow_cursor, backspace,
  backspace_cursor, put_cell, out_char,
}
use dlos.Terminal.Console.Valid.{IsConsole, line_feed-IsConsole, skip_blanks-bounds}
use dlos.Terminal.Console.Frame.{
  Drawn, Drawn-trans, flush-ports, with_console, moved-IsConsole, Drawn-console, Drawn-flush,
  Drawn-same, follow_cursor-Drawn,
}

line_feed-Drawn :
    (c : ℕ) (s : Terminal)
    → IsConsole (s.console_table c)
    → Drawn c s (with_console s c (line_feed (s.console_table c)))
line_feed-Drawn c s v =
    let (valid, same) = line_feed-IsConsole (s.console_table c) v in
    Drawn-console c s (line_feed (s.console_table c)) valid same

-- A cell of the console gets a character, and the cursor moves.
drawn_cell : Terminal → ℕ → ℕ → ℕ → ℕ → Terminal
drawn_cell s c a ch cursor = record s {
  memory = update (update s.memory a ch) (a + 1) 7;
  console_table = update s.console_table c (record (s.console_table c) { cursor = cursor });
}

drawn_cell-Drawn :
    (c : ℕ) (s : Terminal) (a ch cursor : ℕ)
    → IsConsole (s.console_table c)
    → v_mem_base + 2 * (s.console_table c).original_addr ≤ a
    → a + 1 < v_mem_base + 2 * ((s.console_table c).original_addr + (s.console_table c).v_mem_limit)
    → (s.console_table c).original_addr ≤ cursor
    → cursor < (s.console_table c).original_addr + (s.console_table c).v_mem_limit
    → Drawn c s (drawn_cell s c a ch cursor)
unfolding drawn_cell
drawn_cell-Drawn c s a ch cursor v l h l' h' = record {
  rest = refl;
  others = λ d n. ground arith;
  place = ground arith;
  cells = λ a o. ground arith;
  valid = ground (arith, moved-IsConsole (s.console_table c) cursor v l' h');
}

put_cell-Drawn :
    (c ch : ℕ) (s : Terminal)
    → IsConsole (s.console_table c)
    → (s' : Terminal) × (put_cell c ch s ≡ done tt s') × Drawn c s s'
unfolding put_cell drawn_cell
put_cell-Drawn c ch s v =
    elim (Bool-cases (
      ltb ((s.console_table c).cursor +₃₂ 1)
        ((s.console_table c).original_addr +₃₂ (s.console_table c).v_mem_limit))) [
          | inl y ↦ rw y (
            drawn_cell s c (v_mem_base + (s.console_table c).cursor * 2) ch
                ((s.console_table c).cursor +₃₂ 1),
            refl,
            drawn_cell-Drawn c s (v_mem_base + (s.console_table c).cursor * 2) ch
                ((s.console_table c).cursor +₃₂ 1) v (omega (arith, v.cursor_low))
                (omega (arith, v.cursor_high))
                (ground (arith, v.cursor_low, v.cursor_high, v.bound))
                (ground (arith, v.cursor_high, v.bound)),
          )
          | inr n ↦ rw n (s, refl, Drawn-same c s v)
        ]

backspace_cursor-bounds :
    (memory : ℕ → ℕ) (p : Console)
    → IsConsole p
    → (p.original_addr ≤ backspace_cursor memory p) × (backspace_cursor memory p ≤ p.cursor)
unfolding backspace_cursor
backspace_cursor-bounds memory p v = elim (Bool-cases (ltb p.original_addr p.cursor)) [
  | inl y ↦ rw y (
      ground (
        arith,
        skip_blanks-bounds (p.cursor - 1) memory p.original_addr
            ((p.cursor - 1 -₃₂ p.original_addr) / screen_width) (v_mem_base + p.cursor * 2 - 2)
            (p.cursor - 1) (ground arith),
      ))
  | inr n ↦ rw n (ground (arith, v.cursor_low))
]

backspace-Drawn :
    (c : ℕ) (s : Terminal)
    → IsConsole (s.console_table c)
    → (s' : Terminal) × (backspace c s ≡ done tt s') × Drawn c s s'
unfolding backspace drawn_cell
backspace-Drawn c s v =
    elim (Bool-cases (ltb (s.console_table c).original_addr (s.console_table c).cursor)) [
      | inl y ↦
          let a = v_mem_base + (s.console_table c).cursor * 2 - 2 in
          let e : v_mem_base + (s.console_table c).cursor * 2 - 1 ≡ a + 1 = ground arith in
          let memory = update (update s.memory a 32) (a + 1) 7 in
          let (low, high) = backspace_cursor-bounds memory (s.console_table c) v in
          rw (y, e)
            (
              drawn_cell s c a 32 (backspace_cursor memory (s.console_table c)),
              refl,
              drawn_cell-Drawn c s a 32 (backspace_cursor memory (s.console_table c)) v
                  (ground arith) (ground (arith, v.cursor_high)) low
                  (omega (arith, high, v.cursor_high)),
            )
      | inr n ↦
          let (low, high) = backspace_cursor-bounds s.memory (s.console_table c) v in
          rw n (
            _,
            refl,
            Drawn-console c s _
                (moved-IsConsole (s.console_table c) (backspace_cursor s.memory (s.console_table c))
                  v low (omega (arith, high, v.cursor_high)))
                (refl, refl),
          )
    ]

-- One character on a valid console: out_char ends, the console stays valid, the cursor is above the
-- end of the window, and outside of the memory of this console and its fields only the hardware
-- is spoken to.
pub out_char-Drawn :
    (c ch : ℕ) (s : Terminal)
    → IsConsole (s.console_table c)
    → (s' : Terminal) × (out_char c ch s ≡ done tt s')
      × ((s'.console_table c).cursor < (s'.console_table c).current_start_addr + screen_size)
      × Drawn c s s'
unfolding out_char
out_char-Drawn c ch s v =
    let (s1, run1, drawn1) = switched in
    let v1 = drawn1.valid in
    let (s2, run2, same, seen, drawn2) =
      follow_cursor-Drawn (s1.console_table c).v_mem_limit c s1 v1 (omega (arith, v1.lines.1)) in
    let (s3, run3, e) = flush-ports c s2 in
    (
      s3,
      >>=-done switch _ run1
          ∙ >>=-done (follow_cursor (s1.console_table c).v_mem_limit c) (λ _. flush c) run2
          ∙ run3,
      ground (arith, e, seen),
      Drawn-trans c s s1 s3 drawn1
          (Drawn-trans c s1 s2 s3 drawn2 (Drawn-flush c s2 s3 drawn2.valid e)),
    )
  where
    switch : Code Terminal (Unit {0})
    switch =
        if ch == 10 then set_console c line_feed else if ch == 8 then backspace c else put_cell c ch

    switched : (s1 : Terminal) × (switch s ≡ done tt s1) × Drawn c s s1
    switched = elim (Bool-cases (ch == 10)) [
      | inl a ↦ rw a (_, refl, line_feed-Drawn c s v)
      | inr a ↦ elim (Bool-cases (ch == 8)) [
        | inl b ↦ rw (a, b) (backspace-Drawn c s v)
        | inr b ↦ rw (a, b) (put_cell-Drawn c ch s v)
      ]
    ]
