-- ===== src/Terminal/Console/Frame.antt =====
-- What drawing on a console of kernel/console.c may change, and how its window follows the cursor.
use dlos.Prelude.{
  ℕ, zero, suc, ◌+◌, ◌*◌, ◌≤◌, ◌<◌, ◌≡◌, ◌≢◌, ◌⊎◌, inl, inr, refl, true, false, leb, ◌==◌, update,
  arith, Bool-cases, ◌∙◌,
}
use dlos.Kernel.Proc.{done, ◌>>=◌}
use dlos.Terminal.State.{◌+₃₂◌, Console, Terminal}
use dlos.Terminal.Console.{
  screen_size, v_mem_base, Direction, scr_dn, flush, scrolled, scroll_screen, follow_cursor,
}
use dlos.Terminal.Console.Valid.{IsConsole, SamePlace, scrolled-IsConsole}

-- What code that draws on console `c` may change.
pub record Drawn (c : ℕ) (s s' : Terminal) : Type 0 where
  pub rest :
      s' ≡ record s { memory = s'.memory; console_table = s'.console_table; ports = s'.ports }
  pub others : (d : ℕ) → c ≢ d → s'.console_table d ≡ s.console_table d
  pub place : SamePlace (s.console_table c) (s'.console_table c)
  pub cells :
      (a : ℕ)
      → a < v_mem_base + 2 * (s.console_table c).original_addr
        ⊎ (v_mem_base + 2 * ((s.console_table c).original_addr + (s.console_table c).v_mem_limit)
            ≤ a)
      → s'.memory a ≡ s.memory a
  pub valid : IsConsole (s'.console_table c)

pub Drawn-trans : (c : ℕ) (s s' s'' : Terminal) → Drawn c s s' → Drawn c s' s'' → Drawn c s s''
Drawn-trans c s s' s'' d e = record {
  rest = cc (d.rest, e.rest);
  others = λ i n. cc (d.others i n, e.others i n);
  place = (e.place.0 ∙ d.place.0, e.place.1 ∙ d.place.1);
  cells = λ a o. ground (arith, d.cells a o, e.cells a, d.place);
  valid = e.valid;
}

-- flush speaks to the hardware only.
pub flush-ports :
    (c : ℕ) (s : Terminal)
    → (s' : Terminal) × (flush c s ≡ done tt s') × (s' ≡ record s { ports = s'.ports })
unfolding flush
flush-ports c s = elim (Bool-cases (c == s.nr_current_console)) [
  | inl y ↦ rw y (_, refl, refl)
  | inr n ↦ rw n (_, refl, refl)
]

abbrev pub with_console : Terminal → ℕ → Console → Terminal
with_console s c p = record s { console_table = update s.console_table c p }

-- The cursor may stand anywhere in the console.
pub moved-IsConsole :
    (p : Console) (cursor : ℕ)
    → IsConsole p
    → p.original_addr ≤ cursor
    → cursor < p.original_addr + p.v_mem_limit
    → IsConsole (record p { cursor = cursor })
moved-IsConsole p cursor v l h = record {
  bound = v.bound;
  size = v.size;
  cursor_low = l;
  cursor_high = h;
  lines = v.lines;
  end = v.end;
}

-- A change of the console alone.
pub Drawn-console :
    (c : ℕ) (s : Terminal) (p : Console)
    → IsConsole p
    → SamePlace (s.console_table c) p
    → Drawn c s (with_console s c p)
Drawn-console c s p v same = record {
  rest = refl;
  others = λ d n. ground arith;
  place = ground (arith, same);
  cells = λ a o. refl;
  valid = ground (arith, v);
}

pub Drawn-flush :
    (c : ℕ) (s s' : Terminal)
    → IsConsole (s.console_table c)
    → s' ≡ record s { ports = s'.ports }
    → Drawn c s s'
Drawn-flush c s s' v e = record {
  rest = cc e;
  others = λ d n. cc e;
  place = (cc e, cc e);
  cells = λ a o. cc e;
  valid = rw e v;
}

pub scroll_screen-Drawn :
    (c : ℕ) (d : Direction) (s : Terminal)
    → IsConsole (s.console_table c)
    → (s' : Terminal) × (scroll_screen c d s ≡ done tt s')
      × (s'.console_table c ≡ scrolled d (s.console_table c))
      × Drawn c s s'
unfolding scroll_screen
scroll_screen-Drawn c d s v =
    let p = scrolled d (s.console_table c) in
    let (s', run, e) = flush-ports c (with_console s c p) in
    let (valid, same) = scrolled-IsConsole (s.console_table c) d v in
    (
      s',
      run,
      ground (arith, e),
      Drawn-trans c s (with_console s c p) s' (Drawn-console c s p valid same)
          (Drawn-flush c (with_console s c p) s' (ground (arith, valid)) e),
    )

pub Drawn-same : (c : ℕ) (s : Terminal) → IsConsole (s.console_table c) → Drawn c s s
Drawn-same c s v = Drawn-flush c s s v refl

pub scrolled_cursor :
    (c : ℕ) (s s' : Terminal)
    → s'.console_table c ≡ scrolled scr_dn (s.console_table c)
    → (s'.console_table c).cursor ≡ (s.console_table c).cursor
unfolding scrolled
scrolled_cursor c s s' e = ground (arith, e)

-- A round of the loop needs one unit of fuel less.
pub scrolled_measure :
    (fuel : ℕ) (p q : Console)
    → IsConsole p
    → q ≡ scrolled scr_dn p
    → leb (p.current_start_addr +₃₂ screen_size) p.cursor ≡ true
    → p.original_addr + p.v_mem_limit ≤ p.current_start_addr + screen_size + suc fuel
    → q.original_addr + q.v_mem_limit ≤ q.current_start_addr + screen_size + fuel
unfolding scrolled
scrolled_measure fuel p q v e y h = ground (arith, e, v.bound, v.end, v.cursor_high)

pub follow_cursor-Drawn :
    (fuel c : ℕ) (s : Terminal)
    → IsConsole (s.console_table c)
    → (s.console_table c).original_addr + (s.console_table c).v_mem_limit
      ≤ (s.console_table c).current_start_addr + screen_size + fuel
    → (s' : Terminal) × (follow_cursor fuel c s ≡ done tt s')
      × ((s'.console_table c).cursor ≡ (s.console_table c).cursor)
      × ((s'.console_table c).cursor < (s'.console_table c).current_start_addr + screen_size)
      × Drawn c s s'
unfolding follow_cursor
follow_cursor-Drawn zero c s v h =
    let below : leb ((s.console_table c).current_start_addr +₃₂ screen_size)
          (s.console_table c).cursor
        ≡ false =
      ground (arith, v.cursor_high, v.bound, v.end) in
    rw below (s, refl, refl, ground (arith, v.bound, v.end), Drawn-same c s v)
follow_cursor-Drawn (suc fuel) c s v h =
    elim (Bool-cases
      (leb ((s.console_table c).current_start_addr +₃₂ screen_size) (s.console_table c).cursor)) [
        | inr n ↦ rw n (s, refl, refl, ground (arith, v.bound, v.end), Drawn-same c s v)
        | inl y ↦
            let (s1, run1, moved, drawn1) = scroll_screen-Drawn c scr_dn s v in
            let (s2, run2, same, seen, drawn2) =
              follow_cursor-Drawn fuel c s1 drawn1.valid
                (scrolled_measure fuel (s.console_table c) (s1.console_table c) v moved y h) in
            let step : (scroll_screen c scr_dn >>= λ _. follow_cursor fuel c) s ≡ done tt s2 =
              ground (arith, run1, run2) in
            rw (y, step)
              (
                s2,
                refl,
                same ∙ scrolled_cursor c s s1 moved,
                seen,
                Drawn-trans c s s1 s2 drawn1 drawn2,
              )
      ]
