-- ===== src/Terminal/Console/Valid.antt =====
-- The invariant of a console of kernel/console.c, and the moves of its window.
use dlos.Prelude.{ℕ, zero, suc, ◌+◌, ◌-◌, ◌*◌, ◌^◌, ◌≤◌, ◌<◌, ◌≡◌, inl, inr, ltb, arith, Bool-cases}
use dlos.Terminal.State.{◌+₃₂◌, Console}
use dlos.Terminal.Console.{
  screen_width, screen_size, Direction, scr_up, scr_dn, scrolled, line_feed, skip_blanks,
}

-- The cursor is inside the part of the memory that belongs to the console, and the window begins
-- at a line of it and does not end behind it by a line or more.
pub record IsConsole (p : Console) : Type 0 where
  pub bound : p.original_addr + p.v_mem_limit < 2 ^ 31
  pub size : screen_size ≤ p.v_mem_limit
  pub cursor_low : p.original_addr ≤ p.cursor
  pub cursor_high : p.cursor < p.original_addr + p.v_mem_limit
  pub lines : (n : ℕ) × (p.current_start_addr ≡ p.original_addr + screen_width * n)
  pub end : p.current_start_addr + screen_size < p.original_addr + p.v_mem_limit + screen_width

-- A console that keeps its place.
abbrev pub SamePlace : Console → Console → Type 0
SamePlace p q = (q.original_addr ≡ p.original_addr) × (q.v_mem_limit ≡ p.v_mem_limit)

pub scrolled-IsConsole :
    (p : Console) (d : Direction)
    → IsConsole p
    → IsConsole (scrolled d p) × SamePlace p (scrolled d p)
unfolding scrolled
scrolled-IsConsole p scr_up v = (
  record {
    bound = ground (arith, v.bound);
    size = ground (arith, v.size);
    cursor_low = ground (arith, v.cursor_low);
    cursor_high = ground (arith, v.cursor_high);
    lines = up v.lines;
    end = ground (arith, v.end, v.bound);
  },
  ground arith,
)
  where
    up :
        (n : ℕ) × (p.current_start_addr ≡ p.original_addr + screen_width * n)
        → (n : ℕ) × ((scrolled scr_up p).current_start_addr
            ≡ (scrolled scr_up p).original_addr + screen_width * n)
    up (zero, e) = (zero, ground (arith, e))
    up (suc n, e) = (n, ground (arith, e))
scrolled-IsConsole p scr_dn v = (
  record {
    bound = ground (arith, v.bound);
    size = ground (arith, v.size);
    cursor_low = ground (arith, v.cursor_low);
    cursor_high = ground (arith, v.cursor_high);
    lines =
        elim (Bool-cases
          (ltb (p.current_start_addr +₃₂ screen_size) (p.original_addr +₃₂ p.v_mem_limit))) [
            | inl y ↦ (suc v.lines.0, ground (arith, v.lines.1, v.bound, v.end))
            | inr n ↦ (v.lines.0, ground (arith, v.lines.1))
          ];
    end = ground (arith, v.end, v.bound);
  },
  ground arith,
)

pub line_feed-IsConsole :
    (p : Console) → IsConsole p → IsConsole (line_feed p) × SamePlace p (line_feed p)
unfolding line_feed
line_feed-IsConsole p v = (
  record {
    bound = ground (arith, v.bound);
    size = ground (arith, v.size);
    cursor_low = ground (arith, v.cursor_low, v.cursor_high, v.bound);
    cursor_high = ground (arith, v.cursor_low, v.cursor_high, v.bound);
    lines = ground (arith, v.lines);
    end = ground (arith, v.end);
  },
  ground arith,
)

-- The cursor goes back inside the console only.
pub skip_blanks-bounds :
    (fuel : ℕ) (memory : ℕ → ℕ) (original row p_vmem cursor : ℕ)
    → original ≤ cursor
    → (original ≤ skip_blanks fuel memory original row p_vmem cursor)
      × (skip_blanks fuel memory original row p_vmem cursor ≤ cursor)
unfolding skip_blanks
skip_blanks-bounds zero memory original row p_vmem cursor h = (h, omega arith)
skip_blanks-bounds (suc fuel) memory original row p_vmem cursor h =
    elim (Bool-cases (ltb original cursor)) [
      | inl y ↦ ground (
        arith,
        skip_blanks-bounds fuel memory original row (p_vmem - 2) (cursor - 1) (ground arith),
      )
      | inr n ↦ ground arith
    ]
