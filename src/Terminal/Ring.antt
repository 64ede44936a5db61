-- ===== src/Terminal/Ring.antt =====
-- The buffers of the terminals as queues: what put_key and tty_dev_write (kernel/tty.c), and
-- keyboard_handler and get_byte_from_kbuf (kernel/keyboard.c), do to a ring of cells.
use dlos.Prelude.{
  ℕ, zero, suc, ◌+◌, ◌≤◌, ◌<◌, ◌≡◌, ◌⊎◌, refl, List, [], ◌∷◌, ◌++◌, update, arith, ap, length,
}
use dlos.Terminal.State.{advance}

-- The `count` cells from `tail` on, of a ring of `size` cells.
abbrev pub contents : (ℕ → ℕ) → ℕ → ℕ → ℕ → List ℕ
contents buf size tail zero = []
contents buf size tail (suc count) = buf tail ∷ contents buf size (advance size tail) count

pub record IsRing (size head tail count : ℕ) : Type 0 where
  pub head_in : head < size
  pub tail_in : tail < size
  pub count_in : count ≤ size
  pub gap : (head ≡ tail + count) ⊎ (head + size ≡ tail + count)

pub IsRing-push :
    (size head tail count : ℕ)
    → IsRing size head tail count
    → count < size
    → IsRing size (advance size head) tail (count + 1)
IsRing-push size head tail count v h = record {
  head_in = ground (arith, v.head_in);
  tail_in = v.tail_in;
  count_in = omega arith;
  gap = ground (arith, v.gap, v.head_in, v.tail_in);
}

pub IsRing-pop :
    (size head tail count : ℕ)
    → IsRing size head tail (suc count)
    → IsRing size head (advance size tail) count
IsRing-pop size head tail count v = record {
  head_in = v.head_in;
  tail_in = ground (arith, v.tail_in);
  count_in = omega (arith, v.count_in);
  gap = ground (arith, v.gap, v.head_in, v.tail_in);
}

-- A write at the head comes last.
pub contents-push :
    (buf : ℕ → ℕ) (size head tail count v : ℕ)
    → IsRing size head tail count
    → count < size
    → contents (update buf head v) size tail (count + 1) ≡ contents buf size tail count ++ v ∷ []
contents-push buf size head tail zero v r h = ground (arith, r.gap, r.head_in, r.tail_in)
contents-push buf size head tail (suc count) v r h = ground (
  arith,
  r.gap,
  r.head_in,
  r.tail_in,
  contents-push buf size head (advance size tail) count v (IsRing-pop size head tail count r)
      (omega arith),
)

pub length-contents :
    (buf : ℕ → ℕ) (size tail count : ℕ) → length (contents buf size tail count) ≡ count
length-contents buf size tail zero = refl
length-contents buf size tail (suc count) =
    ap suc (length-contents buf size (advance size tail) count)
