-- ===== src/Terminal/Tty/Draws.antt =====
-- The inner loop of tty_do_write in kernel/tty.c: it draws the bytes of the buffer, in order.
use dlos.Prelude.{
  ℕ, zero, suc, inl, inr, ◌+◌, ◌≤◌, ◌<◌, ◌≡◌, ◌≢◌, ◌⊎◌, refl, sym, List, [], ◌∷◌, ◌++◌, update,
  update_self, update_ne, subst, arith, ap, ◌∙◌,
}
use dlos.Const.{nr_consoles}
use dlos.Kernel.Proc.{done, >>=-done}
use dlos.Terminal.State.{Terminal}
use dlos.Terminal.Console.{v_mem_base, v_mem_size, out_char}
use dlos.Terminal.Tty.{tty_out_buf_len, copy_bytes, write_bytes}
use dlos.Terminal.Tty.Shown.{AllConsoles, Shown, Shown-trans, out_char-Shown}

-- The `n` bytes from `a` on lie apart from the `k` bytes from `b` on.
abbrev pub Apart : ℕ → ℕ → ℕ → ℕ → Type 0
Apart a n b k = (a + n ≤ b) ⊎ (b + k ≤ a)

abbrev pub bytes_at : ℕ → ℕ → (ℕ → ℕ) → List ℕ
bytes_at zero a m = []
bytes_at (suc n) a m = m a ∷ bytes_at n (a + 1) m

-- out_char draws the characters `cs` in order; before each of them the bytes of the buffer at `buf` may
-- change, and nothing else.
abbrev pub Draws : ℕ → ℕ → List ℕ → Terminal → Terminal → Type 0
Draws c buf [] s s' = s' ≡ s
Draws c buf (ch ∷ cs) s s' =
    (m : ℕ → ℕ) × ((a : ℕ) → (a < buf) ⊎ (buf + tty_out_buf_len ≤ a) → m a ≡ s.memory a)
    × (s1 : Terminal) × (out_char c ch (record s { memory = m }) ≡ done tt s1)
    × Draws c buf cs s1 s'

pub Draws-append :
    (c buf : ℕ) (cs ds : List ℕ) (s s' s'' : Terminal)
    → Draws c buf cs s s'
    → Draws c buf ds s' s''
    → Draws c buf (cs ++ ds) s s''
Draws-append c buf [] ds s s' s'' d e = subst (λ x. Draws c buf ds x s'') d e
Draws-append c buf (ch ∷ cs) ds s s' s'' (m, same, s1, run, d) e =
    (m, same, s1, run, Draws-append c buf cs ds s1 s' s'' d e)

pub bytes_at-same :
    (n a : ℕ) (m m' : ℕ → ℕ)
    → ((i : ℕ) → a ≤ i → i < a + n → m i ≡ m' i)
    → bytes_at n a m ≡ bytes_at n a m'
bytes_at-same zero a m m' same = refl
bytes_at-same (suc n) a m m' same =
    let rest =
      bytes_at-same n (a + 1) m m' (λ i l u. same i (omega (arith, l)) (omega (arith, u))) in
    ap (λ x. x ∷ bytes_at n (a + 1) m) (same a (omega arith) (omega arith))
    ∙ ap (λ r. m' a ∷ r) rest

pub bytes_at-append :
    (j k p : ℕ) (m : ℕ → ℕ) → bytes_at j p m ++ bytes_at k (p + j) m ≡ bytes_at (j + k) p m
bytes_at-append zero k p m =
    ap (λ a. bytes_at k a m) (omega arith) ∙ ap (λ n. bytes_at n p m) (omega arith)
bytes_at-append (suc j) k p m =
    let sum : suc j + k ≡ suc (j + k) = omega arith in
    ap (λ a. m p ∷ (bytes_at j (p + 1) m ++ bytes_at k a m)) (omega arith)
    ∙ ap (λ r. m p ∷ r) (bytes_at-append j k (p + 1) m)
    ∙ ap (λ n. bytes_at n p m) (sym sum)

pub copy_bytes-outside :
    (n to from a : ℕ) (m : ℕ → ℕ) → (a < to) ⊎ (to + n ≤ a) → copy_bytes to from n m a ≡ m a
unfolding copy_bytes
copy_bytes-outside zero to from a m out = refl
copy_bytes-outside (suc n) to from a m out =
    let ne : to ≢ a = apart out in
    copy_bytes-outside n (to + 1) (from + 1) a (update m to (m from)) (further out)
    ∙ update_ne m to a (m from) ne
  where
    apart : (a < to) ⊎ (to + suc n ≤ a) → to ≢ a
    apart (inl l) = omega arith
    apart (inr l) = omega arith

    further : (a < to) ⊎ (to + suc n ≤ a) → (a < to + 1) ⊎ (to + 1 + n ≤ a)
    further (inl l) = inl (omega arith)
    further (inr l) = inr (omega arith)

pub copied_bytes :
    (n to from : ℕ) (m : ℕ → ℕ)
    → Apart from n to n
    → bytes_at n to (copy_bytes to from n m) ≡ bytes_at n from m
unfolding copy_bytes
copied_bytes zero to from m out = refl
copied_bytes (suc n) to from m out =
    let m1 = update m to (m from) in
    let first : copy_bytes (to + 1) (from + 1) n m1 to ≡ m from =
      copy_bytes-outside n (to + 1) (from + 1) to m1 (inl (omega arith))
      ∙ update_self m to (m from) in
    ap (λ x. x ∷ bytes_at n (to + 1) (copy_bytes (to + 1) (from + 1) n m1)) first
    ∙ ap (λ r. m from ∷ r)
        (copied_bytes n (to + 1) (from + 1) m1 (less out)
          ∙ bytes_at-same n (from + 1) m1 m (λ i l u.
            update_ne m to i (m from) (apart i out (omega (arith, l)) (omega (arith, u)))))
  where
    less : Apart from (suc n) to (suc n) → Apart (from + 1) n (to + 1) n
    less (inl l) = inl (omega arith)
    less (inr l) = inr (omega arith)

    apart : (i : ℕ) → Apart from (suc n) to (suc n) → from < i → i < from + suc n → to ≢ i
    apart i (inl l) a b = omega arith
    apart i (inr l) a b = omega arith

-- What drawing leaves: only the screen, the buffer, the consoles and the hardware differ.
pub record Written (buf : ℕ) (s s' : Terminal) : Type 0 where
  pub rest :
      s' ≡ record s { memory = s'.memory; console_table = s'.console_table; ports = s'.ports }
  pub cells :
      (a : ℕ)
      → (a < v_mem_base) ⊎ (v_mem_base + v_mem_size ≤ a)
      → (a < buf) ⊎ (buf + tty_out_buf_len ≤ a)
      → s'.memory a ≡ s.memory a
  pub consoles : AllConsoles s'

pub Written-trans :
    (buf : ℕ) (s s' s'' : Terminal) → Written buf s s' → Written buf s' s'' → Written buf s s''
Written-trans buf s s' s'' d e = record {
  rest = cc (d.rest, e.rest);
  cells = λ a o b. e.cells a o b ∙ d.cells a o b;
  consoles = e.consoles;
}

pub inside-outside : (a n b k i : ℕ) → Apart a n b k → a ≤ i → i < a + n → (i < b) ⊎ (b + k ≤ i)
inside-outside a n b k i (inl l) lo hi = inl (omega (arith, l, lo, hi))
inside-outside a n b k i (inr l) lo hi = inr (omega (arith, l, lo, hi))

pub rest-Apart : (a n b k j n' : ℕ) → Apart a n b k → j + n' ≡ n → Apart (a + j) n' b k
rest-Apart a n b k j n' (inl l) e = inl (omega (arith, l, e))
rest-Apart a n b k j n' (inr l) e = inr (omega (arith, l, e))

pub write_bytes-Draws :
    (n c buf a : ℕ) (s : Terminal)
    → AllConsoles s
    → c < nr_consoles
    → Apart a n v_mem_base v_mem_size
    → (s' : Terminal) × (write_bytes c a n s ≡ done tt s')
      × Draws c buf (bytes_at n a s.memory) s s'
      × Shown s s'
unfolding write_bytes
write_bytes-Draws zero c buf a s v h out =
    (s, refl, refl, record { rest = refl; cells = λ b o. refl; consoles = v })
write_bytes-Draws (suc n) c buf a s v h out =
    let (s1, run1, shown) = out_char-Shown c (s.memory a) s v h in
    let (s2, run2, draws, shown2) =
      write_bytes-Draws n c buf (a + 1) s1 shown.consoles h
        (rest-Apart a (suc n) v_mem_base v_mem_size 1 n out (omega arith)) in
    let kept : bytes_at n (a + 1) s1.memory ≡ bytes_at n (a + 1) s.memory =
      bytes_at-same n (a + 1) s1.memory s.memory (λ i lo hi. shown.cells i (
        inside-outside a (suc n) v_mem_base v_mem_size i out (omega (arith, lo))
          (omega (arith, hi)))) in
    (
      s2,
      >>=-done (out_char c (s.memory a)) (λ _. write_bytes c (a + 1) n) run1 ∙ run2,
      (s.memory, λ b o. refl, s1, run1, subst (λ cs. Draws c buf cs s1 s2) kept draws),
      Shown-trans s s1 s2 shown shown2,
    )

-- The buffer was filled before the first character.
pub Draws-filled :
    (c buf n a : ℕ) (m m' : ℕ → ℕ) (s s' : Terminal)
    → ((b : ℕ) → (b < buf) ⊎ (buf + tty_out_buf_len ≤ b) → m b ≡ s.memory b)
    → Draws c buf (bytes_at (suc n) a m') (record s { memory = m }) s'
    → Draws c buf (bytes_at (suc n) a m') s s'
Draws-filled c buf n a m m' s s' same (m1, same1, s1, run, d) =
    (m1, λ b o. same1 b o ∙ same b o, s1, run, d)
