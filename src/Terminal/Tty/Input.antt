-- ===== src/Terminal/Tty/Input.antt =====
-- The buffers between the keyboard and its reader (kernel/keyboard.c, kernel/tty.c) are queues.
use dlos.Prelude.{
  ℕ_discrete, ℕ, suc, inl, inr, ◌+◌, ◌-◌, ◌≡◌, refl, true, false, ltb, List, [], ◌∷◌, ◌++◌, ◌==◌,
  if◌then◌else◌, update, arith, length, Bool-cases, ap, ◌∙◌,
}
use dlos.Kernel.Proc.{done, >>=-done}
use dlos.Terminal.State.{Terminal, Tty, KbInput, advance, enable_int, disable_int}
use dlos.Terminal.Ring.{contents, IsRing, IsRing-push, IsRing-pop, contents-push, length-contents}
use dlos.Terminal.Tty.{tty_in_bytes, without_key}
use dlos.Terminal.Keyboard.{
  kb_in_bytes, stored, keyboard_handler, await_byte, take_byte, get_byte_from_kbuf,
}

-- The keys that wait in a terminal, the oldest first, and the scan codes in the keyboard's buffer.
abbrev pub keys : Tty → List ℕ
keys r = contents r.in_buf tty_in_bytes r.p_inbuf_tail r.inbuf_count

abbrev pub IsTty : Tty → Type 0
IsTty r = IsRing tty_in_bytes r.p_inbuf_head r.p_inbuf_tail r.inbuf_count

abbrev pub codes : KbInput → List ℕ
codes b = contents b.buf kb_in_bytes b.p_tail b.count

abbrev pub IsKbInput : KbInput → Type 0
IsKbInput b = IsRing kb_in_bytes b.p_head b.p_tail b.count

-- A queue of at most `size` elements drops what does not fit.
abbrev pub enqueued : ℕ → List ℕ → ℕ → List ℕ
enqueued size xs x = if ltb (length xs) size then xs ++ x ∷ [] else xs

contents-enqueued :
    (buf : ℕ → ℕ) (size head tail count v : ℕ)
    → IsRing size head tail count
    → ltb count size ≡ true
    → contents (update buf head v) size tail (count + 1)
      ≡ enqueued size (contents buf size tail count) v
contents-enqueued buf size head tail count v r h =
    let room : ltb (length (contents buf size tail count)) size ≡ true =
      ground (arith, length-contents buf size tail count) in
    rw room (contents-push buf size head tail count v r (ground arith))

full-enqueued :
    (buf : ℕ → ℕ) (size tail count v : ℕ)
    → ltb count size ≡ false
    → contents buf size tail count ≡ enqueued size (contents buf size tail count) v
full-enqueued buf size tail count v h =
    let room : ltb (length (contents buf size tail count)) size ≡ false =
      ground (arith, length-contents buf size tail count) in
    rw room refl

-- keyboard_handler adds the scan code to the keyboard's buffer, or drops it if 32 wait; it marks
-- that a key was pressed.
pub keyboard_handler-codes :
    (code : ℕ) (s : Terminal)
    → IsKbInput s.keyboard.kb_in
    → (b : KbInput) × (keyboard_handler code s
        ≡ done tt (record s {
          keyboard = record s.keyboard { kb_in = b };
          kernel = record s.kernel { key_pressed = true };
        }))
      × IsKbInput b
      × (codes b ≡ enqueued kb_in_bytes (codes s.keyboard.kb_in) code)
unfolding keyboard_handler
keyboard_handler-codes code s v = elim (Bool-cases (ltb s.keyboard.kb_in.count kb_in_bytes)) [
  | inl y ↦
      let b = s.keyboard.kb_in in
      rw y (
        _,
        refl,
        IsRing-push kb_in_bytes b.p_head b.p_tail b.count v (ground arith),
        contents-enqueued b.buf kb_in_bytes b.p_head b.p_tail b.count code v y,
      )
  | inr n ↦
      let b = s.keyboard.kb_in in
      rw n (b, refl, v, full-enqueued b.buf kb_in_bytes b.p_tail b.count code n)
]

await_byte-ready :
    (cs : List ℕ) (s : Terminal)
    → (s.keyboard.kb_in.count == 0) ≡ false
    → await_byte cs s ≡ done tt s
unfolding await_byte
await_byte-ready [] s e = rw e refl
await_byte-ready (c ∷ cs) s e = rw e refl

abbrev interrupted : Terminal → ℕ → List ℕ → Terminal
interrupted s code rest = record s {
  scan_codes = rest;
  keyboard = record s.keyboard { kb_in = stored code s.keyboard.kb_in };
  kernel = record s.kernel { key_pressed = true };
}

-- An empty buffer gets the next scan code.
await_byte-empty :
    (code : ℕ) (rest : List ℕ) (s : Terminal)
    → s.keyboard.kb_in.count ≡ 0
    → await_byte (code ∷ rest) s ≡ done tt (interrupted s code rest)
unfolding await_byte keyboard_handler
await_byte-empty code rest s e =
    let test : (s.keyboard.kb_in.count == 0) ≡ true = ground arith in
    rw test (await_byte-ready rest (interrupted s code rest) (ground arith))

abbrev taken : Terminal → Terminal
taken s = record s {
  keyboard = record s.keyboard {
    kb_in = record s.keyboard.kb_in {
      p_tail = advance kb_in_bytes s.keyboard.kb_in.p_tail;
      count = s.keyboard.kb_in.count - 1;
    };
  };
  ports = enable_int ∷ disable_int ∷ s.ports;
}

-- What taking a byte leaves, with `c` more behind it.
take_byte-codes :
    (s : Terminal) (c : ℕ)
    → s.keyboard.kb_in.count ≡ suc c
    → IsKbInput s.keyboard.kb_in
    → (take_byte s ≡ done (s.keyboard.kb_in.buf s.keyboard.kb_in.p_tail) (taken s))
      × IsKbInput (taken s).keyboard.kb_in
      × (codes s.keyboard.kb_in
          ≡ s.keyboard.kb_in.buf s.keyboard.kb_in.p_tail ∷ codes (taken s).keyboard.kb_in)
unfolding take_byte
take_byte-codes s c e v =
    let b = s.keyboard.kb_in in
    let less : b.count - 1 ≡ c = omega arith in
    let w : IsRing kb_in_bytes b.p_head b.p_tail (suc c) = rw e at v in
    (refl, rw less (IsRing-pop kb_in_bytes b.p_head b.p_tail c w), rw (less, e) refl)

-- The oldest key leaves a terminal.
pub without_key-keys :
    (r : Tty) (key : ℕ) (rest : List ℕ)
    → IsTty r
    → keys r ≡ key ∷ rest
    → ((r.inbuf_count == 0) ≡ false)
      × (r.in_buf r.p_inbuf_tail ≡ key)
      × (keys (without_key r) ≡ rest)
      × IsTty (without_key r)
without_key-keys r key rest v e = elim (ℕ_discrete r.inbuf_count 0) [
  | yes empty ↦ let nothing : keys r ≡ [] = rw empty refl in absurd (ground (arith, nothing))
  | no more ↦
      let c = r.inbuf_count - 1 in
      let count : r.inbuf_count ≡ suc c = omega arith in
      let w : IsRing tty_in_bytes r.p_inbuf_head r.p_inbuf_tail (suc c) = rw count at v in
      let front : keys r
          ≡ r.in_buf r.p_inbuf_tail
            ∷ contents r.in_buf tty_in_bytes (advance tty_in_bytes r.p_inbuf_tail) c =
        ap (contents r.in_buf tty_in_bytes r.p_inbuf_tail) count in
      (
        ground arith,
        ground (arith, front),
        ground (arith, front),
        IsRing-pop tty_in_bytes r.p_inbuf_head r.p_inbuf_tail c w,
      )
]

-- get_byte_from_kbuf takes the oldest scan code off the buffer; if the buffer is empty, it waits
-- for the next interrupt of the keyboard and takes what that brings.
pub get_byte_from_kbuf-oldest :
    (s : Terminal) (code : ℕ) (rest : List ℕ)
    → IsKbInput s.keyboard.kb_in
    → codes s.keyboard.kb_in ++ s.scan_codes ≡ code ∷ rest
    → (s' : Terminal) × (get_byte_from_kbuf s ≡ done code s')
      × (codes s'.keyboard.kb_in ++ s'.scan_codes ≡ rest)
      × IsKbInput s'.keyboard.kb_in
      × (s'.tty_table ≡ s.tty_table)
unfolding get_byte_from_kbuf
get_byte_from_kbuf-oldest s code rest v e = elim (ℕ_discrete s.keyboard.kb_in.count 0) [
  | no more ↦
      let (run, ring, front) = take_byte-codes s (s.keyboard.kb_in.count - 1) (omega arith) v in
      (
        taken s,
        >>=-done (await_byte s.scan_codes) (λ _. take_byte)
              (await_byte-ready s.scan_codes s (ground arith))
            ∙ run
            ∙ ap (λ c. done c (taken s)) (ground (arith, front)),
        ground (arith, front),
        ring,
        refl,
      )
  | yes empty ↦
      let b = s.keyboard.kb_in in
      let nothing : codes b ≡ [] = rw empty refl in
      let next : s.scan_codes ≡ code ∷ rest = ground (arith, nothing) in
      let s1 = interrupted s code rest in
      let ring1 : IsKbInput s1.keyboard.kb_in =
        ground (arith, IsRing-push kb_in_bytes b.p_head b.p_tail b.count v (omega arith)) in
      let (run, ring, front) = take_byte-codes s1 0 (ground arith) ring1 in
      let got : codes s1.keyboard.kb_in ≡ code ∷ [] = ground (arith, v.gap, v.head_in, v.tail_in) in
      let wait : await_byte s.scan_codes s ≡ done tt s1 =
        ap (λ cs. await_byte cs s) next ∙ await_byte-empty code rest s empty in
      (
        taken s1,
        >>=-done (await_byte s.scan_codes) (λ _. take_byte) wait
            ∙ run
            ∙ ap (λ c. done c (taken s1)) (ground (arith, front, got)),
        ground (arith, front, got),
        ring,
        refl,
      )
]
