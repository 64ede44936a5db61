-- ===== src/Kernel/Proc.antt =====
-- The state of the kernel's message system: struct proc and struct descriptor (include/sys/proc.h,
-- include/sys/protect.h), MESSAGE (include/type.h), the globals of include/sys/global.h that
-- kernel/proc.c and kernel/clock.c use, and the way a kernel function ends.
use dlos.Prelude.{ℕ, Bool, true, false, not, ◌&&◌, ◌||◌, Option, List, ◌≡◌, ap}

-- struct descriptor: the parts of a segment descriptor.
pub record Descriptor : Type 0 where
  pub limit_low : ℕ
  pub base_low : ℕ
  pub base_mid : ℕ
  pub attr1 : ℕ
  pub limit_high_attr2 : ℕ
  pub base_high : ℕ

-- `p_flags`, one field for each bit that const.h names. No other bit is ever set.
pub record Flags : Type 0 where
  pub sending : Bool
  pub receiving : Bool
  pub waiting : Bool
  pub hanging : Bool
  pub free_slot : Bool

abbrev pub no_flags : Flags
no_flags = record {
  sending = false;
  receiving = false;
  waiting = false;
  hanging = false;
  free_slot = false;
}

-- `p_flags == 0`
abbrev pub is_clear : Flags → Bool
is_clear f = not (f.sending || f.receiving || f.waiting || f.hanging || f.free_slot)

-- `p_flags == SENDING`
abbrev pub is_sending : Flags → Bool
is_sending f = f.sending && not (f.receiving || f.waiting || f.hanging || f.free_slot)

-- `p_flags == RECEIVING`
abbrev pub is_receiving : Flags → Bool
is_receiving f = f.receiving && not (f.sending || f.waiting || f.hanging || f.free_slot)

-- `p_flags == FREE_SLOT`
abbrev pub is_free_slot : Flags → Bool
is_free_slot f = f.free_slot && not (f.sending || f.receiving || f.waiting || f.hanging)

-- struct proc. A pointer to a process is its index in proc_table (`none` if null), a pointer to a
-- message its address (0 if null). The saved registers, which no modelled function reads,
-- are left out.
pub record Proc : Type 0 where
  pub ldt_sel : ℕ
  pub ldt_c : Descriptor
  pub ldt_rw : Descriptor
  pub ticks : ℕ
  pub priority : ℕ
  pub name : List ℕ
  pub p_flags : Flags
  pub p_msg : ℕ
  pub p_recvfrom : ℕ
  pub p_sendto : ℕ
  pub has_int_msg : Bool
  pub q_sending : Option ℕ
  pub next_sending : Option ℕ
  pub nr_tty : ℕ
  pub p_parent : ℕ
  pub filp : ℕ → Option ℕ

-- MESSAGE, with the union read as its member `m3`.
pub record Message : Type 0 where
  pub source : ℕ
  pub type : ℕ
  pub m3i1 : ℕ
  pub m3i2 : ℕ
  pub m3i3 : ℕ
  pub m3i4 : ℕ
  pub m3l1 : ℕ
  pub m3p1 : ℕ
  pub m3p2 : ℕ

-- What memset(m, 0, sizeof(MESSAGE)) leaves, as reset_msg does.
abbrev pub reset_msg : Message
reset_msg = record {
  source = 0;
  type = 0;
  m3i1 = 0;
  m3i2 = 0;
  m3i3 = 0;
  m3i4 = 0;
  m3l1 = 0;
  m3p1 = 0;
  m3p2 = 0;
}

abbrev pub Table : Type 0
Table = ℕ → Proc

-- The globals. `mail` is the memory that holds messages, by linear address: two message buffers
-- are the same or apart. An index past proc_table reads what lies behind it, which is any value.
pub record Kernel : Type 0 where
  pub proc_table : Table
  pub p_proc_ready : ℕ
  pub mail : ℕ → Message
  pub k_reenter : ℕ
  pub ticks : ℕ
  pub key_pressed : Bool

-- How a kernel function fails to return: a failed assert, with its line, which spins for ever; a
-- panic; or a loop that nothing in the state ends, but for an interrupt.
pub data Stop : Type 0 where
  assertion : ℕ → Stop
  panic : Stop
  endless : Stop

pub data Run {ℓ} (S A : Type ℓ) : Type ℓ where
  done : A → S → Run S A
  stop : Stop → Run S A

-- Code that reads and writes a state `S`.
abbrev pub Code : Type 0 → Type 0 → Type 0
Code S A = S → Run S A

module _ {S : Type 0} where
  abbrev pub pure : {A : Type 0} → A → Code S A
  pure a k = done a k

  infixl 5 ◌>>=◌ ◌>>◌
  abbrev pub ◌>>=◌ : {A B : Type 0} → Code S A → (A → Code S B) → Code S B
  ◌>>=◌ m f k = elim (m k) [ done a k' ↦ f a k' | stop e ↦ stop e ]

  abbrev pub ◌>>◌ : {B : Type 0} → Code S (Unit {0}) → Code S B → Code S B
  m >> n = m >>= λ _. n

  abbrev pub halt : {A : Type 0} → Stop → Code S A
  halt e k = stop e

  abbrev pub get : Code S S
  get k = done k k

  abbrev pub modify : (S → S) → Code S (Unit {0})
  modify f k = done tt (f k)

  -- assert(b), on the given line of its file
  abbrev pub assert : ℕ → Bool → Code S (Unit {0})
  assert line true k = done tt k
  assert line false k = stop (assertion line)

-- A chain of steps runs its first step, and then the others.
pub >>=-done :
    {S A B : Type 0} (m : Code S A) (f : A → Code S B) {s s' : S} {a : A}
    → m s ≡ done a s'
    → (m >>= f) s ≡ f a s'
>>=-done m f e = ap (λ r. elim r [ done a k ↦ f a k | stop e ↦ stop e ]) e
