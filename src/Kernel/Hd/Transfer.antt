-- ===== src/Kernel/Hd/Transfer.antt =====
-- The loop of hd_rdwt of kernel/hd.c moves sector after sector.

use dlos.Prelude.{
  ℕ, zero, suc, ◌+◌, ◌-◌, ◌*◌, ◌≤◌, ◌<◌, ◌≡◌, refl, sym, inl, inr, Bool-cases, subst, Bool, true,
  false, not, ◌&&◌, ◌||◌, ltb, leb, ◌==◌, if◌then◌else◌, min, arith, ap, ◌∙◌,
}
use dlos.Const.{sector_size}
use dlos.Kernel.Proc.{done, endless, pure, ◌>>◌, halt, >>=-done}
use dlos.Fs.State.{copied}
use dlos.Kernel.Hd.{Hd, port_read_hdbuf, transfer, transfers}

-- What a transfer of `n` bytes at `pos` of the disk and `la` of memory makes of the two.
abbrev pub memory_after : Bool → Hd → ℕ → ℕ → ℕ → ℕ → ℕ
memory_after reads s pos la n a = if reads then copied s.disk pos s.memory la n a else s.memory a

abbrev pub disk_after : Bool → Hd → ℕ → ℕ → ℕ → ℕ → ℕ
disk_after reads s pos la n a = if reads then s.disk a else copied s.memory la s.disk pos n a

pub record Moved (s s' : Hd) (reads : Bool) (pos la n : ℕ) : Type 0 where
  pub memory : (a : ℕ) → s'.memory a ≡ memory_after reads s pos la n a
  pub disk : (a : ℕ) → s'.disk a ≡ disk_after reads s pos la n a

-- The state behind a read of the data port.
abbrev pub port_read : Hd → Hd
port_read s = record s {
  hdbuf = copied s.disk (s.selected * sector_size) s.hdbuf 0 sector_size;
  selected = s.selected + 1;
  left = s.left - 1;
}

pub port_read_hdbuf-done : (s : Hd) → 1 ≤ s.left → port_read_hdbuf s ≡ done tt (port_read s)
unfolding port_read_hdbuf
port_read_hdbuf-done s some_left = let test : (s.left == 0) ≡ false = ground arith in rw test refl

-- One sector.
transfer-Moved :
    (s : Hd) (reads : Bool) (la : ℕ)
    → s.responds ≡ true
    → 1 ≤ s.left
    → (s' : Hd) × (transfer reads la sector_size s ≡ done tt s')
      × Moved s s' reads (s.selected * sector_size) la sector_size
      × (s'.selected ≡ s.selected + 1)
      × (s'.left ≡ s.left - 1)
      × (s'.responds ≡ true)
unfolding transfer
transfer-Moved s true la ready some_left = (
  record (port_read s) { memory = copied (port_read s).hdbuf 0 s.memory la sector_size },
  >>=-done port_read_hdbuf _ (port_read_hdbuf-done s some_left),
  record { memory = λ a. ground arith; disk = λ a. refl },
  refl,
  refl,
  ready,
)
transfer-Moved s false la ready some_left =
    let test : (not s.responds || s.left == 0) ≡ false = ground (arith, ready) in
    (
      record s {
        disk = copied s.memory la s.disk (s.selected * sector_size) sector_size;
        selected = s.selected + 1;
        left = s.left - 1;
      },
      rw test refl,
      record { memory = λ a. refl; disk = λ a. refl },
      refl,
      refl,
      ready,
    )

-- Two runs of bytes, one behind the other.
copied_twice :
    (source target : ℕ → ℕ) (from to m n a : ℕ)
    → copied source (from + m) (copied source from target to m) (to + m) n a
      ≡ copied source from target to (m + n) a
copied_twice source target from to m n a =
    elim (Bool-cases (leb (to + m) a && ltb a (to + m + n))) [
      | inl later ↦
          let behind : to + m ≤ a = ground arith in
          let same : source (from + m + (a - (to + m))) ≡ source (from + (a - to)) =
            ap source (omega (arith, behind)) in
          ground (arith, same)
      | inr other ↦ ground arith
    ]

copied-same :
    (f g h k : ℕ → ℕ) (from to n a : ℕ)
    → ((x : ℕ) → f x ≡ g x)
    → ((x : ℕ) → h x ≡ k x)
    → copied f from h to n a ≡ copied g from k to n a
copied-same f g h k from to n a p q = elim (Bool-cases (leb to a && ltb a (to + n))) [
  | inl inside ↦ rw inside (p (from + (a - to)))
  | inr outside ↦ rw outside (q a)
]

Moved-trans :
    (s s1 s2 : Hd) (reads : Bool) (pos la n : ℕ)
    → Moved s s1 reads pos la sector_size
    → Moved s1 s2 reads (pos + sector_size) (la + sector_size) n
    → Moved s s2 reads pos la (sector_size + n)
Moved-trans s s1 s2 true pos la n d e = record {
  memory = λ a.
      e.memory a
      ∙ copied-same s1.disk s.disk s1.memory (copied s.disk pos s.memory la sector_size)
          (pos + sector_size) (la + sector_size) n a d.disk d.memory
      ∙ copied_twice s.disk s.memory pos la sector_size n a;
  disk = λ a. e.disk a ∙ d.disk a;
}
Moved-trans s s1 s2 false pos la n d e = record {
  memory = λ a. e.memory a ∙ d.memory a;
  disk = λ a.
      e.disk a
      ∙ copied-same s1.memory s.memory s1.disk (copied s.memory la s.disk pos sector_size)
          (la + sector_size) (pos + sector_size) n a d.memory d.disk
      ∙ copied_twice s.memory s.disk la pos sector_size n a;
}

-- A round with at least a sector left.
transfers-round :
    (fuel : ℕ) (reads : Bool) (la rest : ℕ) (s : Hd)
    → transfers (suc fuel) reads la (sector_size + rest) s
      ≡ (transfer reads la sector_size >> transfers fuel reads (la + sector_size) rest) s
unfolding transfers
transfers-round fuel reads la rest s =
    let b = sector_size + rest in
    let some_left : (b == 0) ≡ false = ground arith in
    let size : min sector_size b ≡ sector_size = omega arith in
    let whole : ltb b sector_size ≡ false = ground arith in
    let less : b - sector_size ≡ rest = omega arith in
    let next = transfers fuel reads (la + sector_size) in
    ap
      (λ x.
        (if x
            then pure tt
            else (transfer reads la (min sector_size b)
                >> (if ltb b sector_size then halt endless else next (b - sector_size))))
          s)
      some_left
    ∙ ap
        (λ z.
          (transfer reads la z
              >> (if ltb b sector_size then halt endless else next (b - sector_size)))
            s)
        size
    ∙ ap
        (λ x.
          (transfer reads la sector_size >> (if x then halt endless else next (b - sector_size))) s)
        whole
    ∙ ap (λ z. (transfer reads la sector_size >> next z) s) less

pub transfers-Moved :
    (n fuel : ℕ) (s : Hd) (reads : Bool) (la : ℕ)
    → n < fuel
    → n ≤ s.left
    → s.responds ≡ true
    → (s' : Hd) × (transfers fuel reads la (n * sector_size) s ≡ done tt s')
      × Moved s s' reads (s.selected * sector_size) la (n * sector_size)
unfolding transfers
transfers-Moved n zero s reads la f l ready = absurd (omega arith)
transfers-Moved zero (suc fuel) s reads la f l ready = (s, refl, nothing reads)
  where
    nothing : (reads : Bool) → Moved s s reads (s.selected * sector_size) la 0
    nothing true = record { memory = λ a. ground arith; disk = λ a. refl }
    nothing false = record { memory = λ a. refl; disk = λ a. ground arith }
transfers-Moved (suc n) (suc fuel) s reads la f l ready =
    let (s1, run, d, at, left, ready1) = transfer-Moved s reads la ready (omega arith) in
    let pos = s.selected * sector_size in
    let (s2, run2, e) =
      transfers-Moved n fuel s1 reads (la + sector_size) (omega arith) (omega (arith, left))
        ready1 in
    let next : s1.selected * sector_size ≡ pos + sector_size = omega (arith, at) in
    let all : suc n * sector_size ≡ sector_size + n * sector_size = omega arith in
    (
      s2,
      ap (λ b. transfers (suc fuel) reads la b s) all
          ∙ transfers-round fuel reads la (n * sector_size) s
          ∙ >>=-done (transfer reads la sector_size)
              (λ _. transfers fuel reads (la + sector_size) (n * sector_size)) run
          ∙ run2,
      subst (Moved s s2 reads pos la) (sym all) (
          Moved-trans s s1 s2 reads pos la (n * sector_size) d
            (subst (λ x. Moved s1 s2 reads x (la + sector_size) (n * sector_size)) next e)),
    )
