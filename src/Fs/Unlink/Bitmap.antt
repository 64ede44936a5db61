-- ===== src/Fs/Unlink/Bitmap.antt =====
-- fs/link.c clears the bit of the inode map that fs/open.c set.

use dlos.Prelude.{
  ℕ, zero, suc, inl, inr, ◌≢◌, ◌+◌, ◌*◌, ◌/◌, ◌%◌, ◌<◌, ◌≡◌, refl, sym, Bool, true, false, some,
  ltb, ◌&&◌, ◌||◌, ◌==◌, if◌then◌else◌, update, update_self, ℕ_discrete, arith, ap, ◌∙◌,
}
use dlos.Const.{sector_size}
use dlos.Kernel.Proc.{done, assert, ◌>>◌}
use dlos.Fs.State.{Fs, nr_super_block, fsbuf, copied, wr_sect}
use dlos.Fs.Inode.{find_super_block}
use dlos.Fs.Alloc.{bit_of, set_bit, alloc_imap_bit}
use dlos.Fs.Alloc.Imap.{written_byte, alloc_imap_bit-set}
use dlos.Fs.Unlink.{clear_bit, clear_in_map, set_byte, free_imap_bit}

-- What holds of every bit of every byte, by evaluation.
abbrev all_below : ℕ → (ℕ → Bool) → Bool
all_below zero p = true
all_below (suc n) p = p n && all_below n p

all_below_lem : (n : ℕ) (p : ℕ → Bool) (x : ℕ) → all_below n p ≡ true → x < n → p x ≡ true
all_below_lem zero p x h l = absurd (omega arith)
all_below_lem (suc n) p x h l = ground (arith, all_below_lem n p x)

abbrev checked : ℕ → ℕ → Bool
checked b k = (bit_of (set_bit b k) k == 1) && (bit_of b k == 1 || clear_bit (set_bit b k) k == b)

all_bits : all_below 2048 (λ x. checked (x / 8) (x % 8)) ≡ true
all_bits = refl

both : (x y z b : ℕ) → ((x == 1) && (y == 1 || z == b)) ≡ true → (x ≡ 1) × (y ≡ 0 → z ≡ b)
both x y z b h = (ground (arith, h), λ e. ground (arith, h, e))

set_bit-of :
    (b k : ℕ)
    → b < 256
    → k < 8
    → (bit_of (set_bit b k) k ≡ 1) × (bit_of b k ≡ 0 → clear_bit (set_bit b k) k ≡ b)
set_bit-of b k h l =
    let here =
      all_below_lem 2048 (λ x. checked (x / 8) (x % 8)) (b * 8 + k) all_bits (omega arith) in
    let byte : (b * 8 + k) / 8 ≡ b = omega arith in
    let bit : (b * 8 + k) % 8 ≡ k = omega arith in
    both (bit_of (set_bit b k) k) (bit_of b k) (clear_bit (set_bit b k) k) b
      (sym (ap (λ x. checked x ((b * 8 + k) % 8)) byte ∙ ap (checked b) bit) ∙ here)

-- A bit that is set in the map on the disk is cleared there, and nothing else.
free_imap_bit-cleared :
    (dev j k : ℕ) (s : Fs)
    → j < sector_size
    → k < 8
    → bit_of (s.disk dev (1024 + j)) k ≡ 1
    → (s' : Fs) × (free_imap_bit dev (j * 8 + k) s ≡ done tt s')
      × ((a : ℕ)
          → s'.disk dev a
            ≡ (if a == 1024 + j then clear_bit (s.disk dev (1024 + j)) k else s.disk dev a))
unfolding free_imap_bit clear_in_map
free_imap_bit-cleared dev j k s jh kh is_set =
    let d = s.disk dev in
    let m = copied d 1024 s.memory fsbuf sector_size in
    let byte : (i : ℕ) → i < sector_size → m (fsbuf + i) ≡ d (1024 + i) = λ i h. ground arith in
    let jq : (j * 8 + k) / 8 ≡ j = omega arith in
    let kq : (j * 8 + k) % 8 ≡ k = omega arith in
    let jm : j % sector_size ≡ j = omega arith in
    let v = clear_bit (m (fsbuf + j)) k in
    let s1 : Fs = record s { memory = m } in
    let in_sector : ltb ((j * 8 + k) / 8) sector_size ≡ true = ground arith in
    let test : (bit_of (m (fsbuf + j)) k == 1) ≡ true =
      ap (λ b. bit_of b k == 1) (byte j jh) ∙ ap (λ x. x == 1) is_set in
    let written = copied (update m (fsbuf + j) v) fsbuf d 1024 sector_size in
    (
      record s { memory = update m (fsbuf + j) v; disk = update s.disk dev written },
      ap
            (λ b.
              (assert 56 b >> clear_in_map dev ((j * 8 + k) / 8 % sector_size) ((j * 8 + k) % 8)) s)
            in_sector
          ∙ ap (λ x. clear_in_map dev (x % sector_size) ((j * 8 + k) % 8) s) jq
          ∙ ap (λ x. clear_in_map dev x ((j * 8 + k) % 8) s) jm
          ∙ ap (λ x. clear_in_map dev j x s) kq
          ∙ ap (λ b. (assert 58 b >> (set_byte (fsbuf + j) v >> wr_sect dev 2)) s1) test,
      λ a.
          ap (λ f. f a) (update_self s.disk dev written)
          ∙ written_byte m d a j v jh byte
          ∙ ap (λ b. if a == 1024 + j then clear_bit b k else d a) (byte j jh),
    )

byte_restored :
    (d d' : ℕ → ℕ) (a j k : ℕ)
    → ((b : ℕ) → d b < 256)
    → k < 8
    → bit_of (d (1024 + j)) k ≡ 0
    → ((b : ℕ) → d' b ≡ (if b == 1024 + j then set_bit (d b) k else d b))
    → (if a == 1024 + j then clear_bit (d' (1024 + j)) k else d' a) ≡ d a
byte_restored d d' a j k bytes h free changed =
    let there : d' (1024 + j) ≡ set_bit (d (1024 + j)) k = ground (arith, changed (1024 + j)) in
    let cleared : clear_bit (d' (1024 + j)) k ≡ d (1024 + j) =
      ap (λ b. clear_bit b k) there ∙ (set_bit-of (d (1024 + j)) k (bytes (1024 + j)) h).1 free in
    elim (ℕ_discrete a (1024 + j)) [
      | yes here ↦
          let test : (a == 1024 + j) ≡ true = ground (arith, here) in
          rw test (cleared ∙ ap d (sym here))
      | no other ↦
          let test : (a == 1024 + j) ≡ false = ground (arith, other) in
          rw test (changed a ∙ ap (λ b. if b then set_bit (d a) k else d a) test)
    ]

-- An inode number is taken from the map and given back, on a device with a super block and an inode map
-- in whose first sector a bit is free: both operations return, and the disk of the device is as
-- it was before them.
pub alloc_imap_bit-free_imap_bit :
    (dev i c : ℕ) (s : Fs)
    → find_super_block nr_super_block 0 dev s.super_block ≡ some i
    → (s.super_block i).nr_imap_sects ≢ 0
    → ((a : ℕ) → s.disk dev a < 256)
    → c < sector_size
    → s.disk dev (1024 + c) ≢ 255
    → (nr : ℕ) × (s' s'' : Fs) × (alloc_imap_bit dev s ≡ done nr s')
      × (free_imap_bit dev nr s' ≡ done tt s'')
      × ((a : ℕ) → s''.disk dev a ≡ s.disk dev a)
alloc_imap_bit-free_imap_bit dev i c s e maps bytes ch not_full =
    let (s1, taken) = alloc_imap_bit-set dev i s e maps bytes in
    elim taken [
      | inl (run, is_full, same) ↦ absurd (not_full (is_full c ch))
      | inr (j, k, jh, kh, free, run, changed) ↦
          let there : s1.disk dev (1024 + j) ≡ set_bit (s.disk dev (1024 + j)) k =
            ground (arith, changed (1024 + j)) in
          let is_set =
            ap (λ b. bit_of b k) there
            ∙ (set_bit-of (s.disk dev (1024 + j)) k (bytes (1024 + j)) kh).0 in
          let (s2, run2, cleared) = free_imap_bit-cleared dev j k s1 jh kh is_set in
          (
            j * 8 + k,
            s1,
            s2,
            run,
            run2,
            λ a. cleared a ∙ byte_restored (s.disk dev) (s1.disk dev) a j k bytes kh free changed,
          )
    ]
