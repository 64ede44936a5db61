-- ===== src/Fs/Alloc/Imap.antt =====
-- alloc_imap_bit of fs/open.c: which bit of the inode map it takes.
use dlos.Prelude.{
  ℕ, zero, suc, inl, inr, ◌≢◌, ◌⊎◌, ◌+◌, ◌-◌, ◌*◌, ◌≤◌, ◌<◌, ◌≡◌, refl, sym, true, false, none,
  some, ltb, leb, ◌&&◌, ◌==◌, if◌then◌else◌, update, update_self, ℕ_discrete, Bool-cases, arith, ap,
  ◌∙◌,
}
use dlos.Const.{sector_size}
use dlos.Kernel.Proc.{done, >>=-done}
use dlos.Fs.State.{Fs, nr_super_block, fsbuf, copied}
use dlos.Fs.Inode.{find_super_block, get_super_block}
use dlos.Fs.Inode.Sync.{get_super_block_run}
use dlos.Fs.Alloc.{bit_of, zero_bit, set_bit, free_byte, take_inode, alloc_imap_bit}

zero_bit_from :
    (fuel b k k' : ℕ)
    → k ≤ k'
    → k' < k + fuel
    → bit_of b k' ≡ 0
    → (zero_bit fuel b k < k + fuel) × (bit_of b (zero_bit fuel b k) ≡ 0)
unfolding zero_bit
zero_bit_from zero b k k' l h z = absurd (omega arith)
zero_bit_from (suc fuel) b k k' l h z = elim (ℕ_discrete (bit_of b k) 0) [
  | yes here ↦ let test : (bit_of b k == 0) ≡ true = rw here refl in rw test (omega arith, here)
  | no other ↦
      let test : (bit_of b k == 0) ≡ false = not_zero (bit_of b k) other in
      let ne : k ≢ k' = λ e. other (ap (bit_of b) e ∙ z) in
      let (bound, zero_there) = zero_bit_from fuel b (k + 1) k' (omega arith) (omega arith) z in
      rw test (omega arith, zero_there)
]
  where
    not_zero : (x : ℕ) → x ≢ 0 → (x == 0) ≡ false
    not_zero x n = ground arith

has_zero_bit : (b : ℕ) → b < 256 → b ≢ 255 → (k : ℕ) × (k < 8) × (bit_of b k ≡ 0)
has_zero_bit b h n = elim (ℕ_discrete (bit_of b 0) 0) [
  | yes z0 ↦ (0, omega arith, z0)
  | no n0 ↦ elim (ℕ_discrete (bit_of b 1) 0) [
    | yes z1 ↦ (1, omega arith, z1)
    | no n1 ↦ elim (ℕ_discrete (bit_of b 2) 0) [
      | yes z2 ↦ (2, omega arith, z2)
      | no n2 ↦ elim (ℕ_discrete (bit_of b 3) 0) [
        | yes z3 ↦ (3, omega arith, z3)
        | no n3 ↦ elim (ℕ_discrete (bit_of b 4) 0) [
          | yes z4 ↦ (4, omega arith, z4)
          | no n4 ↦ elim (ℕ_discrete (bit_of b 5) 0) [
            | yes z5 ↦ (5, omega arith, z5)
            | no n5 ↦ elim (ℕ_discrete (bit_of b 6) 0) [
              | yes z6 ↦ (6, omega arith, z6)
              | no n6 ↦ elim (ℕ_discrete (bit_of b 7) 0) [
                | yes z7 ↦ (7, omega arith, z7)
                | no n7 ↦ absurd (omega arith)
              ]
            ]
          ]
        ]
      ]
    ]
  ]
]

-- Of a byte that is not full, zero_bit finds a bit that is 0.
pub zero_bit_lem :
    (b : ℕ) → b < 256 → b ≢ 255 → (zero_bit 8 b 0 < 8) × (bit_of b (zero_bit 8 b 0) ≡ 0)
zero_bit_lem b h n =
    let (k, k_in, z) = has_zero_bit b h n in zero_bit_from 8 b 0 k (omega arith) (omega arith) z

free_byte_lem :
    (n j : ℕ) (m : ℕ → ℕ)
    → ((free_byte n j m ≡ none) × ((i : ℕ) → j ≤ i → i < j + n → m (fsbuf + i) ≡ 255))
      ⊎ ((i : ℕ) × (free_byte n j m ≡ some i) × (i < j + n) × (m (fsbuf + i) ≢ 255))
unfolding free_byte
free_byte_lem zero j m = inl (refl, λ i l h. absurd (omega arith))
free_byte_lem (suc n) j m = elim (ℕ_discrete (m (fsbuf + j)) 255) [
  | yes is_full ↦ elim (free_byte_lem n (j + 1) m) [
    | inl (e, all) ↦ inl (
      ground (arith, e),
      λ i l h. elim (ℕ_discrete i j) [
        | yes here ↦ rw here is_full
        | no there ↦ all i (omega arith) (omega arith)
      ],
    )
    | inr (i, e, h, n') ↦ inr (i, ground (arith, e), omega arith, n')
  ]
  | no more ↦ inr (j, ground arith, omega arith, more)
]

-- The sector on the disk, once the byte `j` of the buffer was changed.
pub written_byte :
    (m d : ℕ → ℕ) (a j v : ℕ)
    → j < sector_size
    → ((i : ℕ) → i < sector_size → m (fsbuf + i) ≡ d (1024 + i))
    → copied (update m (fsbuf + j) v) fsbuf d 1024 sector_size a
      ≡ (if a == 1024 + j then v else d a)
written_byte m d a j v h byte =
    let back : (1024 ≤ a) → 1024 + (a - 1024) ≡ a = λ l. omega arith in
    elim (Bool-cases (leb 1024 a && ltb a (1024 + sector_size))) [
      | inl y ↦
          let same = byte (a - 1024) (ground arith) ∙ ap d (back (ground arith)) in
          ground (arith, same)
      | inr n ↦ ground arith
    ]

by_old :
    (m d : ℕ → ℕ) (a j k : ℕ)
    → m (fsbuf + j) ≡ d (1024 + j)
    → (if a == 1024 + j then set_bit (m (fsbuf + j)) k else d a)
      ≡ (if a == 1024 + j then set_bit (d a) k else d a)
by_old m d a j k e = elim (ℕ_discrete a (1024 + j)) [
  | yes here ↦ rw here (ap (λ b. if 1024 + j == 1024 + j then set_bit b k else d (1024 + j)) e)
  | no there ↦ ground arith
]

-- alloc_imap_bit on a device with a super block and an inode map. If the first sector of the map is
-- full it returns 0 and leaves the disk as it is. Otherwise it returns the number of an inode whose
-- bit in that sector is 0, and on the disk the byte of this bit, and no other, gets the bit.
pub alloc_imap_bit-set :
    (dev i : ℕ) (s : Fs)
    → find_super_block nr_super_block 0 dev s.super_block ≡ some i
    → (s.super_block i).nr_imap_sects ≢ 0
    → ((a : ℕ) → s.disk dev a < 256)
    → (s' : Fs) × (((alloc_imap_bit dev s ≡ done 0 s')
          × ((j : ℕ) → j < sector_size → s.disk dev (1024 + j) ≡ 255)
          × (s'.disk ≡ s.disk))
        ⊎ ((j : ℕ) × (k : ℕ) × (j < sector_size)
            × (k < 8)
            × (bit_of (s.disk dev (1024 + j)) k ≡ 0)
            × (alloc_imap_bit dev s ≡ done (j * 8 + k) s')
            × ((a : ℕ)
                → s'.disk dev a
                  ≡ (if a == 1024 + j then set_bit (s.disk dev a) k else s.disk dev a))))
unfolding alloc_imap_bit take_inode
alloc_imap_bit-set dev i s e maps bytes =
    let m = copied (s.disk dev) 1024 s.memory fsbuf sector_size in
    let s1 : Fs = record s { memory = m } in
    let test : ((s.super_block i).nr_imap_sects == 0) ≡ false = ground arith in
    let byte : (j : ℕ) → j < sector_size → m (fsbuf + j) ≡ s.disk dev (1024 + j) =
      λ j h. ground arith in
    let start : alloc_imap_bit dev s ≡ take_inode dev (free_byte sector_size 0 m) s1 =
      >>=-done (get_super_block dev) _ (get_super_block_run dev i s e) ∙ rw test refl in
    elim (free_byte_lem sector_size 0 m) [
      | inl (none_free, all) ↦ (
        s1,
        inl (
          start ∙ ap (λ o. take_inode dev o s1) none_free,
          λ j h. sym (byte j h) ∙ all j (omega arith) (omega arith),
          refl,
        ),
      )
      | inr (j, free, h, n) ↦
          let old = byte j (omega arith) in
          let (k_in, k_zero) =
            zero_bit_lem (m (fsbuf + j)) (omega (arith, old, bytes (1024 + j))) n in
          let k = zero_bit 8 (m (fsbuf + j)) 0 in
          let v = set_bit (m (fsbuf + j)) k in
          let written = copied (update m (fsbuf + j) v) fsbuf (s.disk dev) 1024 sector_size in
          (
            record s1 { memory = update m (fsbuf + j) v; disk = update s.disk dev written },
            inr (
              j,
              k,
              omega arith,
              k_in,
              ap (λ b. bit_of b k) (sym old) ∙ k_zero,
              start ∙ ap (λ o. take_inode dev o s1) free,
              λ a.
                  ap (λ d. d a) (update_self s.disk dev written)
                  ∙ written_byte m (s.disk dev) a j v (omega arith) byte
                  ∙ by_old m (s.disk dev) a j k old,
            ),
          )
    ]
