-- ===== src/Fs/Mkfs/Sectors.antt =====
-- The sectors that mkfs of fs/main.c writes, and those that each step keeps.
use dlos.Prelude.{
  ℕ, zero, suc, ◌+◌, ◌-◌, ◌*◌, ◌%◌, ◌^◌, ◌≤◌, ◌<◌, ◌≡◌, ◌≢◌, ◌⊎◌, inl, inr, refl, true, false, ltb,
  leb, ◌&&◌, update, update_self, arith, ap, ◌∙◌,
}
use dlos.Const.{sector_size}
use dlos.Kernel.Proc.{done}
use dlos.Fs.State.{SuperBlock, Fs, fsbuf, copied}
use dlos.Fs.Mkfs.{
  root_dev, super_words, write_words, filled, make_super_block, make_imap, clear_smap, set_bits,
}

-- A step kept sector `n` of the device, and the tables in memory.
pub record Kept (s s' : Fs) (n : ℕ) : Type 0 where
  pub sector :
      (i : ℕ)
      → i < sector_size
      → s'.disk root_dev (n * sector_size + i) ≡ s.disk root_dev (n * sector_size + i)
  pub supers : s'.super_block ≡ s.super_block
  pub inodes : s'.inode_table ≡ s.inode_table

pub Kept-trans : {s s' s'' : Fs} {n : ℕ} → Kept s s' n → Kept s' s'' n → Kept s s'' n
Kept-trans d e = record {
  sector = λ i h. e.sector i h ∙ d.sector i h;
  supers = e.supers ∙ d.supers;
  inodes = e.inodes ∙ d.inodes;
}

-- The sectors of a device of less than 4 GB.
abbrev pub InRange : ℕ → Type 0
InRange n = n < 2 ^ 23

-- The state behind a step that leaves `m` in memory and writes sector `k`.
abbrev pub written : Fs → (ℕ → ℕ) → ℕ → Fs
written s m k = record s {
  memory = m;
  disk =
      update s.disk root_dev
        (copied m fsbuf (s.disk root_dev) (k * sector_size % 2 ^ 32) sector_size);
}

-- A copy into a sector, seen at another sector and at this one.
copied-apart :
    (m d : ℕ → ℕ) (k n i : ℕ)
    → n ≢ k
    → i < sector_size
    → copied m fsbuf d (k * sector_size) sector_size (n * sector_size + i) ≡ d (n * sector_size + i)
copied-apart m d k n i ne h =
    let outside : (leb (k * sector_size) (n * sector_size + i)
          && ltb (n * sector_size + i) (k * sector_size + sector_size))
        ≡ false =
      ground arith in
    rw outside refl

copied-inside :
    (m d : ℕ → ℕ) (k i : ℕ)
    → i < sector_size
    → copied m fsbuf d (k * sector_size) sector_size (k * sector_size + i) ≡ m (fsbuf + i)
copied-inside m d k i h =
    let p = k * sector_size in
    let low : leb p (p + i) ≡ true = ground arith in
    let high : ltb (p + i) (p + sector_size) ≡ true = ground arith in
    let back : p + i - p ≡ i = omega arith in rw low (rw high (ap (λ x. m (fsbuf + x)) back))

-- The device behind a step, at an address.
written-disk :
    (s : Fs) (m : ℕ → ℕ) (k a : ℕ)
    → InRange k
    → (written s m k).disk root_dev a
      ≡ copied m fsbuf (s.disk root_dev) (k * sector_size) sector_size a
written-disk s m k a h =
    let d = s.disk root_dev in
    let pos : k * sector_size % 2 ^ 32 ≡ k * sector_size = omega arith in
    ap (λ f. f a)
      (update_self s.disk root_dev (copied m fsbuf d (k * sector_size % 2 ^ 32) sector_size))
    ∙ ap (λ p. copied m fsbuf d p sector_size a) pos

pub written-Kept : (s : Fs) (m : ℕ → ℕ) (k n : ℕ) → InRange k → n ≢ k → Kept s (written s m k) n
written-Kept s m k n hk ne = record {
  sector = λ i h.
      written-disk s m k (n * sector_size + i) hk ∙ copied-apart m (s.disk root_dev) k n i ne h;
  supers = refl;
  inodes = refl;
}

-- The written sector holds the buffer.
pub written-sector :
    (s : Fs) (m : ℕ → ℕ) (k i : ℕ)
    → InRange k
    → i < sector_size
    → (written s m k).disk root_dev (k * sector_size + i) ≡ m (fsbuf + i)
written-sector s m k i hk h =
    written-disk s m k (k * sector_size + i) hk ∙ copied-inside m (s.disk root_dev) k i h

-- What the buffer holds when mkfs writes its sectors.
abbrev pub super_buffer : SuperBlock → (ℕ → ℕ) → ℕ → ℕ
super_buffer sb m = write_words (super_words sb) fsbuf (filled 0x90 m)

pub make_super_block-run :
    (sb : SuperBlock) (s : Fs)
    → make_super_block sb s ≡ done tt (written s (super_buffer sb s.memory) 1)
unfolding make_super_block
make_super_block-run sb s = refl

abbrev pub imap_buffer : (ℕ → ℕ) → ℕ → ℕ
imap_buffer m = set_bits 5 0 0 (filled 0 m)

pub make_imap-run : (s : Fs) → make_imap s ≡ done tt (written s (imap_buffer s.memory) 2)
unfolding make_imap
make_imap-run s = refl

-- The loop over the sector map keeps the sectors before and behind it.
pub clear_smap-Kept :
    (n i k : ℕ) (sb : SuperBlock) (s : Fs)
    → 2 + sb.nr_imap_sects + i + n < 2 ^ 23
    → (k < 2 + sb.nr_imap_sects + i) ⊎ (2 + sb.nr_imap_sects + i + n ≤ k)
    → (s' : Fs) × (clear_smap n i sb s ≡ done tt s') × Kept s s' k
unfolding clear_smap
clear_smap-Kept zero i k sb s h out =
    (s, refl, record { sector = λ j l. refl; supers = refl; inodes = refl })
clear_smap-Kept (suc n) i k sb s h out =
    let sect = 2 + sb.nr_imap_sects + i in
    let s1 = written s s.memory sect in
    let (s2, run, d) = clear_smap-Kept n (i + 1) k sb s1 (omega arith) (past out) in
    (s2, run, Kept-trans (written-Kept s s.memory sect k (omega arith) (apart out)) d)
  where
    past :
        (k < 2 + sb.nr_imap_sects + i) ⊎ (2 + sb.nr_imap_sects + i + suc n ≤ k)
        → (k < 2 + sb.nr_imap_sects + (i + 1)) ⊎ (2 + sb.nr_imap_sects + (i + 1) + n ≤ k)
    past (inl l) = inl (omega arith)
    past (inr l) = inr (omega arith)

    apart :
        (k < 2 + sb.nr_imap_sects + i) ⊎ (2 + sb.nr_imap_sects + i + suc n ≤ k)
        → k ≢ 2 + sb.nr_imap_sects + i
    apart (inl l) = omega arith
    apart (inr l) = omega arith
