-- ===== src/Fs/Mkfs/Made.antt =====
-- What mkfs of fs/main.c leaves in the sectors of the super block and of the first inodes.
use dlos.Prelude.{
  ℕ, ◌+◌, ◌-◌, ◌*◌, ◌^◌, ◌≤◌, ◌<◌, ◌≡◌, ◌≢◌, ◌⊎◌, inl, inr, refl, List, [], ◌∷◌, arith, ◌∙◌,
}
use dlos.Const.{sector_size, task_hd, task_fs, dev_ioctl}
use dlos.Kernel.Proc.{done, reset_msg, >>=-done}
use dlos.Libc.Print.{i2a, action, converted, format_loop, vsprintf}
use dlos.Fs.State.{SuperBlock, Fs, fsbuf, i_directory, i_char_special}
use dlos.Fs.Path.{dir_entry_size}
use dlos.Fs.Files.{nr_default_file_sects}
use dlos.Fs.Mkfs.{
  root_dev, filled, make_super_block, make_imap, make_smap, new_inode_at, make_inodes, new_entry_at,
  tty_entry, make_root, set_bits, set_bytes, new_super_block, mkfs,
}
use dlos.Fs.Mkfs.Sectors.{
  Kept, Kept-trans, written, written-Kept, written-sector, super_buffer, make_super_block-run,
  imap_buffer, make_imap-run, clear_smap-Kept,
}

make_smap-Kept :
    (k : ℕ) (sb : SuperBlock) (s : Fs)
    → 2 + sb.nr_imap_sects + sb.nr_smap_sects < 2 ^ 23
    → 1 ≤ sb.nr_smap_sects
    → (k < 2 + sb.nr_imap_sects) ⊎ (2 + sb.nr_imap_sects + sb.nr_smap_sects ≤ k)
    → (s' : Fs) × (make_smap sb s ≡ done tt s') × Kept s s' k
unfolding make_smap
make_smap-Kept k sb s h some_sects out =
    let sect = 2 + sb.nr_imap_sects in
    let m = set_bits 1 0 256 (set_bytes 256 0 (filled 0 s.memory)) in
    let s1 = written s m sect in
    let s2 : Fs = record s1 { memory = filled 0 m } in
    let (s3, run, d) =
      clear_smap-Kept (sb.nr_smap_sects - 1) 1 k sb s2 (omega arith) (around out) in
    (
      s3,
      run,
      Kept-trans (written-Kept s m sect k (omega arith) (apart out))
          (record { sector = d.sector; supers = d.supers; inodes = d.inodes }),
    )
  where
    around :
        (k < 2 + sb.nr_imap_sects) ⊎ (2 + sb.nr_imap_sects + sb.nr_smap_sects ≤ k)
        → (k < 2 + sb.nr_imap_sects + 1) ⊎ (2 + sb.nr_imap_sects + 1 + (sb.nr_smap_sects - 1) ≤ k)
    around (inl l) = inl (omega arith)
    around (inr l) = inr (omega arith)

    apart :
        (k < 2 + sb.nr_imap_sects) ⊎ (2 + sb.nr_imap_sects + sb.nr_smap_sects ≤ k)
        → k ≢ 2 + sb.nr_imap_sects
    apart (inl l) = omega arith
    apart (inr l) = omega arith

-- The first sector of inodes, as mkfs writes it.
abbrev pub inodes_buffer : SuperBlock → (ℕ → ℕ) → ℕ → ℕ
inodes_buffer sb m = new_inode_at 3 i_char_special 0 0x402 0 (
    new_inode_at 2 i_char_special 0 0x401 0 (
      new_inode_at 1 i_char_special 0 0x400 0 (
        new_inode_at 0 i_directory (dir_entry_size * 4) sb.n_1st_sect nr_default_file_sects
          (filled 0 m))))

make_inodes-run :
    (sb : SuperBlock) (s : Fs)
    → make_inodes sb s
      ≡ done tt (written s (inodes_buffer sb s.memory) (2 + sb.nr_imap_sects + sb.nr_smap_sects))
unfolding make_inodes
make_inodes-run sb s = refl

abbrev tty_name : ℕ → List ℕ
tty_name c = 100 ∷ 101 ∷ 118 ∷ 95 ∷ 116 ∷ 116 ∷ 121 ∷ c ∷ []

-- The first sector of the root directory.
abbrev root_buffer : (ℕ → ℕ) → ℕ → ℕ
root_buffer m = new_entry_at 3 4 (tty_name 50) (
    new_entry_at 2 3 (tty_name 49)
      (new_entry_at 1 2 (tty_name 48) (new_entry_at 0 1 (46 ∷ []) (filled 0 m))))

make_root-run :
    (sb : SuperBlock) (s : Fs)
    → make_root sb s ≡ done tt (written s (root_buffer s.memory) sb.n_1st_sect)
unfolding make_root tty_entry vsprintf format_loop action converted i2a
make_root-run sb s = refl

pub record Made (sb : SuperBlock) (s s' : Fs) : Type 0 where
  pub super :
      (i : ℕ)
      → i < sector_size
      → s'.disk root_dev (1 * sector_size + i) ≡ super_buffer sb s.memory (fsbuf + i)
  pub buffer : ℕ → ℕ
  pub inode :
      (i : ℕ)
      → i < sector_size
      → s'.disk root_dev ((2 + sb.nr_imap_sects + sb.nr_smap_sects) * sector_size + i)
        ≡ inodes_buffer sb buffer (fsbuf + i)
  pub supers : s'.super_block ≡ s.super_block
  pub inodes : s'.inode_table ≡ s.inode_table

-- mkfs for a device of less than 2 ^ 32 sectors.
pub mkfs-Made :
    (size : ℕ) (s : Fs)
    → size < 2 ^ 32
    → (s' : Fs) × (mkfs size s ≡ done tt s') × Made (new_super_block size) s s'
unfolding mkfs new_super_block
mkfs-Made size s small =
    let sb = new_super_block size in
    let s0 : Fs = record s {
      outbox =
          (task_hd, record reset_msg { type = dev_ioctl; m3i4 = 0x20; m3i2 = 1; m3i3 = task_fs })
          ∷ s.outbox;
    } in
    let first_inode = 2 + sb.nr_imap_sects + sb.nr_smap_sects in
    let s1 = written s0 (super_buffer sb s.memory) 1 in
    let s2 = written s1 (imap_buffer s1.memory) 2 in
    let (s3, run3, kept3) =
      make_smap-Kept 1 sb s2 (omega arith) (omega arith) (inl (omega arith)) in
    let s4 = written s3 (inodes_buffer sb s3.memory) first_inode in
    let s5 = written s4 (root_buffer s4.memory) sb.n_1st_sect in
    let kept =
      Kept-trans (written-Kept s1 (imap_buffer s1.memory) 2 1 (omega arith) (omega arith)) (
        Kept-trans kept3 (
          Kept-trans
            (written-Kept s3 (inodes_buffer sb s3.memory) first_inode 1 (omega arith) (omega arith))
            (written-Kept s4 (root_buffer s4.memory) sb.n_1st_sect 1 (omega arith)
              (omega arith)))) in
    let last =
      written-Kept s4 (root_buffer s4.memory) sb.n_1st_sect first_inode (omega arith)
        (omega arith) in
    (
      s5,
      >>=-done (make_super_block sb) _ (make_super_block-run sb s0)
          ∙ >>=-done make_imap _ (make_imap-run s1)
          ∙ >>=-done (make_smap sb) _ run3
          ∙ >>=-done (make_inodes sb) _ (make_inodes-run sb s3)
          ∙ make_root-run sb s4,
      record {
        super = λ i h.
            kept.sector i h ∙ written-sector s0 (super_buffer sb s.memory) 1 i (omega arith) h;
        buffer = s3.memory;
        inode = λ i h.
            last.sector i h
            ∙ written-sector s3 (inodes_buffer sb s3.memory) first_inode i (omega arith) h;
        supers = kept.supers;
        inodes = kept.inodes;
      },
    )
