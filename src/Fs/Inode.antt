-- ===== src/Fs/Inode.antt =====
-- The inodes of fs/main.c: the super block of a device, and the table of the inodes in use.
pub mod Sync
use dlos.Prelude.{
  ℕ, zero, suc, ◌+◌, ◌-◌, ◌*◌, ◌/◌, ◌%◌, ◌^◌, Bool, true, false, not, Option, none, some, ltb, ◌&&◌,
  ◌==◌, if◌then◌else◌,
}
use dlos.Const.{sector_size}
use dlos.Kernel.Proc.{Code, done, stop, panic, pure, ◌>>=◌, ◌>>◌, get, modify, halt, assert}
use dlos.Fs.State.{
  SuperBlock, Inode, Fs, nr_inode, nr_super_block, fsbuf, set_inode, rd_sect, wr_sect, read32,
  write32, set_memory,
}

-- The loop of get_super_block, with `n` entries left from entry `i` on.
unfoldable pub find_super_block : ℕ → ℕ → ℕ → (ℕ → SuperBlock) → Option ℕ
find_super_block zero i dev table = none
find_super_block (suc n) i dev table =
    let rest = find_super_block n (i + 1) dev table in
    if (table i).sb_dev == dev then some i else rest

abbrev pub found_super_block : Fs → Option ℕ → Code Fs SuperBlock
found_super_block s none = halt panic
found_super_block s (some i) = pure (s.super_block i)

unfoldable pub get_super_block : ℕ → Code Fs SuperBlock
get_super_block dev = do
  s ← get
  found_super_block s (find_super_block nr_super_block 0 dev s.super_block)

-- What the loop of get_inode finds: the inode itself, or the first free entry, if any.
pub data Slot : Type 0 where
  cached : ℕ → Slot
  free : Option ℕ → Slot

abbrev pub first_of : Option ℕ → ℕ → Option ℕ
first_of none p = some p
first_of (some q) p = some q

-- The loop of get_inode, with `n` entries left from entry `p` on, and the free entry so far.
unfoldable pub find_inode : ℕ → ℕ → Option ℕ → ℕ → ℕ → (ℕ → Inode) → Slot
find_inode zero p q dev num table = free q
find_inode (suc n) p q dev num table =
    let used = not ((table p).i_cnt == 0) in
    let rest = find_inode n (p + 1) (if used then q else first_of q p) dev num table in
    if used && (table p).i_dev == dev && (table p).i_num == num then cached p else rest

-- The sector of an inode, and the address of its bytes once that is in `fsbuf`.
abbrev pub inode_sect : SuperBlock → ℕ → ℕ
inode_sect sb num = 1 + 1 + sb.nr_imap_sects + sb.nr_smap_sects + (num - 1) / (sector_size / 32)

abbrev pub inode_addr : ℕ → ℕ
inode_addr num = fsbuf + (num - 1) % (sector_size / 32) * 32

-- The fields of the inode at address `a`.
abbrev pub loaded : (ℕ → ℕ) → ℕ → Inode → Inode
loaded m a p = record p {
  i_mode = read32 m a;
  i_size = read32 m (a + 4);
  i_start_sect = read32 m (a + 8);
  i_nr_sects = read32 m (a + 12);
}

-- get_inode from the disk into the free entry `q`.
unfoldable pub load_inode : ℕ → ℕ → ℕ → Code Fs (Option ℕ)
load_inode q dev num = do
  set_inode q λ p. record p { i_dev = dev; i_num = num; i_cnt = 1 }
  sb ← get_super_block dev
  rd_sect dev (inode_sect sb num)
  s ← get
  set_inode q (loaded s.memory (inode_addr num))
  pure (some q)

-- get_inode behind its loop.
unfoldable pub fill_slot : ℕ → ℕ → Slot → Code Fs (Option ℕ)
fill_slot dev num (cached p) = do set_inode p λ r. record r { i_cnt = r.i_cnt + 1 }; pure (some p)
fill_slot dev num (free none) = halt panic
fill_slot dev num (free (some q)) = load_inode q dev num

unfoldable pub get_inode : ℕ → ℕ → Code Fs (Option ℕ)
get_inode dev num = do
  s ← get
  if num == 0
      then pure none
      else fill_slot dev num (find_inode nr_inode 0 none dev num s.inode_table)

unfoldable pub put_inode : ℕ → Code Fs (Unit {0})
put_inode p = do
  s ← get
  assert 350 (not ((s.inode_table p).i_cnt == 0))
  set_inode p λ r. record r { i_cnt = r.i_cnt - 1 }

-- The four fields of an inode, written at address `a`.
abbrev pub saved : Inode → ℕ → (ℕ → ℕ) → ℕ → ℕ
saved p a m =
    write32 (write32 (write32 (write32 m a p.i_mode) (a + 4) p.i_size) (a + 8) p.i_start_sect)
      (a + 12) p.i_nr_sects

unfoldable pub sync_inode : ℕ → Code Fs (Unit {0})
sync_inode p = do
  s ← get
  let r = s.inode_table p
  sb ← get_super_block r.i_dev
  rd_sect r.i_dev (inode_sect sb r.i_num)
  set_memory (saved r (inode_addr r.i_num))
  wr_sect r.i_dev (inode_sect sb r.i_num)
