-- ===== src/Fs/Mkfs.antt =====
-- mkfs, read_super_block and init_fs of fs/main.c: a file system is made and loaded.
mod Tests
pub mod Sectors
pub mod Made
pub mod Root
pub mod Start
use dlos.Prelude.{
  ℕ, zero, suc, ◌+◌, ◌-◌, ◌*◌, ◌/◌, ◌%◌, ◌^◌, Bool, true, false, not, ◌&&◌, Option, none, some, ltb,
  leb, ◌==◌, if◌then◌else◌, update, List, [], ◌∷◌,
}
use dlos.Prelude.Int.{pos}
use dlos.Const.{nr_consoles, sector_size, task_hd, task_fs, dev_open, dev_ioctl}
use dlos.Kernel.Proc.{
  Message, Code, done, stop, panic, reset_msg, pure, ◌>>=◌, ◌>>◌, get, modify, halt, assert,
}
use dlos.Libc.Print.{word, vsprintf}
use dlos.Fs.State.{
  SuperBlock, Inode, FileDesc, Fs, nr_inode, nr_file_desc, nr_super_block, fsbuf, i_directory,
  i_char_special, root_inode_nr, rd_sect, wr_sect, read32, write32, set_memory,
}
use dlos.Fs.Inode.{find_super_block, get_super_block, get_inode}
use dlos.Fs.Path.{dir_entry_size}
use dlos.Fs.Alloc.{set_bit}
use dlos.Fs.Files.{nr_default_file_sects, write_name, with_some}

-- ROOT_DEV: the first logical partition of the second primary one.
abbrev pub root_dev : ℕ
root_dev = 0x320

abbrev pub magic_v1 : ℕ
magic_v1 = 0x111

abbrev pub no_dev : ℕ
no_dev = 0

abbrev pub inode_size : ℕ
inode_size = 32

abbrev pub bits_per_sect : ℕ
bits_per_sect = sector_size * 8

-- The super block that mkfs makes for a device of `size` sectors.
unfoldable pub new_super_block : ℕ → SuperBlock
new_super_block size =
    let nr_smap_sects = size / bits_per_sect + 1 in
    let nr_inode_sects = bits_per_sect * inode_size / sector_size in
    record {
      magic = magic_v1;
      nr_inodes = bits_per_sect;
      nr_sects = size;
      nr_imap_sects = 1;
      nr_smap_sects = nr_smap_sects;
      n_1st_sect = 1 + 1 + 1 + nr_smap_sects + nr_inode_sects;
      nr_inode_sects = nr_inode_sects;
      root_inode = root_inode_nr;
      inode_size = inode_size;
      inode_isize_off = 4;
      inode_start_off = 8;
      dir_ent_size = dir_entry_size;
      dir_ent_inode_off = 0;
      dir_ent_fname_off = 4;
      sb_dev = no_dev;
    }

-- The words of a super block, in the order of struct super_block.
abbrev pub super_words : SuperBlock → List ℕ
super_words sb =
    sb.magic ∷ sb.nr_inodes ∷ sb.nr_sects ∷ sb.nr_imap_sects ∷ sb.nr_smap_sects ∷ sb.n_1st_sect
    ∷ sb.nr_inode_sects ∷ sb.root_inode ∷ sb.inode_size ∷ sb.inode_isize_off ∷ sb.inode_start_off
    ∷ sb.dir_ent_size ∷ sb.dir_ent_inode_off ∷ sb.dir_ent_fname_off ∷ []

abbrev pub write_words : List ℕ → ℕ → (ℕ → ℕ) → ℕ → ℕ
write_words [] a m = m
write_words (w ∷ ws) a m = write_words ws (a + 4) (write32 m a w)

-- memset(fsbuf, v, SECTOR_SIZE)
abbrev pub filled : ℕ → (ℕ → ℕ) → ℕ → ℕ
filled v m a = if leb fsbuf a && ltb a (fsbuf + sector_size) then v else m a

-- `fsbuf[j] |= 1 << i`, with `n` bits left from bit `i` on.
abbrev pub set_bits : ℕ → ℕ → ℕ → (ℕ → ℕ) → ℕ → ℕ
set_bits zero i j m = m
set_bits (suc n) i j m = set_bits n (i + 1) j (update m (fsbuf + j) (set_bit (m (fsbuf + j)) i))

-- `fsbuf[i] = 0xFF`, with `n` bytes left from byte `i` on.
abbrev pub set_bytes : ℕ → ℕ → (ℕ → ℕ) → ℕ → ℕ
set_bytes zero i m = m
set_bytes (suc n) i m = set_bytes n (i + 1) (update m (fsbuf + i) 0xFF)

-- The super block of mkfs, in sector 1.
unfoldable pub make_super_block : SuperBlock → Code Fs (Unit {0})
make_super_block sb = do
  set_memory (filled 0x90)
  set_memory (write_words (super_words sb) fsbuf)
  wr_sect root_dev 1

-- The inode map of mkfs: the reserved inode, the root and the consoles.
unfoldable pub make_imap : Code Fs (Unit {0})
make_imap = do
  set_memory (filled 0)
  set_memory (set_bits (nr_consoles + 2) 0 0)
  s ← get
  assert 185 (s.memory fsbuf == 0x1F)
  wr_sect root_dev 2

-- The loop over the sectors of the sector map behind the first, with `n` left from sector `i` on.
unfoldable pub clear_smap : ℕ → ℕ → SuperBlock → Code Fs (Unit {0})
clear_smap zero i sb = pure tt
clear_smap (suc n) i sb = do wr_sect root_dev (2 + sb.nr_imap_sects + i); clear_smap n (i + 1) sb

-- The sector map of mkfs: the reserved bit and the sectors of the root directory.
unfoldable pub make_smap : SuperBlock → Code Fs (Unit {0})
make_smap sb = do
  let nr_sects = nr_default_file_sects + 1
  set_memory (filled 0)
  set_memory (set_bytes (nr_sects / 8) 0)
  set_memory (set_bits (nr_sects % 8) 0 (nr_sects / 8))
  wr_sect root_dev (2 + sb.nr_imap_sects)
  set_memory (filled 0)
  clear_smap (sb.nr_smap_sects - 1) 1 sb

-- The four fields of an inode in the buffer, at index `i` of the sector.
abbrev pub new_inode_at : ℕ → ℕ → ℕ → ℕ → ℕ → (ℕ → ℕ) → ℕ → ℕ
new_inode_at i mode size start sects =
    write_words (mode ∷ size ∷ start ∷ sects ∷ []) (fsbuf + inode_size * i)

-- The first sector of inodes: the root directory, and the consoles with their devices.
unfoldable pub make_inodes : SuperBlock → Code Fs (Unit {0})
make_inodes sb = do
  set_memory (filled 0)
  set_memory (new_inode_at 0 i_directory (dir_entry_size * 4) sb.n_1st_sect nr_default_file_sects)
  set_memory (new_inode_at 1 i_char_special 0 0x400 0)
  set_memory (new_inode_at 2 i_char_special 0 0x401 0)
  set_memory (new_inode_at 3 i_char_special 0 0x402 0)
  wr_sect root_dev (2 + sb.nr_imap_sects + sb.nr_smap_sects)

-- An entry of the root directory, at index `i` of the sector.
abbrev pub new_entry_at : ℕ → ℕ → List ℕ → (ℕ → ℕ) → ℕ → ℕ
new_entry_at i inode_nr name m =
    write_name name (fsbuf + dir_entry_size * i + 4)
      (write32 m (fsbuf + dir_entry_size * i) inode_nr)

-- `sprintf(pde->name, "dev_tty%d", i)`, for the entry behind.
abbrev pub tty_format : List ℕ
tty_format = 100 ∷ 101 ∷ 118 ∷ 95 ∷ 116 ∷ 116 ∷ 121 ∷ 37 ∷ 100 ∷ []

abbrev pub tty_entry_named : ℕ → Option (List ℕ) → Code Fs (Unit {0})
tty_entry_named i none = halt panic
tty_entry_named i (some name) = set_memory (new_entry_at (i + 1) (i + 2) name)

unfoldable pub tty_entry : ℕ → Code Fs (Unit {0})
tty_entry i = tty_entry_named i (vsprintf tty_format (word (pos i) ∷ []))

-- The first sector of the root directory. The name `.` is the character 46.
unfoldable pub make_root : SuperBlock → Code Fs (Unit {0})
make_root sb = do
  set_memory (filled 0)
  set_memory (new_entry_at 0 1 (46 ∷ []))
  tty_entry 0
  tty_entry 1
  tty_entry 2
  wr_sect root_dev sb.n_1st_sect

abbrev pub send_driver : Message → Code Fs (Unit {0})
send_driver m = modify λ s. record s { outbox = (task_hd, m) ∷ s.outbox }

-- mkfs, for the `size` that the driver answers. What it prints is left out.
unfoldable pub mkfs : ℕ → Code Fs (Unit {0})
mkfs size = do
  send_driver
      (record reset_msg { type = dev_ioctl; m3i4 = root_dev % 2 ^ 8; m3i2 = 1; m3i3 = task_fs })
  let sb = new_super_block size
  make_super_block sb
  make_imap
  make_smap sb
  make_inodes sb
  make_root sb

-- `super_block[i] = *psb`, and the device.
abbrev pub loaded_super : (ℕ → ℕ) → ℕ → SuperBlock
loaded_super m dev = record {
  magic = read32 m fsbuf;
  nr_inodes = read32 m (fsbuf + 4);
  nr_sects = read32 m (fsbuf + 8);
  nr_imap_sects = read32 m (fsbuf + 12);
  nr_smap_sects = read32 m (fsbuf + 16);
  n_1st_sect = read32 m (fsbuf + 20);
  nr_inode_sects = read32 m (fsbuf + 24);
  root_inode = read32 m (fsbuf + 28);
  inode_size = read32 m (fsbuf + 32);
  inode_isize_off = read32 m (fsbuf + 36);
  inode_start_off = read32 m (fsbuf + 40);
  dir_ent_size = read32 m (fsbuf + 44);
  dir_ent_inode_off = read32 m (fsbuf + 48);
  dir_ent_fname_off = read32 m (fsbuf + 52);
  sb_dev = dev;
}

-- The end of read_super_block, with the free entry that the loop found.
unfoldable pub keep_super_block : ℕ → Option ℕ → Code Fs (Unit {0})
keep_super_block dev none = halt panic
keep_super_block dev (some i) = do
  assert 278 (i == 0)
  modify λ s. record s { super_block = update s.super_block i (loaded_super s.memory dev) }

unfoldable pub read_super_block : ℕ → Code Fs (Unit {0})
read_super_block dev = do
  rd_sect dev 1
  s ← get
  keep_super_block dev (find_super_block nr_super_block 0 no_dev s.super_block)

abbrev pub blank_inode : Inode
blank_inode = record {
  i_mode = 0;
  i_size = 0;
  i_start_sect = 0;
  i_nr_sects = 0;
  i_dev = 0;
  i_cnt = 0;
  i_num = 0;
}

abbrev pub blank_file_desc : FileDesc
blank_file_desc = record { fd_mode = 0; fd_pos = 0; fd_cnt = 0; fd_inode = none }

-- The tables that init_fs clears.
unfoldable pub clear_tables : Fs → Fs
clear_tables s = record s {
  f_desc_table = λ i. if ltb i nr_file_desc then blank_file_desc else s.f_desc_table i;
  inode_table = λ i. if ltb i nr_inode then blank_inode else s.inode_table i;
  super_block = λ i.
      if ltb i nr_super_block
      then (record (s.super_block i) { sb_dev = no_dev })
      else s.super_block i;
}

-- init_fs, for the `size` that the driver answers to mkfs.
unfoldable pub init_fs : ℕ → Code Fs (Unit {0})
init_fs size = do
  modify clear_tables
  send_driver (record reset_msg { type = dev_open; m3i4 = root_dev % 2 ^ 8 })
  mkfs size
  read_super_block root_dev
  sb ← get_super_block root_dev
  assert 124 (sb.magic == magic_v1)
  root ← get_inode root_dev root_inode_nr
  with_some root λ p. modify λ s. record s { root_inode = p }
