-- ===== src/Fs/Unlink.antt =====
-- do_unlink of fs/link.c: a file is removed. A number behind `assert` is a line of that file.
mod Tests
pub mod Bitmap
pub mod Refused
use Prim.Native.Nat.{bit_and}
use dlos.Prelude.{
  ℕ, zero, suc, ◌+◌, ◌-◌, ◌*◌, ◌/◌, ◌%◌, ◌^◌, Bool, true, false, not, ◌&&◌, ◌||◌, Option, none,
  some, ltb, leb, ◌==◌, if◌then◌else◌, update, List, [], ◌∷◌,
}
use dlos.Const.{sector_size}
use dlos.Kernel.Proc.{Code, panic, pure, ◌>>=◌, ◌>>◌, get, modify, halt, assert}
use dlos.Libc.Strings.{strcmp_is_0}
use dlos.Fs.State.{
  SuperBlock, Inode, Fs, fsbuf, i_regular, set_inode, rd_sect, wr_sect, read32, set_memory,
}
use dlos.Fs.Inode.{get_super_block, get_inode, put_inode, sync_inode}
use dlos.Fs.Path.{dir_entry_size, dir_entries_per_sect, strip_path, search_file}
use dlos.Fs.Alloc.{bit_of}
use dlos.Fs.Files.{read_pathname}

-- `b &= ~(1 << k)` for a byte.
abbrev pub clear_bit : ℕ → ℕ → ℕ
clear_bit b k = bit_and b (0xFF - 2 ^ k)

abbrev pub set_byte : ℕ → ℕ → Code Fs (Unit {0})
set_byte a b = set_memory λ m. update m a b

-- In the sector of the inode map, bit `k` of the byte at index `j` is cleared.
unfoldable pub clear_in_map : ℕ → ℕ → ℕ → Code Fs (Unit {0})
clear_in_map dev j k = do
  rd_sect dev 2
  s ← get
  assert 58 (bit_of (s.memory (fsbuf + j)) k == 1)
  set_byte (fsbuf + j) (clear_bit (s.memory (fsbuf + j)) k)
  wr_sect dev 2

-- The bit of an inode in the map.
unfoldable pub free_imap_bit : ℕ → ℕ → Code Fs (Unit {0})
free_imap_bit dev inode_nr = do
  let byte_idx = inode_nr / 8
  let bit_idx = inode_nr % 8
  assert 56 (ltb byte_idx sector_size)
  clear_in_map dev (byte_idx % sector_size) bit_idx

-- The loop over the first byte, with `n` bits left from bit `i` on. It returns `bits_left`.
unfoldable pub free_first_bits : ℕ → ℕ → ℕ → ℕ → Code Fs ℕ
free_first_bits zero i a bits_left = pure bits_left
free_first_bits (suc n) i a bits_left = if bits_left == 0 then pure 0 else do
  s ← get
  assert 72 (bit_of (s.memory a) i == 1)
  set_byte a (clear_bit (s.memory a) i)
  free_first_bits n (i + 1) a (bits_left - 1)

-- The buffer is written at its end, and filled from the next sector: the new index and sector.
unfoldable pub next_sector : ℕ → ℕ → ℕ → Code Fs (ℕ × ℕ)
next_sector dev i sect =
    if i == sector_size
    then (do wr_sect dev sect; rd_sect dev (sect + 1); pure (0, sect + 1))
    else pure (i, sect)

-- The loop over the whole bytes, `k` of them from index `i` of sector `sect` on. It returns where
-- it stopped.
unfoldable pub free_bytes : ℕ → ℕ → ℕ → ℕ → Code Fs (ℕ × ℕ)
free_bytes zero dev i sect = pure (i, sect)
free_bytes (suc k) dev i sect = do
  (i', sect') ← next_sector dev i sect
  s ← get
  assert 84 (s.memory (fsbuf + i') == 0xFF)
  set_byte (fsbuf + i') 0
  free_bytes k dev (i' + 1) sect'

-- `mask` has the `bits_left` low bits: `(fsbuf[i] & mask) == mask`, and these bits are cleared.
unfoldable pub free_last_bits : ℕ → ℕ → Code Fs (Unit {0})
free_last_bits a bits_left = do
  s ← get
  let mask = 2 ^ bits_left - 1
  assert 94 (bit_and (s.memory a) mask == mask)
  set_byte a (s.memory a - s.memory a % 2 ^ bits_left)

-- The bits of the sectors of a file in the map are cleared. C rounds `byte_cnt` towards 0, so it is
-- 0 if the bits end in the first byte.
unfoldable pub free_smap_bits : ℕ → SuperBlock → Inode → Code Fs (Unit {0})
free_smap_bits dev sb pin = do
  let bit_idx = (pin.i_start_sect + 2 ^ 32 - sb.n_1st_sect + 1) % 2 ^ 32
  let byte_idx = bit_idx / 8
  let byte_cnt = (pin.i_nr_sects - (8 - bit_idx % 8)) / 8
  let sect = 2 + sb.nr_imap_sects + byte_idx / sector_size
  rd_sect dev sect
  bits_left ←
      free_first_bits (8 - bit_idx % 8) (bit_idx % 8) (fsbuf + byte_idx % sector_size)
        pin.i_nr_sects
  (i, sect') ← free_bytes byte_cnt dev (byte_idx % sector_size + 1) sect
  (i', sect'') ← next_sector dev i sect'
  free_last_bits (fsbuf + i') (bits_left - 8 * byte_cnt)
  wr_sect dev sect''

-- How the search for the entry of a file goes on behind a sector: `removed` at the `m`-th entry, with
-- the size `dir_size` of the used entries before it; `past` the last entry; or `more` to search.
pub data Removal : Type 0 where
  removed : ℕ → ℕ → ℕ → Removal
  past : ℕ → ℕ → Removal
  more : ℕ → ℕ → Removal

-- The inner loop, with `n` entries left from address `a` on, `m` seen before.
unfoldable pub find_entry : ℕ → ℕ → ℕ → ℕ → ℕ → ℕ → (ℕ → ℕ) → Removal
find_entry zero a m dir_size entries inode_nr memory = more m dir_size
find_entry (suc n) a m dir_size entries inode_nr memory =
    let size = if read32 memory a == 0 then dir_size else dir_size + dir_entry_size in
    let rest = find_entry n (a + dir_entry_size) (m + 1) size entries inode_nr memory in
    if ltb entries (m + 1)
    then past (m + 1) dir_size
    else if read32 memory a == inode_nr
    then removed a (m + 1) dir_size
    else rest

-- memset(pde, 0, DIR_ENTRY_SIZE)
abbrev pub erased : ℕ → (ℕ → ℕ) → ℕ → ℕ
erased a memory b = if leb a b && ltb b (a + dir_entry_size) then 0 else memory b

-- The end of do_unlink: `m` entries were seen. If the last one was removed, the directory ends behind
-- the used entries that were counted.
unfoldable pub shrink : ℕ → ℕ → ℕ → ℕ → Code Fs (Unit {0})
shrink dir m entries dir_size =
    if m == entries
    then (do set_inode dir λ r. record r { i_size = dir_size }; sync_inode dir)
    else pure tt

-- The outer loop, with `n` sectors left from sector `i` on. `dir_inode` is read at its start.
unfoldable pub remove_entry : ℕ → ℕ → ℕ → ℕ → ℕ → Inode → ℕ → Code Fs (Unit {0})
remove_entry zero i m dir_size dir r inode_nr = assert 134 false
remove_entry (suc n) i m dir_size dir r inode_nr = do
  rd_sect r.i_dev (r.i_start_sect + i)
  s ← get
  let entries = r.i_size / dir_entry_size
  elim (find_entry dir_entries_per_sect fsbuf m dir_size entries inode_nr s.memory) [
    | removed a m' size ↦ do
      set_memory (erased a)
      wr_sect r.i_dev (r.i_start_sect + i)
      shrink dir m' entries size
    | past m' size ↦ assert 134 false
    | more m' size ↦ remove_entry n (i + 1) m' size dir r inode_nr
  ]

-- -1 as an int.
abbrev pub minus_one : ℕ
minus_one = 2 ^ 32 - 1

-- do_unlink behind its checks, for the inode at index `p` of inode_table.
unfoldable pub remove_file : ℕ → ℕ → ℕ → Code Fs ℕ
remove_file p inode_nr dir = do
  s ← get
  let pin = s.inode_table p
  sb ← get_super_block pin.i_dev
  free_imap_bit pin.i_dev inode_nr
  free_smap_bits pin.i_dev sb pin
  set_inode p λ r. record r { i_mode = 0; i_size = 0; i_start_sect = 0; i_nr_sects = 0 }
  sync_inode p
  put_inode p
  s' ← get
  let r = s'.inode_table dir
  remove_entry ((r.i_size + sector_size) / sector_size) 0 0 0 dir r inode_nr
  pure 0

-- The checks on the inode. A null pointer from get_inode is an undefined access. The count that
-- get_inode raised stays raised behind a failed check.
unfoldable pub unlink_inode : ℕ → Option ℕ → Code Fs ℕ
unlink_inode inode_nr none = halt panic
unlink_inode inode_nr (some p) = do
  s ← get
  let pin = s.inode_table p
  if not (pin.i_mode == i_regular) || ltb 1 pin.i_cnt
      then pure minus_one
      else remove_file p inode_nr s.root_inode

unfoldable pub unlink_name : List ℕ → ℕ → Code Fs ℕ
unlink_name pathname inode_nr = do
  s ← get
  if inode_nr == 0 then pure minus_one else elim (strip_path pathname) [
    | none ↦ pure minus_one
    | some filename ↦ do
      pin ← get_inode (s.inode_table s.root_inode).i_dev inode_nr
      unlink_inode inode_nr pin
  ]

-- do_unlink from its first check on. "/" is the character 47.
unfoldable pub unlink_path : List ℕ → Code Fs ℕ
unlink_path pathname =
    if strcmp_is_0 pathname (47 ∷ [])
    then pure minus_one
    else do inode_nr ← search_file pathname; unlink_name pathname inode_nr

unfoldable pub do_unlink : Code Fs ℕ
do_unlink = do pathname ← read_pathname 19; unlink_path pathname
