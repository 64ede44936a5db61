-- ===== src/Fs/Alloc.antt =====
-- The two bitmaps of fs/open.c: alloc_imap_bit takes the bit of a free inode, alloc_smap_bit those of
-- a run of free sectors.
pub mod Imap
use Prim.Native.Nat.{bit_or}
use dlos.Prelude.{
  ℕ, zero, suc, ◌+◌, ◌-◌, ◌*◌, ◌/◌, ◌%◌, ◌^◌, Bool, true, false, not, Option, none, some, ltb, leb,
  ◌&&◌, ◌||◌, ◌==◌, if◌then◌else◌, update,
}
use dlos.Const.{sector_size}
use dlos.Kernel.Proc.{Code, done, stop, panic, pure, ◌>>=◌, ◌>>◌, get, modify, halt, assert}
use dlos.Fs.State.{SuperBlock, Fs, fsbuf, rd_sect, wr_sect, set_memory}
use dlos.Fs.Inode.{get_super_block}

-- `(b >> k) & 1`
abbrev pub bit_of : ℕ → ℕ → ℕ
bit_of b k = b / 2 ^ k % 2

-- `for (; ((b >> k) & 1) != 0; k++)`, for at most `fuel` rounds. Of a byte that is not 0xFF one of
-- the first 8 bits is 0, so 8 are enough.
unfoldable pub zero_bit : ℕ → ℕ → ℕ → ℕ
zero_bit zero b k = k
zero_bit (suc fuel) b k = let rest = zero_bit fuel b (k + 1) in if bit_of b k == 0 then k else rest

abbrev pub set_bit : ℕ → ℕ → ℕ
set_bit b k = bit_or b (2 ^ k)

-- The loop over the bytes of a sector, with `n` bytes left from byte `j` on: the first that is not
-- full.
unfoldable pub free_byte : ℕ → ℕ → (ℕ → ℕ) → Option ℕ
free_byte zero j memory = none
free_byte (suc n) j memory =
    let rest = free_byte n (j + 1) memory in if memory (fsbuf + j) == 0xFF then rest else some j

-- The bit of byte `j` of the map's sector is taken, and the sector written.
unfoldable pub take_inode : ℕ → Option ℕ → Code Fs ℕ
take_inode dev none = pure 0
take_inode dev (some j) = do
  s ← get
  let k = zero_bit 8 (s.memory (fsbuf + j)) 0
  set_memory λ m. update m (fsbuf + j) (set_bit (m (fsbuf + j)) k)
  wr_sect dev 2
  pure (j * 8 + k)

-- alloc_imap_bit. The loop over the sectors of the map returns in its first round.
unfoldable pub alloc_imap_bit : ℕ → Code Fs ℕ
alloc_imap_bit dev = do
  sb ← get_super_block dev
  if sb.nr_imap_sects == 0
      then halt panic
      else do rd_sect dev 2; s ← get; take_inode dev (free_byte sector_size 0 s.memory)

-- `for (; k < 8; k++)` of alloc_smap_bit, with `n` bits left from bit `k` of the byte at `a` on. It
-- returns how many sectors are still to be allocated.
unfoldable pub take_bits : ℕ → ℕ → ℕ → ℕ → Code Fs ℕ
take_bits zero k a left = pure left
take_bits (suc n) k a left = do
  s ← get
  assert 211 (bit_of (s.memory a) k == 0)
  set_memory λ m. update m a (set_bit (m a) k)
  if left - 1 == 0 then pure 0 else take_bits n (k + 1) a (left - 1)

-- The loop over the bytes of sector `i` of the map, with `n` bytes left from byte `j` on: the first
-- sector found (0 if none) and the number of sectors still to be allocated.
unfoldable pub smap_bytes : ℕ → ℕ → ℕ → ℕ → ℕ → ℕ → Code Fs (ℕ × ℕ)
smap_bytes zero i j first free_sect_nr left = pure (free_sect_nr, left)
smap_bytes (suc n) i j first free_sect_nr left = do
  s ← get
  let b = s.memory (fsbuf + j)
  let skip = free_sect_nr == 0 && b == 0xFF
  let k = if free_sect_nr == 0 then zero_bit 8 b 0 else 0
  let free' = if free_sect_nr == 0 then (i * sector_size + j) * 8 + k + first - 1 else free_sect_nr
  if left == 0
      then pure (free_sect_nr, left)
      else if skip
      then smap_bytes n i (j + 1) first free_sect_nr left
      else do left' ← take_bits (8 - k) k (fsbuf + j) left; smap_bytes n i (j + 1) first free' left'

-- The loop over the sectors of the map, with `n` left from sector `i` on.
unfoldable pub smap_sects : ℕ → ℕ → ℕ → SuperBlock → ℕ → ℕ → Code Fs ℕ
smap_sects zero i dev sb free_sect_nr left = do assert 225 (left == 0); pure free_sect_nr
smap_sects (suc n) i dev sb free_sect_nr left = do
  rd_sect dev (1 + 1 + sb.nr_imap_sects + i)
  (free', left') ← smap_bytes sector_size i 0 sb.n_1st_sect free_sect_nr left
  if free' == 0 then pure tt else wr_sect dev (1 + 1 + sb.nr_imap_sects + i)
  if left' == 0 then pure free' else smap_sects n (i + 1) dev sb free' left'

unfoldable pub alloc_smap_bit : ℕ → ℕ → Code Fs ℕ
alloc_smap_bit dev nr_sects_to_alloc = do
  sb ← get_super_block dev
  smap_sects sb.nr_smap_sects 0 dev sb 0 nr_sects_to_alloc
