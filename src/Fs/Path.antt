-- ===== src/Fs/Path.antt =====
-- fs/misc.c: the name in a path, and the search for it in the root directory. A string is the list
-- of its characters, without the final 0.
pub mod Strip
use dlos.Prelude.{
  ℕ, zero, suc, ◌+◌, ◌-◌, ◌*◌, ◌/◌, ◌%◌, ◌^◌, Bool, true, false, not, Option, none, some, ltb, leb,
  ◌&&◌, ◌==◌, if◌then◌else◌, List, [], ◌∷◌, get_or,
}
use dlos.Const.{sector_size}
use dlos.Kernel.Proc.{Code, done, stop, pure, ◌>>=◌, ◌>>◌, get, modify, halt}
use dlos.Fs.State.{Inode, Fs, fsbuf, rd_sect, read32}

abbrev pub max_filename_len : ℕ
max_filename_len = 12

abbrev pub dir_entry_size : ℕ
dir_entry_size = 16

abbrev pub dir_entries_per_sect : ℕ
dir_entries_per_sect = sector_size / dir_entry_size

-- The loop of strip_path, with room for `n` characters.
unfoldable pub strip_loop : ℕ → List ℕ → Option (List ℕ)
strip_loop zero s = some []
strip_loop (suc n) [] = some []
strip_loop (suc n) (c ∷ s) =
    let rest = strip_loop n s in
    if c == 47 then none else elim rest [ none ↦ none | some t ↦ some (c ∷ t) ]

-- strip_path: the name, or `none` for -1. The directory is always the root.
unfoldable pub strip_path : List ℕ → Option (List ℕ)
strip_path [] = strip_loop max_filename_len []
strip_path (c ∷ s) =
    if c == 47 then strip_loop max_filename_len s else strip_loop max_filename_len (c ∷ s)

-- memcmp of the first `n` bytes of a name and what stands in memory.
unfoldable pub same_name : ℕ → List ℕ → (ℕ → ℕ) → ℕ → Bool
same_name zero name m a = true
same_name (suc n) [] m a = m a == 0 && same_name n [] m (a + 1)
same_name (suc n) (c ∷ name) m a = m a == c && same_name n name m (a + 1)

-- How a search in one sector ends.
pub data Search : Type 0 where
  found : ℕ → Search
  past : Search
  next : ℕ → Search

-- The inner loop of search_file, with `n` entries left from address `a` on, `m` seen before.
unfoldable pub search_sector : ℕ → ℕ → ℕ → ℕ → List ℕ → (ℕ → ℕ) → Search
search_sector zero a m entries name memory = next m
search_sector (suc n) a m entries name memory =
    let rest = search_sector n (a + dir_entry_size) (m + 1) entries name memory in
    if same_name max_filename_len name memory (a + 4)
    then found (read32 memory a)
    else if ltb entries (m + 1)
    then past
    else rest

-- The outer loop, with `n` sectors left from sector `i` on.
unfoldable pub search_sectors : ℕ → ℕ → ℕ → Inode → List ℕ → Code Fs ℕ
search_sectors zero i m dir name = pure 0
search_sectors (suc n) i m dir name = do
  rd_sect dir.i_dev (dir.i_start_sect + i)
  s ← get
  elim (search_sector dir_entries_per_sect fsbuf m (dir.i_size / dir_entry_size) name s.memory) [
    | found inode_nr ↦ pure inode_nr
    | past ↦ pure 0
    | next m' ↦ search_sectors n (i + 1) m' dir name
  ]

-- search_file: the number of the inode, or 0.
unfoldable pub search_file : List ℕ → Code Fs ℕ
search_file path = do
  s ← get
  let dir = s.inode_table s.root_inode
  elim (strip_path path) [
    | none ↦ pure 0
    | some [] ↦ pure dir.i_num
    | some (c ∷ name) ↦
        search_sectors ((dir.i_size + sector_size + 1) / sector_size) 0 0 dir (c ∷ name)
  ]
