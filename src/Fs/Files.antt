-- ===== src/Fs/Files.antt =====
-- fs/open.c: files are created, opened and closed. The copy of a path from its caller reads the
-- caller's memory; the local buffer it goes to is left out.
use Prim.Native.Nat.{bit_and}
use dlos.Prelude.{
  ℕ, zero, suc, ◌+◌, ◌-◌, ◌/◌, ◌%◌, ◌^◌, Bool, true, false, Option, none, some, ltb, ◌==◌,
  if◌then◌else◌, update, List, [], ◌∷◌,
}
use dlos.Const.{sector_size, task_tty, dev_open}
use dlos.Kernel.Proc.{reset_msg, Code, panic, pure, ◌>>=◌, ◌>>◌, get, modify, halt, assert}
use dlos.Kernel.Ipc.Base.{va2la}
use dlos.Fs.State.{
  FileDesc, Fs, nr_file_desc, nr_files, fsbuf, i_regular, i_directory, i_char_special,
  root_inode_nr, in_kernel, set_inode, set_file_desc, rd_sect, wr_sect, read32, write32, set_memory,
}
use dlos.Fs.Inode.{get_inode, put_inode, sync_inode}
use dlos.Fs.Path.{dir_entry_size, dir_entries_per_sect, strip_path, search_file}
use dlos.Fs.Alloc.{alloc_imap_bit, alloc_smap_bit}

abbrev pub nr_default_file_sects : ℕ
nr_default_file_sects = 2048

-- The write through a pointer that get_inode returned: a null pointer is an undefined access, which
-- stops the model.
unfoldable pub new_inode : ℕ → ℕ → ℕ → Code Fs ℕ
new_inode dev inode_nr start_sect = do
  q ← get_inode dev inode_nr
  elim q [
    | none ↦ halt panic
    | some p ↦ do
      set_inode p λ _. record {
        i_mode = i_regular;
        i_size = 0;
        i_start_sect = start_sect;
        i_nr_sects = nr_default_file_sects;
        i_dev = dev;
        i_cnt = 1;
        i_num = inode_nr;
      }
      sync_inode p
      pure p
  ]

-- Where new_dir_entry stops in a sector: at a free entry, behind the last entry, or at neither.
pub data Place : Type 0 where
  free_entry : ℕ → Place
  behind : ℕ → Place
  full : ℕ → Place

-- The inner loop of new_dir_entry, with `n` entries left from address `a` on, `m` seen before.
unfoldable pub place_entry : ℕ → ℕ → ℕ → ℕ → (ℕ → ℕ) → Place
place_entry zero a m entries memory = full m
place_entry (suc n) a m entries memory =
    let rest = place_entry n (a + dir_entry_size) (m + 1) entries memory in
    if ltb entries (m + 1) then behind a else if read32 memory a == 0 then free_entry a else rest

-- strcpy of a name, with its final 0.
unfoldable pub write_name : List ℕ → ℕ → (ℕ → ℕ) → ℕ → ℕ
write_name [] a m = update m a 0
write_name (c ∷ name) a m = write_name name (a + 1) (update m a c)

-- The end of new_dir_entry, with the entry at address `a` and sector `i` in the buffer.
unfoldable pub write_entry : ℕ → ℕ → List ℕ → ℕ → ℕ → Bool → Code Fs (Unit {0})
write_entry dir inode_nr filename a i grows = do
  s ← get
  let r = s.inode_table dir
  if grows then (set_inode dir λ r. record r { i_size = r.i_size + dir_entry_size }) else pure tt
  set_memory λ m. write_name filename (a + 4) (write32 m a inode_nr)
  wr_sect r.i_dev (r.i_start_sect + i)
  sync_inode dir

-- The outer loop of new_dir_entry, with `n` sectors left from sector `i` on. If the last sector is
-- full, the entry is written behind it, at the end of the buffer's sector.
unfoldable pub place_sectors : ℕ → ℕ → ℕ → ℕ → ℕ → List ℕ → Code Fs (Unit {0})
place_sectors zero i m dir inode_nr filename =
    write_entry dir inode_nr filename (fsbuf + sector_size) i true
place_sectors (suc n) i m dir inode_nr filename = do
  s0 ← get
  let r = s0.inode_table dir
  rd_sect r.i_dev (r.i_start_sect + i)
  s ← get
  elim (place_entry dir_entries_per_sect fsbuf m (r.i_size / dir_entry_size) s.memory) [
    | free_entry a ↦ write_entry dir inode_nr filename a i false
    | behind a ↦ write_entry dir inode_nr filename a i true
    | full m' ↦ place_sectors n (i + 1) m' dir inode_nr filename
  ]

unfoldable pub new_dir_entry : ℕ → ℕ → List ℕ → Code Fs (Unit {0})
new_dir_entry dir inode_nr filename = do
  s ← get
  place_sectors (((s.inode_table dir).i_size + sector_size) / sector_size) 0 0 dir inode_nr filename

unfoldable pub create_file : List ℕ → Code Fs (Option ℕ)
create_file path = do
  s ← get
  let dir_inode = s.root_inode
  let dev = (s.inode_table dir_inode).i_dev
  elim (strip_path path) [
    | none ↦ pure none
    | some filename ↦ do
      inode_nr ← alloc_imap_bit dev
      free_sect_nr ← alloc_smap_bit dev nr_default_file_sects
      newino ← new_inode dev inode_nr free_sect_nr
      s' ← get
      new_dir_entry dir_inode (s'.inode_table newino).i_num filename
      pure (some newino)
  ]

-- The first free entry of `filp`, with `n` left from entry `i` on.
unfoldable pub free_fd : ℕ → ℕ → (ℕ → Option ℕ) → Option ℕ
free_fd zero i filp = none
free_fd (suc n) i filp =
    let rest = free_fd n (i + 1) filp in elim (filp i) [ none ↦ some i | some f ↦ rest ]

-- The first free file descriptor, with `n` left from entry `i` on.
unfoldable pub free_file_desc : ℕ → ℕ → (ℕ → FileDesc) → Option ℕ
free_file_desc zero i table = none
free_file_desc (suc n) i table =
    let rest = free_file_desc n (i + 1) table in
    elim (table i).fd_inode [ none ↦ some i | some p ↦ rest ]

-- The string of at most `n` characters at address `a`.
unfoldable pub string_at : ℕ → ℕ → (ℕ → ℕ) → List ℕ
string_at zero a m = []
string_at (suc n) a m = let rest = string_at n (a + 1) m in if m a == 0 then [] else m a ∷ rest

-- `pathname` of do_open and do_unlink: what the message points to. `line` is that of the assert.
unfoldable pub read_pathname : ℕ → Code Fs (List ℕ)
read_pathname line = do
  s ← get
  let name_len = s.fs_msg.m3i2
  assert line (ltb name_len 128)
  la ← in_kernel (va2la s.fs_msg.source s.fs_msg.m3p1)
  pure (string_at name_len la s.memory)

abbrev pub set_filp : ℕ → ℕ → Option ℕ → Code Fs (Unit {0})
set_filp p fd f = modify λ s. record s {
  kernel = record s.kernel {
    proc_table =
        update s.kernel.proc_table p
          (record (s.kernel.proc_table p) { filp = update (s.kernel.proc_table p).filp fd f });
  };
}

-- The first part of do_open that returns an inode, or null where do_open returns -1.
unfoldable pub find_or_create : List ℕ → ℕ → Code Fs (Option ℕ)
find_or_create pathname flags = do
  inode_nr ← search_file pathname
  s ← get
  if flags % 2 == 1 then (if inode_nr == 0 then create_file pathname else pure none) else do
    assert 68 (flags / 2 % 2 == 1)
    elim (strip_path pathname) [
      | none ↦ pure none
      | some filename ↦ get_inode (s.inode_table s.root_inode).i_dev inode_nr
    ]

-- What do_open asks of the device, or checks, once the descriptor is set.
unfoldable pub open_device : ℕ → Code Fs (Unit {0})
open_device p = do
  s ← get
  let r = s.inode_table p
  let imode = bit_and r.i_mode 0xF000
  if imode == i_char_special
      then (do
        assert 96 (r.i_start_sect / 2 ^ 8 % 2 ^ 8 == 4)
        modify λ s. record s {
          outbox =
              (task_tty, record reset_msg { type = dev_open; m3i4 = r.i_start_sect % 2 ^ 8 })
              ∷ s.outbox;
        })
      else if imode == i_directory
      then assert 102 (r.i_num == root_inode_nr)
      else assert 105 (r.i_mode == i_regular)

-- do_open: the descriptor, or `none` for -1.
unfoldable pub do_open : Code Fs (Option ℕ)
do_open = do
  pathname ← read_pathname 28
  s ← get
  let flags = s.fs_msg.m3i1
  elim (free_fd nr_files 0 (s.kernel.proc_table s.pcaller).filp) [
    | none ↦ halt panic
    | some fd ↦ elim (free_file_desc nr_file_desc 0 s.f_desc_table) [
      | none ↦ halt panic
      | some i ↦ do
        pin ← find_or_create pathname flags
        elim pin [
          | none ↦ pure none
          | some p ↦ do
            set_filp s.pcaller fd (some i)
            set_file_desc i
                λ _. record { fd_mode = flags; fd_pos = 0; fd_cnt = 1; fd_inode = some p }
            open_device p
            pure (some fd)
        ]
    ]
  ]

-- The inode of a descriptor, which the code takes not to be null.
abbrev pub with_some : {A : Type 0} → Option ℕ → (ℕ → Code Fs A) → Code Fs A
with_some none f = halt panic
with_some (some p) f = f p

-- `if (--fd_cnt == 0) fd_inode = 0`
abbrev pub released : FileDesc → FileDesc
released d = record d {
  fd_cnt = (d.fd_cnt + 2 ^ 32 - 1) % 2 ^ 32;
  fd_inode = if (d.fd_cnt + 2 ^ 32 - 1) % 2 ^ 32 == 0 then none else d.fd_inode;
}

unfoldable pub do_close : Code Fs ℕ
do_close = do
  s ← get
  let fd = s.fs_msg.m3i1
  with_some ((s.kernel.proc_table s.pcaller).filp fd) λ f. do
    with_some (s.f_desc_table f).fd_inode λ p. put_inode p
    set_file_desc f released
    set_filp s.pcaller fd none
    pure 0
