-- ===== src/Fs/ReadWrite.antt =====
-- do_rdwt of fs/read_write.c: a file is read and written by pieces of sectors through `fsbuf`, and a
-- terminal by a message to its driver.
pub mod End
use Prim.Native.Nat.{bit_and}
use dlos.Prelude.{
  ℕ, zero, suc, ◌+◌, ◌-◌, ◌*◌, ◌/◌, ◌%◌, ◌^◌, Bool, Option, none, some, ltb, leb, min, ◌||◌, ◌==◌,
  if◌then◌else◌, ◌∷◌,
}
use dlos.Const.{sector_size, task_tty, read_type, write_type, dev_read, dev_write}
use dlos.Kernel.Proc.{Message, Code, endless, pure, ◌>>=◌, ◌>>◌, get, modify, halt, assert}
use dlos.Kernel.Ipc.Base.{va2la}
use dlos.Fs.State.{
  Inode, Fs, fsbuf, fsbuf_size, nr_file_desc, nr_inode, i_regular, i_directory, i_char_special,
  in_kernel, set_inode, set_file_desc, read_disk, write_disk, set_memory, copied,
}
use dlos.Fs.Inode.{sync_inode}
use dlos.Fs.Files.{with_some}

-- phys_copy(to, from, n)
abbrev pub phys_copy : ℕ → ℕ → ℕ → Code Fs (Unit {0})
phys_copy to from n = set_memory λ m. copied m from m to n

-- What the loop of do_rdwt keeps fixed: the caller, the transfer, the inode and the descriptor.
pub record Transfer : Type 0 where
  pub is_read : Bool
  pub src : ℕ
  pub buf : ℕ
  pub chunk : ℕ
  pub i_dev : ℕ
  pub file_desc : ℕ

-- One round of the loop, at sector `i`, `off` bytes into it.
unfoldable pub rw_round : Transfer → ℕ → ℕ → ℕ → ℕ → Code Fs (Unit {0})
rw_round t i off bytes_rw bytes = do
  read_disk t.i_dev (i * sector_size) (t.chunk * sector_size)
  if t.is_read
      then (do
        to ← in_kernel (va2la t.src (t.buf + bytes_rw))
        from ← in_kernel (va2la t.src (fsbuf + off))
        phys_copy to from bytes)
      else (do
        to ← in_kernel (va2la t.src (fsbuf + off))
        from ← in_kernel (va2la t.src (t.buf + bytes_rw))
        phys_copy to from bytes
        write_disk t.i_dev (i * sector_size) (t.chunk * sector_size))
  set_file_desc t.file_desc λ d. record d { fd_pos = d.fd_pos + bytes }

-- The loop, up to sector `last`, for at most `fuel` rounds: it returns the bytes transferred.
unfoldable pub rw_loop : ℕ → Transfer → ℕ → ℕ → ℕ → ℕ → ℕ → Code Fs ℕ
rw_loop zero t i last off bytes_rw bytes_left = if leb i last then halt endless else pure bytes_rw
rw_loop (suc fuel) t i last off bytes_rw bytes_left =
    let bytes = min bytes_left (t.chunk * sector_size - off) in
    let rest = rw_loop fuel t (i + t.chunk) last 0 (bytes_rw + bytes) (bytes_left - bytes) in
    if leb i last then (do rw_round t i off bytes_rw bytes; rest) else pure bytes_rw

-- A terminal: the message goes on to the driver, whose answer takes its place.
unfoldable pub forward : (Message → Message) → ℕ → Code Fs (Option ℕ)
forward driver dev = do
  s ← get
  let t = if s.fs_msg.type == read_type then dev_read else dev_write
  assert 41 (dev / 2 ^ 8 % 2 ^ 8 == 4)
  let msg = record s.fs_msg { type = t; m3i4 = dev % 2 ^ 8; m3i3 = s.fs_msg.source }
  modify λ s. record s { fs_msg = driver msg; outbox = (task_tty, msg) ∷ s.outbox }
  assert 50 ((driver msg).m3i2 == msg.m3i2)
  pure (some (driver msg).m3i2)

-- `i_size` follows the position if that went past it.
unfoldable pub extend : ℕ → ℕ → Code Fs (Unit {0})
extend f p = do
  s ← get
  if ltb (s.inode_table p).i_size (s.f_desc_table f).fd_pos
      then (do set_inode p λ r. record r { i_size = (s.f_desc_table f).fd_pos }; sync_inode p)
      else pure tt

-- The transfer between `pos` and `pos_end`: the sectors from that of the one to that of the other.
unfoldable pub rw_pieces : Bool → Message → Inode → ℕ → ℕ → ℕ → Code Fs ℕ
rw_pieces is_read msg r f pos pos_end s =
    let first = r.i_start_sect + pos / sector_size in
    let last = r.i_start_sect + pos_end / sector_size in
    let chunk = min (last + 1 - first) (fsbuf_size / sector_size) in
    let t : Transfer = record {
      is_read = is_read;
      src = msg.source;
      buf = msg.m3p2;
      chunk = chunk;
      i_dev = r.i_dev;
      file_desc = f;
    } in
    rw_loop (last + 1 - first) t first last (pos % sector_size) 0 msg.m3i2 s

-- A file.
unfoldable pub rw_file : ℕ → ℕ → Code Fs (Option ℕ)
rw_file f p = do
  s ← get
  let r = s.inode_table p
  let msg = s.fs_msg
  let pos = (s.f_desc_table f).fd_pos
  let len = msg.m3i2
  assert 55 (r.i_mode == i_regular || r.i_mode == i_directory)
  assert 56 (msg.type == read_type || msg.type == write_type)
  let is_read = msg.type == read_type
  let pos_end =
      if is_read then min (pos + len) r.i_size else min (pos + len) (r.i_nr_sects * sector_size)
  bytes_rw ← rw_pieces is_read msg r f pos pos_end
  extend f p
  pure (some bytes_rw)

-- do_rdwt from the assert on the inode on, for descriptor `f`.
unfoldable pub rdwt_inode : (Message → Message) → ℕ → ℕ → Code Fs (Option ℕ)
rdwt_inode driver f p = do
  s ← get
  assert 32 (ltb p nr_inode)
  if bit_and (s.inode_table p).i_mode 0xF000 == i_char_special
      then forward driver (s.inode_table p).i_start_sect
      else rw_file f p

-- do_rdwt from its first assert on.
unfoldable pub rdwt_desc : (Message → Message) → ℕ → Code Fs (Option ℕ)
rdwt_desc driver f = do
  s ← get
  assert 22 (ltb f nr_file_desc)
  if (s.f_desc_table f).fd_mode / 2 % 2 == 0
      then pure none
      else with_some (s.f_desc_table f).fd_inode (rdwt_inode driver f)

-- do_rdwt: the count, or `none` for -1. `driver` is the answer of the terminals to a message.
unfoldable pub do_rdwt : (Message → Message) → Code Fs (Option ℕ)
do_rdwt driver = do
  s ← get
  with_some ((s.kernel.proc_table s.pcaller).filp s.fs_msg.m3i1) (rdwt_desc driver)
