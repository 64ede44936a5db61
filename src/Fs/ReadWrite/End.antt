-- ===== src/Fs/ReadWrite/End.antt =====
-- A read past the end of a file, in do_rdwt of fs/read_write.c.
use dlos.Prelude.{
  ℕ, zero, suc, ◌+◌, ◌-◌, ◌*◌, ◌/◌, ◌%◌, ◌^◌, ◌≤◌, ◌<◌, ◌≡◌, refl, true, false, Option, some, min,
  ltb, leb, ◌==◌, update, update_self, arith, ap, ◌∙◌,
}
use dlos.Const.{sector_size, nr_tasks, nr_native_procs, read_type}
use dlos.Kernel.Proc.{Message, Code, done, pure, ◌>>=◌, ◌>>◌, >>=-done}
use dlos.Kernel.Ipc.Base.{ldt_seg_linear, linear, va2la}
use dlos.Kernel.Ipc.Valid.{va2la-linear}
use dlos.Fs.State.{
  Inode, FileDesc, Fs, nr_super_block, fsbuf, i_regular, in_kernel, copied, set_file_desc,
}
use dlos.Fs.Inode.{find_super_block}
use dlos.Fs.Inode.Sync.{synced, sync_inode_run}
use dlos.Fs.ReadWrite.{Transfer, phys_copy, rw_round, rw_loop, rw_pieces, extend, rw_file}

-- Addresses of process `src` are translated.
abbrev pub IsFlat : Fs → ℕ → Type 0
IsFlat s src =
    src < nr_tasks + nr_native_procs → ldt_seg_linear (s.kernel.proc_table src).ldt_rw ≡ 0

-- What a round of a read changes besides memory.
record Advanced (s s' : Fs) (f bytes : ℕ) : Type 0 where
  inodes : s'.inode_table ≡ s.inode_table
  supers : s'.super_block ≡ s.super_block
  pos : (s'.f_desc_table f).fd_pos ≡ (s.f_desc_table f).fd_pos + bytes

translate :
    (s : Fs) (src va : ℕ)
    → IsFlat s src
    → va < 2 ^ 32
    → in_kernel (va2la src va) s ≡ done (linear s.kernel.proc_table src va) s
translate s src va flat small =
    let run = va2la-linear s.kernel src va flat small in ground (arith, run)

rw_round-Advanced :
    (t : Transfer) (i off bytes_rw bytes : ℕ) (s : Fs)
    → t.is_read ≡ true
    → IsFlat s t.src
    → t.buf + bytes_rw < 2 ^ 32
    → off < 2 ^ 30
    → (s' : Fs) × (rw_round t i off bytes_rw bytes s ≡ done tt s') × Advanced s s' t.file_desc bytes
unfolding rw_round
rw_round-Advanced t i off bytes_rw bytes s e flat small off_small =
    let la_to = linear s.kernel.proc_table t.src (t.buf + bytes_rw) in
    let la_from = linear s.kernel.proc_table t.src (fsbuf + off) in
    let s1 : Fs = record s {
      memory =
          copied (s.disk t.i_dev) (i * sector_size % 2 ^ 32) s.memory fsbuf (t.chunk * sector_size);
    } in
    let s2 : Fs = record s1 { memory = copied s1.memory la_from s1.memory la_to bytes } in
    let moved : FileDesc = record (s.f_desc_table t.file_desc) {
      fd_pos = (s.f_desc_table t.file_desc).fd_pos + bytes;
    } in
    let first = translate s1 t.src (t.buf + bytes_rw) flat small in
    let second = translate s1 t.src (fsbuf + off) flat (omega arith) in
    rw e (
      record s2 { f_desc_table = update s.f_desc_table t.file_desc moved },
      >>=-done
          (do
            to ← in_kernel (va2la t.src (t.buf + bytes_rw))
            from ← in_kernel (va2la t.src (fsbuf + off))
            phys_copy to from bytes)
          (λ _. set_file_desc t.file_desc λ d. record d { fd_pos = d.fd_pos + bytes })
          (>>=-done (in_kernel (va2la t.src (t.buf + bytes_rw))) _ first
            ∙ >>=-done (in_kernel (va2la t.src (fsbuf + off))) _ second),
      record {
        inodes = refl;
        supers = refl;
        pos = ap (λ (d : FileDesc). d.fd_pos) (update_self s.f_desc_table t.file_desc moved);
      },
    )

-- The loop, where one round is enough.
rw_loop_once :
    (n last off len : ℕ) (t : Transfer) (i : ℕ) (s : Fs)
    → n ≡ 1
    → last ≡ i
    → t.chunk ≡ 1
    → off ≡ 0
    → len ≤ sector_size
    → t.is_read ≡ true
    → IsFlat s t.src
    → t.buf < 2 ^ 32
    → (s' : Fs) × (rw_loop n t i last off 0 len s ≡ done len s') × Advanced s s' t.file_desc len
unfolding rw_loop
rw_loop_once zero last off len t i s n_one l c o h r flat small = absurd (omega arith)
rw_loop_once (suc (suc n)) last off len t i s n_one l c o h r flat small = absurd (omega arith)
rw_loop_once (suc zero) last off len t i s n_one l c o h r flat small =
    let bytes = min len (t.chunk * sector_size - off) in
    let all : bytes ≡ len = ground arith in
    let (s', run, adv) = rw_round-Advanced t i off 0 bytes s r flat (omega arith) (omega arith) in
    let here : leb i last ≡ true = ground arith in
    let over : leb (i + t.chunk) last ≡ false = ground arith in
    let total : 0 + bytes ≡ len = omega (arith, all) in
    (
      s',
      rw here (>>=-done (rw_round t i off 0 bytes) _ run ∙ rw over (ap (λ b. done b s') total)),
      record {
        inodes = adv.inodes;
        supers = adv.supers;
        pos = adv.pos ∙ ap (λ b. (s.f_desc_table t.file_desc).fd_pos + b) all;
      },
    )

extend_size :
    (f p i : ℕ) (s : Fs)
    → find_super_block nr_super_block 0 (s.inode_table p).i_dev s.super_block ≡ some i
    → (s.inode_table p).i_size < (s.f_desc_table f).fd_pos
    → (s' : Fs) × (extend f p s ≡ done tt s')
      × ((s'.inode_table p).i_size ≡ (s.f_desc_table f).fd_pos)
unfolding extend
extend_size f p i s e h =
    let grown : Inode = record (s.inode_table p) { i_size = (s.f_desc_table f).fd_pos } in
    let s1 : Fs = record s { inode_table = update s.inode_table p grown } in
    let self : s1.inode_table p ≡ grown = update_self s.inode_table p grown in
    let test : ltb (s.inode_table p).i_size (s.f_desc_table f).fd_pos ≡ true = ground arith in
    let super : find_super_block nr_super_block 0 (s1.inode_table p).i_dev s1.super_block ≡ some i =
      ap (λ (r : Inode). find_super_block nr_super_block 0 r.i_dev s.super_block) self ∙ e in
    (
      synced s1 (s1.super_block i) (s1.inode_table p),
      rw test (sync_inode_run p i s1 super),
      ap (λ (r : Inode). r.i_size) self,
    )

abbrev rest_of_read : ℕ → ℕ → ℕ → Code Fs (Option ℕ)
rest_of_read f p bytes_rw = do extend f p; pure (some bytes_rw)

rw_file_read :
    (f p : ℕ) (s : Fs)
    → (s.inode_table p).i_mode ≡ i_regular
    → s.fs_msg.type ≡ read_type
    → rw_file f p s
      ≡ (rw_pieces true s.fs_msg
              (s.inode_table p)
              f
              (s.f_desc_table f).fd_pos
              (min ((s.f_desc_table f).fd_pos + s.fs_msg.m3i2) (s.inode_table p).i_size)
            >>= rest_of_read f p)
          s
unfolding rw_file
rw_file_read f p s mode type =
    let is_read : (s.fs_msg.type == read_type) ≡ true = ground arith in
    let regular : ((s.inode_table p).i_mode == i_regular) ≡ true = ground arith in
    rw (regular, is_read) refl

super_after :
    (s s1 : Fs) (p i : ℕ) {f bytes : ℕ}
    → Advanced s s1 f bytes
    → find_super_block nr_super_block 0 (s.inode_table p).i_dev s.super_block ≡ some i
    → find_super_block nr_super_block 0 (s1.inode_table p).i_dev s1.super_block ≡ some i
super_after s s1 p i adv super =
    ap (λ (g : ℕ → Inode). find_super_block nr_super_block 0 (g p).i_dev s1.super_block) adv.inodes
    ∙ ap (find_super_block nr_super_block 0 (s.inode_table p).i_dev) adv.supers
    ∙ super

size_after :
    (s s1 : Fs) (p bytes f : ℕ)
    → Advanced s s1 f bytes
    → (s.f_desc_table f).fd_pos ≡ 0
    → (s.inode_table p).i_size < bytes
    → (s1.inode_table p).i_size < (s1.f_desc_table f).fd_pos
size_after s s1 p bytes f adv pos short =
    let size : (s1.inode_table p).i_size ≡ (s.inode_table p).i_size =
      ap (λ (g : ℕ → Inode). (g p).i_size) adv.inodes in
    omega (arith, size, adv.pos, pos, short)

-- One piece is enough for a read from the start that ends in the first sector.
rw_pieces_once :
    (f : ℕ) (s : Fs) (r : Inode) (msg : Message) (at pos_end : ℕ)
    → at ≡ 0
    → pos_end < sector_size
    → msg.m3i2 ≤ sector_size
    → IsFlat s msg.source
    → msg.m3p2 < 2 ^ 32
    → (s' : Fs) × (rw_pieces true msg r f at pos_end s ≡ done msg.m3i2 s')
      × Advanced s s' f msg.m3i2
unfolding rw_pieces
rw_pieces_once f s r msg at pos_end start low h flat small =
    let first = r.i_start_sect + at / sector_size in
    let last = r.i_start_sect + pos_end / sector_size in
    let t : Transfer = record {
      is_read = true;
      src = msg.source;
      buf = msg.m3p2;
      chunk = min (last + 1 - first) 2048;
      i_dev = r.i_dev;
      file_desc = f;
    } in
    rw_loop_once (last + 1 - first) last (at % sector_size) msg.m3i2 t first s (omega arith)
      (omega arith) (omega arith) (omega arith) h refl flat small

-- A read of `len` bytes, at most a sector, from the start of a regular file that is shorter: it
-- returns `len` all the same, and the file is `len` bytes long afterwards.
pub rw_file-past_end :
    (f p i : ℕ) (s : Fs)
    → find_super_block nr_super_block 0 (s.inode_table p).i_dev s.super_block ≡ some i
    → (s.inode_table p).i_mode ≡ i_regular
    → s.fs_msg.type ≡ read_type
    → (s.f_desc_table f).fd_pos ≡ 0
    → (s.inode_table p).i_size < s.fs_msg.m3i2
    → s.fs_msg.m3i2 ≤ sector_size
    → IsFlat s s.fs_msg.source
    → s.fs_msg.m3p2 < 2 ^ 32
    → (s' : Fs) × (rw_file f p s ≡ done (some s.fs_msg.m3i2) s')
      × ((s'.inode_table p).i_size ≡ s.fs_msg.m3i2)
rw_file-past_end f p i s super mode type pos short h flat small =
    let r = s.inode_table p in
    let len = s.fs_msg.m3i2 in
    let at = (s.f_desc_table f).fd_pos in
    let pos_end = min (at + len) r.i_size in
    let (s1, run1, adv) =
      rw_pieces_once f s r s.fs_msg at pos_end pos (omega (arith, short, h)) h flat small in
    let (s2, run2, grown) =
      extend_size f p i s1 (super_after s s1 p i adv super)
        (size_after s s1 p len f adv pos short) in
    (
      s2,
      rw_file_read f p s mode type
          ∙ >>=-done (rw_pieces true s.fs_msg r f at pos_end) (rest_of_read f p) run1
          ∙ >>=-done (extend f p) (λ _. pure (some len)) run2,
      grown ∙ adv.pos ∙ omega (arith, pos),
    )
