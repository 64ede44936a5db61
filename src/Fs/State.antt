-- ===== src/Fs/State.antt =====
-- The state of the task of the file system (include/sys/fs.h, include/sys/global.h). A pointer to an
-- inode or a file descriptor is its index in inode_table or f_desc_table.
use dlos.Prelude.{
  ℕ, ◌+◌, ◌-◌, ◌*◌, ◌/◌, ◌%◌, ◌^◌, Option, ltb, leb, ◌&&◌, ◌==◌, if◌then◌else◌, List, update,
}
use dlos.Const.{sector_size}
use dlos.Kernel.Proc.{Message, Kernel, Code, done, stop, modify}

-- struct super_block: what a device holds, and the device.
pub record SuperBlock : Type 0 where
  pub magic : ℕ
  pub nr_inodes : ℕ
  pub nr_sects : ℕ
  pub nr_imap_sects : ℕ
  pub nr_smap_sects : ℕ
  pub n_1st_sect : ℕ
  pub nr_inode_sects : ℕ
  pub root_inode : ℕ
  pub inode_size : ℕ
  pub inode_isize_off : ℕ
  pub inode_start_off : ℕ
  pub dir_ent_size : ℕ
  pub dir_ent_inode_off : ℕ
  pub dir_ent_fname_off : ℕ
  pub sb_dev : ℕ

pub record Inode : Type 0 where
  pub i_mode : ℕ
  pub i_size : ℕ
  pub i_start_sect : ℕ
  pub i_nr_sects : ℕ
  pub i_dev : ℕ
  pub i_cnt : ℕ
  pub i_num : ℕ

pub record FileDesc : Type 0 where
  pub fd_mode : ℕ
  pub fd_pos : ℕ
  pub fd_cnt : ℕ
  pub fd_inode : Option ℕ

-- `disk` holds the bytes of each device, by their position; `memory` is the memory by linear address,
-- with `fsbuf` in it; `outbox` the messages sent to drivers, the last first.
pub record Fs : Type 0 where
  pub kernel : Kernel
  pub memory : ℕ → ℕ
  pub disk : ℕ → ℕ → ℕ
  pub inode_table : ℕ → Inode
  pub super_block : ℕ → SuperBlock
  pub f_desc_table : ℕ → FileDesc
  pub root_inode : ℕ
  pub pcaller : ℕ
  pub fs_msg : Message
  pub outbox : List (ℕ × Message)

abbrev pub nr_inode : ℕ
nr_inode = 64

abbrev pub nr_file_desc : ℕ
nr_file_desc = 64

abbrev pub nr_files : ℕ
nr_files = 64

abbrev pub nr_super_block : ℕ
nr_super_block = 8

-- The address of `fsbuf`, and FSBUF_SIZE.
abbrev pub fsbuf : ℕ
fsbuf = 0x600000

abbrev pub fsbuf_size : ℕ
fsbuf_size = 0x100000

abbrev pub i_regular : ℕ
i_regular = 0x8000

abbrev pub i_directory : ℕ
i_directory = 0x4000

abbrev pub i_char_special : ℕ
i_char_special = 0x2000

abbrev pub root_inode_nr : ℕ
root_inode_nr = 1

abbrev pub in_kernel : {A : Type 0} → Code Kernel A → Code Fs A
in_kernel f s = elim (f s.kernel) [ done a k ↦ done a (record s { kernel = k }) | stop e ↦ stop e ]

abbrev pub set_inode : ℕ → (Inode → Inode) → Code Fs (Unit {0})
set_inode p f = modify λ s. record s { inode_table = update s.inode_table p (f (s.inode_table p)) }

abbrev pub set_file_desc : ℕ → (FileDesc → FileDesc) → Code Fs (Unit {0})
set_file_desc p f =
    modify λ s. record s { f_desc_table = update s.f_desc_table p (f (s.f_desc_table p)) }

-- `n` bytes from `from` of one space to `to` of another.
abbrev pub copied : (ℕ → ℕ) → ℕ → (ℕ → ℕ) → ℕ → ℕ → ℕ → ℕ
copied source from target to n a =
    if leb to a && ltb a (to + n) then source (from + (a - to)) else target a

-- rw_sector(DEV_READ, dev, pos, bytes, TASK_FS, fsbuf): the driver fills the buffer. `dev` is a device
-- with a driver in dd_map, so the assert of rw_sector holds; a disk is known by the number of its
-- device, of which MINOR and the driver are parts.
abbrev pub read_disk : ℕ → ℕ → ℕ → Code Fs (Unit {0})
read_disk dev pos bytes =
    modify λ s. record s { memory = copied (s.disk dev) (pos % 2 ^ 32) s.memory fsbuf bytes }

-- rw_sector(DEV_WRITE, dev, pos, bytes, TASK_FS, fsbuf)
abbrev pub write_disk : ℕ → ℕ → ℕ → Code Fs (Unit {0})
write_disk dev pos bytes = modify λ s. record s {
  disk = update s.disk dev (copied s.memory fsbuf (s.disk dev) (pos % 2 ^ 32) bytes);
}

abbrev pub rd_sect : ℕ → ℕ → Code Fs (Unit {0})
rd_sect dev sect_nr = read_disk dev (sect_nr * sector_size) sector_size

abbrev pub wr_sect : ℕ → ℕ → Code Fs (Unit {0})
wr_sect dev sect_nr = write_disk dev (sect_nr * sector_size) sector_size

-- A u32 in memory, the low byte first.
abbrev pub read32 : (ℕ → ℕ) → ℕ → ℕ
read32 m a = m a + m (a + 1) * 2 ^ 8 + m (a + 2) * 2 ^ 16 + m (a + 3) * 2 ^ 24

abbrev pub write32 : (ℕ → ℕ) → ℕ → ℕ → ℕ → ℕ
write32 m a v b =
    if b == a
    then v % 2 ^ 8
    else if b == a + 1
    then v / 2 ^ 8 % 2 ^ 8
    else if b == a + 2
    then v / 2 ^ 16 % 2 ^ 8
    else if b == a + 3
    then v / 2 ^ 24 % 2 ^ 8
    else m b

abbrev pub set_memory : ((ℕ → ℕ) → ℕ → ℕ) → Code Fs (Unit {0})
set_memory f = modify λ s. record s { memory = f s.memory }
