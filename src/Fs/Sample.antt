-- ===== src/Fs/Sample.antt =====
-- A small file system: one device, whose inode map has the five bits that mkfs sets.
use dlos.Prelude.{ℕ, none, some, Option, [], update, if◌then◌else◌, ◌==◌}
use dlos.Kernel.Sample.{all_idle, idle_proc, kernel}
use dlos.Kernel.Proc.{Table, reset_msg}
use dlos.Fs.State.{SuperBlock, Inode, Fs}

abbrev pub super : SuperBlock
super = record {
  magic = 0x111;
  nr_inodes = 4096;
  nr_sects = 8192;
  nr_imap_sects = 1;
  nr_smap_sects = 3;
  n_1st_sect = 262;
  nr_inode_sects = 256;
  root_inode = 1;
  inode_size = 32;
  inode_isize_off = 4;
  inode_start_off = 8;
  dir_ent_size = 16;
  dir_ent_inode_off = 0;
  dir_ent_fname_off = 4;
  sb_dev = 0x320;
}

abbrev pub inode : Inode
inode = record {
  i_mode = 0x8000;
  i_size = 100;
  i_start_sect = 300;
  i_nr_sects = 2048;
  i_dev = 0x320;
  i_cnt = 1;
  i_num = 7;
}

-- Process 9 has file descriptor 2 twice.
abbrev pub child_files : ℕ → Option ℕ
child_files i = if i == 0 then some 2 else if i == 3 then some 2 else none

abbrev pub table : Table
table = update all_idle 9 (record idle_proc { filp = child_files })

abbrev pub fs : Fs
fs = record {
  kernel = kernel table;
  memory = λ _. 0;
  disk = λ _ a. if a == 1024 then 0x1F else 0;
  inode_table = λ _. inode;
  super_block = λ _. super;
  f_desc_table = λ _. record { fd_mode = 2; fd_pos = 0; fd_cnt = 2; fd_inode = some 4 };
  root_inode = 0;
  pcaller = 4;
  fs_msg = record reset_msg { m3i2 = 9 };
  outbox = [];
}
