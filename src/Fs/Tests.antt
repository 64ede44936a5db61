-- ===== src/Fs/Tests.antt =====
-- The theorems on the file system at a small disk.
use dlos.Prelude.{ℕ, ◌≡◌, ◌⊎◌, ◌<◌, ◌+◌, ◌*◌, refl, none, some, [], ◌∷◌, arith, if◌then◌else◌, ◌==◌}
use dlos.Const.{sector_size}
use dlos.Kernel.Proc.{reset_msg, done}
use dlos.Const.{read_type}
use dlos.Kernel.Ipc.Base.{ldt_seg_linear}
use dlos.Fs.ReadWrite.{rw_file}
use dlos.Fs.ReadWrite.End.{rw_file-past_end}
use dlos.Fs.Sample.{inode, child_files, fs}
use dlos.Fs.State.{Fs, nr_files}
use dlos.Fs.Inode.{find_super_block, load_inode, sync_inode}
use dlos.Fs.Inode.Sync.{FitsDisk, SameFields, load_inode-sync_inode}
use dlos.Fs.Alloc.{bit_of, set_bit, alloc_imap_bit}
use dlos.Fs.Alloc.Imap.{alloc_imap_bit-set}
use dlos.Fs.Path.{strip_path}
use dlos.Fs.Path.Strip.{strip_path-take}
use dlos.Fs.Share.{fs_fork}
use dlos.Fs.Share.Counts.{references, inode_references, fd_inodes, Shared, fs_fork-Shared}

inode-FitsDisk : FitsDisk inode
inode-FitsDisk = record {
  mode = omega arith;
  size = omega arith;
  start = omega arith;
  sects = omega arith;
}

load_inode-sync_inode_example :
    (s' s'' : Fs) × (sync_inode 4 fs ≡ done tt s')
    × (load_inode 8 0x320 7 s' ≡ done (some 8) s'')
    × SameFields inode (s''.inode_table 8)
    × ((s''.inode_table 8).i_cnt ≡ 1)
unfolding find_super_block
load_inode-sync_inode_example = load_inode-sync_inode 4 8 0 fs inode-FitsDisk refl

alloc_imap_bit-set_example :
    (s' : Fs) × (((alloc_imap_bit 0x320 fs ≡ done 0 s')
        × ((j : ℕ) → j < sector_size → fs.disk 0x320 (1024 + j) ≡ 255)
        × (s'.disk ≡ fs.disk))
      ⊎ ((j : ℕ) × (k : ℕ) × (j < sector_size)
          × (k < 8)
          × (bit_of (fs.disk 0x320 (1024 + j)) k ≡ 0)
          × (alloc_imap_bit 0x320 fs ≡ done (j * 8 + k) s')
          × ((a : ℕ)
              → s'.disk 0x320 a
                ≡ (if a == 1024 + j then set_bit (fs.disk 0x320 a) k else fs.disk 0x320 a))))
unfolding find_super_block
alloc_imap_bit-set_example = alloc_imap_bit-set 0x320 0 fs refl (omega arith) bytes
  where
    bytes : (a : ℕ) → fs.disk 0x320 a < 256
    bytes a = ground arith

strip_path-take_example : strip_path (47 ∷ 97 ∷ 47 ∷ []) ≡ none
strip_path-take_example = strip_path-take (47 ∷ 97 ∷ 47 ∷ [])

fs_fork-Shared_example :
    (s' : Fs) × (fs_fork fs ≡ done 0 s')
    × Shared fs s'
        (references nr_files 0 child_files)
        (inode_references nr_files 0 child_files (fd_inodes fs))
fs_fork-Shared_example = fs_fork-Shared fs (λ i f e. (4, refl))

-- A read of 200 bytes in a file of 100.
abbrev reading : Fs
reading = record fs {
  fs_msg = record reset_msg { source = 4; type = read_type; m3i2 = 200; m3p2 = 0x9000 };
}

rw_file-past_end_example :
    (s' : Fs) × (rw_file 2 4 reading ≡ done (some 200) s') × ((s'.inode_table 4).i_size ≡ 200)
unfolding find_super_block ldt_seg_linear
rw_file-past_end_example =
    rw_file-past_end 2 4 0 reading refl refl refl refl (omega arith) (omega arith) (λ h. refl)
      (omega arith)
