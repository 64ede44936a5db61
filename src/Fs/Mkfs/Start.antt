-- ===== src/Fs/Mkfs/Start.antt =====
-- init_fs of fs/main.c: the file system that mkfs makes is loaded, and its root directory found.
use dlos.Prelude.{
  ℕ, ◌+◌, ◌*◌, ◌%◌, ◌^◌, ◌<◌, ◌≡◌, refl, sym, ◌==◌, none, ◌∷◌, update, subst, arith, ap, ◌∙◌,
}
use dlos.Const.{sector_size, task_hd, dev_open}
use dlos.Kernel.Proc.{Code, done, reset_msg, modify, assert, ◌>>◌, ◌>>=◌, >>=-done}
use dlos.Fs.State.{Fs, nr_inode, nr_super_block, fsbuf, copied}
use dlos.Fs.Inode.{find_super_block, get_super_block, inode_sect, find_inode, get_inode}
use dlos.Fs.Inode.Sync.{get_super_block_run}
use dlos.Fs.Files.{with_some}
use dlos.Fs.Mkfs.{
  root_dev, magic_v1, new_super_block, mkfs, loaded_super, read_super_block, clear_tables, init_fs,
}
use dlos.Fs.Mkfs.Sectors.{super_buffer}
use dlos.Fs.Mkfs.Made.{mkfs-Made, inodes_buffer}
use dlos.Fs.Mkfs.Root.{
  SameSuper, SameBuffer, loaded_super-SameSuper, read-SameBuffer, load_inode-run, first_slot,
  first_inode, read_super_block-run, get_inode-free, IsRoot, inode-IsRoot,
}

-- init_fs on a device of less than 2 ^ 32 sectors, from any state of the tables and of the disk: it
-- returns; the super block in memory is the one that mkfs computes from the size, for the root
-- device; and the root inode is a directory of four entries in the first data sector.
pub init_fs-IsRoot :
    (size : ℕ) (s : Fs)
    → size < 2 ^ 32
    → (s' : Fs) × (init_fs size s ≡ done tt s')
      × SameSuper (new_super_block size) (s'.super_block 0)
      × ((s'.super_block 0).sb_dev ≡ root_dev)
      × IsRoot (s'.inode_table s'.root_inode) (new_super_block size)
unfolding init_fs find_super_block new_super_block
init_fs-IsRoot size s small =
    let sb = new_super_block size in
    let s0 : Fs = record (clear_tables s) {
      outbox =
          (task_hd, record reset_msg { type = dev_open; m3i4 = 0x20 }) ∷ (clear_tables s).outbox;
    } in
    let (s1, run1, made) = mkfs-Made size s0 small in
    let d = s1.disk root_dev in
    let m2 = copied d 512 s1.memory fsbuf sector_size in
    let s3 : Fs = record s1 {
      memory = m2;
      super_block = update s1.super_block 0 (loaded_super m2 root_dev);
    } in
    let same =
      loaded_super-SameSuper size root_dev m2 s0.memory small
        (read-SameBuffer d s1.memory (super_buffer sb s0.memory) 1 (omega arith) made.super) in
    let run3 =
      read_super_block-run s1
        (ap (λ t. find_super_block nr_super_block 0 0 t) made.supers ∙ first_slot s) in
    let free_entry =
      ap (λ t. find_inode nr_inode 0 none root_dev 1 t) made.inodes ∙ first_inode s in
    let (s4, run4, full, supers) = load_inode-run 0 root_dev 1 0 s3 refl in
    let next : Code Fs (Unit {0}) = get_inode root_dev 1 >>= λ root.
    with_some root λ p. modify λ z. record z { root_inode = p } in
    let place = inode_sect (s3.super_block 0) 1 in
    let sect : place ≡ 2 + sb.nr_imap_sects + sb.nr_smap_sects =
      omega (arith, same.nr_imap_sects, same.nr_smap_sects) in
    let m5 = copied d (place * sector_size % 2 ^ 32) m2 fsbuf sector_size in
    let read : SameBuffer m5 (inodes_buffer sb made.buffer) =
      read-SameBuffer d m2 (inodes_buffer sb made.buffer) place (omega (arith, sect))
        (λ i h. ap (λ n. d (n * sector_size + i)) sect ∙ made.inode i h) in
    (
      record s4 { root_inode = 0 },
      >>=-done (mkfs size) _ run1
          ∙ >>=-done (read_super_block root_dev) _ run3
          ∙ >>=-done (get_super_block root_dev) _ (get_super_block_run root_dev 0 s3 refl)
          ∙ ap (λ b. (assert 124 b >> next) s3) (ap (λ x. x == magic_v1) same.magic)
          ∙ >>=-done (get_inode root_dev 1) _ (get_inode-free s3 free_entry ∙ run4),
      subst (SameSuper sb) (sym (ap (λ t. t 0) supers)) same,
      ap (λ t. (t 0).sb_dev) supers,
      subst (λ r. IsRoot r sb) (sym full)
          (inode-IsRoot sb m5 made.buffer (s3.inode_table 0) (omega arith) read),
    )
