-- ===== src/Fs/Mkfs/Root.antt =====
-- What read_super_block and get_inode of fs/main.c load from the sectors that mkfs wrote.
use dlos.Prelude.{
  ℕ, ◌+◌, ◌-◌, ◌*◌, ◌%◌, ◌^◌, ◌≤◌, ◌<◌, ◌≡◌, refl, true, ltb, leb, ◌&&◌, none, some, update,
  update_self, arith, ap, ◌∙◌,
}
use dlos.Const.{sector_size}
use dlos.Kernel.Proc.{done, >>=-done}
use dlos.Fs.State.{
  SuperBlock, Inode, Fs, nr_inode, nr_super_block, fsbuf, i_directory, copied, read32,
}
use dlos.Fs.Inode.{
  find_super_block, get_super_block, free, find_inode, inode_sect, inode_addr, loaded, load_inode,
  fill_slot, get_inode,
}
use dlos.Fs.Inode.Sync.{get_super_block_run}
use dlos.Fs.Files.{nr_default_file_sects}
use dlos.Fs.Mkfs.{
  root_dev, no_dev, new_super_block, loaded_super, keep_super_block, read_super_block, clear_tables,
}
use dlos.Fs.Mkfs.Sectors.{super_buffer}
use dlos.Fs.Mkfs.Made.{inodes_buffer}

-- All words of the super block.
pub record SameSuper (p q : SuperBlock) : Type 0 where
  pub magic : q.magic ≡ p.magic
  pub nr_inodes : q.nr_inodes ≡ p.nr_inodes
  pub nr_sects : q.nr_sects ≡ p.nr_sects
  pub nr_imap_sects : q.nr_imap_sects ≡ p.nr_imap_sects
  pub nr_smap_sects : q.nr_smap_sects ≡ p.nr_smap_sects
  pub n_1st_sect : q.n_1st_sect ≡ p.n_1st_sect
  pub nr_inode_sects : q.nr_inode_sects ≡ p.nr_inode_sects
  pub root_inode : q.root_inode ≡ p.root_inode
  pub inode_size : q.inode_size ≡ p.inode_size
  pub inode_isize_off : q.inode_isize_off ≡ p.inode_isize_off
  pub inode_start_off : q.inode_start_off ≡ p.inode_start_off
  pub dir_ent_size : q.dir_ent_size ≡ p.dir_ent_size
  pub dir_ent_inode_off : q.dir_ent_inode_off ≡ p.dir_ent_inode_off
  pub dir_ent_fname_off : q.dir_ent_fname_off ≡ p.dir_ent_fname_off

-- The buffer agrees with what was in it when its sector was written.
abbrev pub SameBuffer : (ℕ → ℕ) → (ℕ → ℕ) → Type 0
SameBuffer m m' = (a : ℕ) → fsbuf ≤ a → a < fsbuf + sector_size → m a ≡ m' a

same_word :
    (m m' : ℕ → ℕ) (a : ℕ)
    → SameBuffer m m'
    → fsbuf ≤ a
    → a + 4 ≤ fsbuf + sector_size
    → read32 m a ≡ read32 m' a
same_word m m' a same l h = omega (
  arith,
  same a l (omega arith),
  same (a + 1) (omega arith) (omega arith),
  same (a + 2) (omega arith) (omega arith),
  same (a + 3) (omega arith) (omega arith),
)

pub loaded_super-SameSuper :
    (size dev : ℕ) (m m0 : ℕ → ℕ)
    → size < 2 ^ 32
    → SameBuffer m (super_buffer (new_super_block size) m0)
    → SameSuper (new_super_block size) (loaded_super m dev)
unfolding new_super_block
loaded_super-SameSuper size dev m m0 small same = record {
  magic = word fsbuf (omega arith) (omega arith);
  nr_inodes = word (fsbuf + 4) (omega arith) (omega arith);
  nr_sects = word (fsbuf + 8) (omega arith) (omega arith) ∙ omega arith;
  nr_imap_sects = word (fsbuf + 12) (omega arith) (omega arith);
  nr_smap_sects = word (fsbuf + 16) (omega arith) (omega arith) ∙ omega arith;
  n_1st_sect = word (fsbuf + 20) (omega arith) (omega arith) ∙ omega arith;
  nr_inode_sects = word (fsbuf + 24) (omega arith) (omega arith);
  root_inode = word (fsbuf + 28) (omega arith) (omega arith);
  inode_size = word (fsbuf + 32) (omega arith) (omega arith);
  inode_isize_off = word (fsbuf + 36) (omega arith) (omega arith);
  inode_start_off = word (fsbuf + 40) (omega arith) (omega arith);
  dir_ent_size = word (fsbuf + 44) (omega arith) (omega arith);
  dir_ent_inode_off = word (fsbuf + 48) (omega arith) (omega arith);
  dir_ent_fname_off = word (fsbuf + 52) (omega arith) (omega arith);
}
  where
    word :
        (a : ℕ)
        → fsbuf ≤ a
        → a + 4 ≤ fsbuf + sector_size
        → read32 m a ≡ read32 (super_buffer (new_super_block size) m0) a
    word a l h = same_word m (super_buffer (new_super_block size) m0) a same l h

-- A sector that is read into the buffer.
pub read-SameBuffer :
    (d m m' : ℕ → ℕ) (n : ℕ)
    → n < 2 ^ 23
    → ((i : ℕ) → i < sector_size → d (n * sector_size + i) ≡ m' (fsbuf + i))
    → SameBuffer (copied d (n * sector_size % 2 ^ 32) m fsbuf sector_size) m'
read-SameBuffer d m m' n h same a l u =
    let inside : (leb fsbuf a && ltb a (fsbuf + sector_size)) ≡ true = ground arith in
    let pos : n * sector_size % 2 ^ 32 ≡ n * sector_size = omega arith in
    let back : fsbuf + (a - fsbuf) ≡ a = omega arith in
    rw inside (ap (λ p. d (p + (a - fsbuf))) pos ∙ same (a - fsbuf) (omega arith) ∙ ap m' back)

-- load_inode of a device with a super block.
pub load_inode-run :
    (q dev num i : ℕ) (s : Fs)
    → find_super_block nr_super_block 0 dev s.super_block ≡ some i
    → (s' : Fs) × (load_inode q dev num s ≡ done (some q) s')
      × (s'.inode_table q
          ≡ loaded
              (copied
                (s.disk dev)
                (inode_sect (s.super_block i) num * sector_size % 2 ^ 32)
                s.memory
                fsbuf
                sector_size)
              (inode_addr num)
              (record (s.inode_table q) { i_dev = dev; i_num = num; i_cnt = 1 }))
      × (s'.super_block ≡ s.super_block)
unfolding load_inode
load_inode-run q dev num i s e =
    let fresh : Inode = record (s.inode_table q) { i_dev = dev; i_num = num; i_cnt = 1 } in
    let s1 : Fs = record s { inode_table = update s.inode_table q fresh } in
    let pos = inode_sect (s.super_block i) num * sector_size % 2 ^ 32 in
    let m = copied (s.disk dev) pos s.memory fsbuf sector_size in
    let full = loaded m (inode_addr num) (s1.inode_table q) in
    (
      record s1 { memory = m; inode_table = update s1.inode_table q full },
      >>=-done (get_super_block dev) _ (get_super_block_run dev i s1 e),
      update_self s1.inode_table q full
          ∙ ap (loaded m (inode_addr num)) (update_self s.inode_table q fresh),
      refl,
    )

pub first_slot :
    (s : Fs) → find_super_block nr_super_block 0 no_dev (clear_tables s).super_block ≡ some 0
unfolding find_super_block clear_tables
first_slot s = refl

pub first_inode :
    (s : Fs) → find_inode nr_inode 0 none root_dev 1 (clear_tables s).inode_table ≡ free (some 0)
unfolding find_inode clear_tables
first_inode s = refl

pub read_super_block-run :
    (s : Fs)
    → find_super_block nr_super_block 0 no_dev s.super_block ≡ some 0
    → read_super_block root_dev s
      ≡ done tt (record s {
        memory = copied (s.disk root_dev) 512 s.memory fsbuf sector_size;
        super_block =
            update s.super_block 0
              (loaded_super (copied (s.disk root_dev) 512 s.memory fsbuf sector_size) root_dev);
      })
unfolding read_super_block keep_super_block
read_super_block-run s e =
    let s1 : Fs = record s { memory = copied (s.disk root_dev) 512 s.memory fsbuf sector_size } in
    ap (λ o. keep_super_block root_dev o s1) e

pub get_inode-free :
    (s : Fs)
    → find_inode nr_inode 0 none root_dev 1 s.inode_table ≡ free (some 0)
    → get_inode root_dev 1 s ≡ load_inode 0 root_dev 1 s
unfolding get_inode fill_slot
get_inode-free s e = ap (λ o. fill_slot root_dev 1 o s) e

-- The fields of the root directory's inode.
pub record IsRoot (r : Inode) (sb : SuperBlock) : Type 0 where
  pub i_mode : r.i_mode ≡ i_directory
  pub i_size : r.i_size ≡ 64
  pub i_start_sect : r.i_start_sect ≡ sb.n_1st_sect
  pub i_nr_sects : r.i_nr_sects ≡ nr_default_file_sects
  pub i_dev : r.i_dev ≡ root_dev
  pub i_cnt : r.i_cnt ≡ 1
  pub i_num : r.i_num ≡ 1

pub inode-IsRoot :
    (sb : SuperBlock) (m buffer : ℕ → ℕ) (r : Inode)
    → sb.n_1st_sect < 2 ^ 32
    → SameBuffer m (inodes_buffer sb buffer)
    → IsRoot (loaded m (inode_addr 1) (record r { i_dev = root_dev; i_num = 1; i_cnt = 1 })) sb
inode-IsRoot sb m buffer r small same = record {
  i_mode = word fsbuf (omega arith) (omega arith);
  i_size = word (fsbuf + 4) (omega arith) (omega arith);
  i_start_sect = word (fsbuf + 8) (omega arith) (omega arith) ∙ omega arith;
  i_nr_sects = word (fsbuf + 12) (omega arith) (omega arith);
  i_dev = refl;
  i_cnt = refl;
  i_num = refl;
}
  where
    word :
        (a : ℕ)
        → fsbuf ≤ a
        → a + 4 ≤ fsbuf + sector_size
        → read32 m a ≡ read32 (inodes_buffer sb buffer) a
    word a l h = same_word m (inodes_buffer sb buffer) a same l h
