-- ===== src/Fs/Inode/Sync.antt =====
-- What sync_inode of fs/main.c writes is what get_inode reads back.
use dlos.Prelude.{
  ℕ, ◌⊎◌, ◌+◌, ◌-◌, ◌*◌, ◌%◌, ◌^◌, ◌≤◌, ◌<◌, ◌≡◌, some, update, update_self, subst, sym, arith, ap,
  ◌∙◌,
}
use dlos.Const.{sector_size}
use dlos.Kernel.Proc.{done, >>=-done}
use dlos.Fs.State.{SuperBlock, Inode, Fs, nr_super_block, fsbuf, read32, write32, copied}
use dlos.Fs.Inode.{
  find_super_block, found_super_block, get_super_block, inode_sect, inode_addr, loaded, saved,
  load_inode, sync_inode,
}

-- The fields that the disk holds fit in 32 bits.
pub record FitsDisk (r : Inode) : Type 0 where
  pub mode : r.i_mode < 2 ^ 32
  pub size : r.i_size < 2 ^ 32
  pub start : r.i_start_sect < 2 ^ 32
  pub sects : r.i_nr_sects < 2 ^ 32

pub read32-write32 : (m : ℕ → ℕ) (a v : ℕ) → v < 2 ^ 32 → read32 (write32 m a v) a ≡ v
read32-write32 m a v h = ground arith

pub read32-write32_apart :
    (m : ℕ → ℕ) (a b v : ℕ) → (a + 4 ≤ b) ⊎ (b + 4 ≤ a) → read32 (write32 m a v) b ≡ read32 m b
read32-write32_apart m a b v h = ground arith

-- The four fields that the disk keeps.
abbrev pub SameFields : Inode → Inode → Type 0
SameFields p q =
    (q.i_mode ≡ p.i_mode)
    × (q.i_size ≡ p.i_size)
    × (q.i_start_sect ≡ p.i_start_sect)
    × (q.i_nr_sects ≡ p.i_nr_sects)

loaded-saved :
    (r q : Inode) (a : ℕ) (m m' : ℕ → ℕ)
    → FitsDisk r
    → ((b : ℕ) → a ≤ b → b < a + 32 → m' b ≡ saved r a m b)
    → SameFields r (loaded m' a q)
loaded-saved r q a m m' v same =
    let f : (i : ℕ) → i + 4 ≤ 32 → read32 m' (a + i) ≡ read32 (saved r a m) (a + i) = λ i h. omega (
      arith,
      same (a + i) (omega arith) (omega arith),
      same (a + i + 1) (omega arith) (omega arith),
      same (a + i + 2) (omega arith) (omega arith),
      same (a + i + 3) (omega arith) (omega arith),
    ) in
    let w0 = write32 m a r.i_mode in
    let w1 = write32 w0 (a + 4) r.i_size in
    let w2 = write32 w1 (a + 8) r.i_start_sect in
    let f0 : read32 m' a ≡ read32 (saved r a m) a = omega (
      arith,
      same a (omega arith) (omega arith),
      same (a + 1) (omega arith) (omega arith),
      same (a + 2) (omega arith) (omega arith),
      same (a + 3) (omega arith) (omega arith),
    ) in
    (
      f0
          ∙ read32-write32_apart w2 (a + 12) a r.i_nr_sects (omega arith)
          ∙ read32-write32_apart w1 (a + 8) a r.i_start_sect (omega arith)
          ∙ read32-write32_apart w0 (a + 4) a r.i_size (omega arith)
          ∙ read32-write32 m a r.i_mode v.mode,
      f 4 (omega arith)
          ∙ read32-write32_apart w2 (a + 12) (a + 4) r.i_nr_sects (omega arith)
          ∙ read32-write32_apart w1 (a + 8) (a + 4) r.i_start_sect (omega arith)
          ∙ read32-write32 w0 (a + 4) r.i_size v.size,
      f 8 (omega arith)
          ∙ read32-write32_apart w2 (a + 12) (a + 8) r.i_nr_sects (omega arith)
          ∙ read32-write32 w1 (a + 8) r.i_start_sect v.start,
      f 12 (omega arith) ∙ read32-write32 w2 (a + 12) r.i_nr_sects v.sects,
    )

-- A sector that was written and read again is in the buffer as it was.
copied_back :
    (m m' d : ℕ → ℕ) (pos a : ℕ)
    → fsbuf ≤ a
    → a < fsbuf + sector_size
    → copied (copied m fsbuf d pos sector_size) pos m' fsbuf sector_size a ≡ m a
copied_back m m' d pos a l h =
    let back : fsbuf + (pos + (a - fsbuf) - pos) ≡ a = omega arith in
    let same = ap m back in ground (arith, same)

pub get_super_block_run :
    (dev i : ℕ) (s : Fs)
    → find_super_block nr_super_block 0 dev s.super_block ≡ some i
    → get_super_block dev s ≡ done (s.super_block i) s
unfolding get_super_block
get_super_block_run dev i s e = ap (λ o. found_super_block s o s) e

-- The state that sync_inode leaves, where `sb` is the super block.
abbrev pub sector_pos : SuperBlock → ℕ → ℕ
sector_pos sb num = inode_sect sb num * sector_size % 2 ^ 32

abbrev pub synced_memory : Fs → SuperBlock → Inode → ℕ → ℕ
synced_memory s sb r =
    saved r (inode_addr r.i_num)
      (copied (s.disk r.i_dev) (sector_pos sb r.i_num) s.memory fsbuf sector_size)

abbrev pub synced : Fs → SuperBlock → Inode → Fs
synced s sb r = record s {
  memory = synced_memory s sb r;
  disk =
      update s.disk r.i_dev
        (copied (synced_memory s sb r) fsbuf (s.disk r.i_dev) (sector_pos sb r.i_num) sector_size);
}

pub sync_inode_run :
    (p i : ℕ) (s : Fs)
    → find_super_block nr_super_block 0 (s.inode_table p).i_dev s.super_block ≡ some i
    → sync_inode p s ≡ done tt (synced s (s.super_block i) (s.inode_table p))
unfolding sync_inode
sync_inode_run p i s e =
    >>=-done (get_super_block (s.inode_table p).i_dev) _
      (get_super_block_run (s.inode_table p).i_dev i s e)

-- The round trip of an inode of a device with a super block: once sync_inode has written it, loading
-- it from the disk into any entry of the table gives the same mode, size and sectors.
pub load_inode-sync_inode :
    (p q i : ℕ) (s : Fs)
    → FitsDisk (s.inode_table p)
    → find_super_block nr_super_block 0 (s.inode_table p).i_dev s.super_block ≡ some i
    → (s' s'' : Fs) × (sync_inode p s ≡ done tt s')
      × (load_inode q (s.inode_table p).i_dev (s.inode_table p).i_num s' ≡ done (some q) s'')
      × SameFields (s.inode_table p) (s''.inode_table q)
      × ((s''.inode_table q).i_cnt ≡ 1)
unfolding load_inode
load_inode-sync_inode p q i s v e =
    let r = s.inode_table p in
    let sb = s.super_block i in
    let s1 = synced s sb r in
    let fresh : Inode = record (s1.inode_table q) { i_dev = r.i_dev; i_num = r.i_num; i_cnt = 1 } in
    let s2 : Fs = record s1 { inode_table = update s1.inode_table q fresh } in
    let pos = sector_pos sb r.i_num in
    let a = inode_addr r.i_num in
    let m' = copied (s1.disk r.i_dev) pos s1.memory fsbuf sector_size in
    let written = copied s1.memory fsbuf (s.disk r.i_dev) pos sector_size in
    let disk : s1.disk r.i_dev ≡ written = update_self s.disk r.i_dev written in
    let read = loaded m' a (s2.inode_table q) in
    let entry = update_self s2.inode_table q read in
    (
      s1,
      record s2 { memory = m'; inode_table = update s2.inode_table q read },
      sync_inode_run p i s e,
      >>=-done (get_super_block r.i_dev) _ (get_super_block_run r.i_dev i s2 e),
      subst (SameFields r) (sym entry) (
          loaded-saved r (s2.inode_table q) a
            (copied (s.disk r.i_dev) pos s.memory fsbuf sector_size) m' v
            (λ b l h.
              ap (λ D. copied D pos s1.memory fsbuf sector_size b) disk
              ∙ copied_back s1.memory s1.memory (s.disk r.i_dev) pos b (omega arith)
                  (omega arith))),
      ap (λ (x : Inode). x.i_cnt) entry
          ∙ ap (λ (x : Inode). x.i_cnt) (update_self s1.inode_table q fresh),
    )
