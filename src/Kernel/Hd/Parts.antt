-- ===== src/Kernel/Hd/Parts.antt =====
-- partition of kernel/hd.c: what it makes of the tables of an extended partition.
use dlos.Prelude.{
  ℕ, zero, suc, ◌+◌, ◌-◌, ◌*◌, ◌%◌, ◌^◌, ◌≤◌, ◌<◌, ◌≡◌, ◌≢◌, ◌⊎◌, inl, inr, refl, sym, Bool, true,
  false, ◌==◌, if◌then◌else◌, List, [], ◌∷◌, length, update, Bool-cases, arith, ap, ◌∙◌,
}
use dlos.Const.{sector_size}
use dlos.Kernel.Proc.{Code, done, pure, ◌>>◌, >>=-done}
use dlos.Kernel.Hd.{
  PartInfo, HdInfo, Hd, drv_of_dev, nr_prim_per_drive, nr_sub_per_part, sector_cmd, selected_sector,
  hd_cmd_out, port_read_hdbuf, ata_read,
}
use dlos.Kernel.Hd.Partition.{
  PartEnt, part_ent, get_part_table, extended_loop, extended, set_logical,
}
use dlos.Kernel.Hd.Transfer.{port_read, port_read_hdbuf-done}
use dlos.Kernel.Hd.Request.{selected_sector-sector_cmd, hd_cmd_out-done}

-- Entry `k` of the table in a sector of the disk.
abbrev pub entry_at : (ℕ → ℕ) → ℕ → ℕ → PartEnt
entry_at disk sect k = part_ent (λ a. disk (sect % 2 ^ 28 * sector_size + a)) k

-- The logical partitions that the tables of an extended partition name, `n` at most, from the table in
-- sector `sect` on: each table has the place of one, and the place of the next table.
abbrev pub chain : ℕ → ℕ → ℕ → (ℕ → ℕ) → List PartInfo
chain zero ext sect disk = []
chain (suc n) ext sect disk =
    let part : PartInfo = record {
      base = (sect + (entry_at disk sect 0).start_sect) % 2 ^ 32;
      size = (entry_at disk sect 0).nr_sects;
    } in
    part
    ∷ (if (entry_at disk sect 1).sys_id == 0
        then []
        else chain n ext ((ext + (entry_at disk sect 1).start_sect) % 2 ^ 32) disk)

-- A table that holds the partitions from entry `first` on, and else what `old` holds.
abbrev pub listed : List PartInfo → ℕ → (ℕ → PartInfo) → ℕ → PartInfo
listed [] first old i = old i
listed (p ∷ ps) first old i = if first == i then p else listed ps (first + 1) old i

-- What get_part_table leaves alone.
record Kept (s s' : Hd) : Type 0 where
  disk : s'.disk ≡ s.disk
  info : s'.hd_info ≡ s.hd_info
  ready : s'.responds ≡ s.responds

get_part_table-Kept :
    (s : Hd) (sect : ℕ)
    → s.responds ≡ true
    → (s' : Hd) × (t : ℕ → PartEnt) × (get_part_table 0 sect s ≡ done t s')
      × Kept s s'
      × (t 0 ≡ entry_at s.disk sect 0)
      × (t 1 ≡ entry_at s.disk sect 1)
unfolding get_part_table sector_cmd
get_part_table-Kept s sect ready =
    let cmd = sector_cmd 0 sect 1 ata_read in
    let s1 : Hd = record s {
      selected = selected_sector cmd;
      left = 1;
      commands = cmd ∷ s.commands;
    } in
    let s2 = port_read s1 in
    let at = selected_sector-sector_cmd sect 1 ata_read in
    (
      s2,
      part_ent s2.hdbuf,
      >>=-done (hd_cmd_out cmd) _ (hd_cmd_out-done cmd s ready)
          ∙ >>=-done port_read_hdbuf _ (port_read_hdbuf-done s1 (omega arith)),
      record { disk = refl; info = refl; ready = refl },
      ap (λ x. part_ent (λ a. s.disk (x * sector_size + a)) 0) at,
      ap (λ x. part_ent (λ a. s.disk (x * sector_size + a)) 1) at,
    )

listed-update :
    (ps : List PartInfo) (k first : ℕ) (p : PartInfo) (old : ℕ → PartInfo) (i : ℕ)
    → first < k
    → listed ps k (update old first p) i ≡ (if first == i then p else listed ps k old i)
listed-update [] k first p old i h = refl
listed-update (q ∷ ps) k first p old i h =
    let rest = listed-update ps (k + 1) first p old i (omega arith) in ground (arith, rest)

-- What is left of a round, with the two entries of the table.
abbrev listing : ℕ → ℕ → ℕ → ℕ → PartEnt → PartEnt → Code Hd (Unit {0})
listing n first ext sect part next =
    set_logical first (record { base = (sect + part.start_sect) % 2 ^ 32; size = part.nr_sects })
    >> (if next.sys_id == 0
        then pure tt
        else extended_loop n 0 (first + 1) ext ((ext + next.start_sect) % 2 ^ 32))

record Listed (s s' : Hd) (first : ℕ) (parts : List PartInfo) : Type 0 where
  disk : s'.disk ≡ s.disk
  primary : s'.hd_info.primary ≡ s.hd_info.primary
  logical : (i : ℕ) → s'.hd_info.logical i ≡ listed parts first s.hd_info.logical i

extended_loop-Listed :
    (n first ext sect : ℕ) (s : Hd)
    → s.responds ≡ true
    → (s' : Hd) × (extended_loop n 0 first ext sect s ≡ done tt s')
      × Listed s s' first (chain n ext sect s.disk)
unfolding extended_loop
extended_loop-Listed zero first ext sect s ready =
    (s, refl, record { disk = refl; primary = refl; logical = λ i. refl })
extended_loop-Listed (suc n) first ext sect s ready =
    let (s1, t, run, k, e0, e1) = get_part_table-Kept s sect ready in
    let a = entry_at s.disk sect 0 in
    let b = entry_at s.disk sect 1 in
    let part : PartInfo = record { base = (sect + a.start_sect) % 2 ^ 32; size = a.nr_sects } in
    let s2 : Hd = record s1 {
      hd_info = record s1.hd_info { logical = update s1.hd_info.logical first part };
    } in
    let next = (ext + b.start_sect) % 2 ^ 32 in
    let start : extended_loop (suc n) 0 first ext sect s ≡ listing n first ext sect a b s1 =
      >>=-done (get_part_table 0 sect) (λ u. listing n first ext sect (u 0) (u 1)) run
      ∙ ap (λ x. listing n first ext sect x (t 1) s1) e0
      ∙ ap (λ x. listing n first ext sect a x s1) e1 in
    let old = s.hd_info.logical in
    let same : s1.hd_info.logical ≡ old = ap (λ (h : HdInfo). h.logical) k.info in
    let rest = chain n ext next s.disk in
    let listed_to = λ (x : Bool) (i : ℕ).
      if first == i then part else listed (if x then [] else rest) (first + 1) old i in
    elim (Bool-cases (b.sys_id == 0)) [
      | inl last ↦ (
        s2,
        start ∙ ap (λ x. (if x then pure tt else extended_loop n 0 (first + 1) ext next) s2) last,
        record {
          disk = k.disk;
          primary = ap (λ (h : HdInfo). h.primary) k.info;
          logical = λ i.
              ap (λ f. if first == i then part else f i) same ∙ ap (λ x. listed_to x i) (sym last);
        },
      )
      | inr more ↦
          let (s3, run3, l) = extended_loop-Listed n (first + 1) ext next s2 (k.ready ∙ ready) in
          (
            s3,
            start
                ∙ ap (λ x. (if x then pure tt else extended_loop n 0 (first + 1) ext next) s2) more
                ∙ run3,
            record {
              disk = l.disk ∙ k.disk;
              primary = l.primary ∙ ap (λ (h : HdInfo). h.primary) k.info;
              logical = λ i.
                  l.logical i
                  ∙ ap (λ d. listed (chain n ext next d) (first + 1) s2.hd_info.logical i) k.disk
                  ∙ listed-update rest (first + 1) first part s1.hd_info.logical i (omega arith)
                  ∙ ap (λ f. if first == i then part else listed rest (first + 1) f i) same
                  ∙ ap (λ x. listed_to x i) (sym more);
            },
          )
    ]

length-chain : (n ext sect : ℕ) (disk : ℕ → ℕ) → length (chain n ext sect disk) ≤ n
length-chain zero ext sect disk = omega arith
length-chain (suc n) ext sect disk = elim (Bool-cases ((entry_at disk sect 1).sys_id == 0)) [
  | inl last ↦ rw last (omega arith)
  | inr more ↦
      let rest = length-chain n ext ((ext + (entry_at disk sect 1).start_sect) % 2 ^ 32) disk in
      rw more (omega (arith, rest))
]

listed-outside :
    (ps : List PartInfo) (first : ℕ) (old : ℕ → PartInfo) (i : ℕ)
    → (i < first) ⊎ (first + length ps ≤ i)
    → listed ps first old i ≡ old i
listed-outside [] first old i out = refl
listed-outside (p ∷ ps) first old i out =
    let rest = listed-outside ps (first + 1) old i (later out) in
    let ne : (first == i) ≡ false = ground (arith, out) in rw ne rest
  where
    later :
        (i < first) ⊎ (first + suc (length ps) ≤ i) → (i < first + 1) ⊎ (first + 1 + length ps ≤ i)
    later (inl l) = inl (omega arith)
    later (inr l) = inr (omega arith)

-- partition with P_EXTENDED for a primary partition of drive 0 and a drive that is ready: it returns; the
-- logical partitions that the chain of tables on the disk names, at most 16, stand in the table
-- from the first entry of that primary partition on; and the other 16 entries of every other primary
-- partition, the primary partitions and the disk are as they were.
pub extended-chain :
    (s : Hd) (device : ℕ)
    → s.responds ≡ true
    → drv_of_dev device ≡ 0
    → device % nr_prim_per_drive ≢ 0
    → (s' : Hd) × (extended device s ≡ done tt s')
      × (s'.disk ≡ s.disk)
      × (s'.hd_info.primary ≡ s.hd_info.primary)
      × ((i : ℕ)
          → s'.hd_info.logical i
            ≡ listed
                (chain nr_sub_per_part
                  (s.hd_info.primary (device % nr_prim_per_drive)).base
                  (s.hd_info.primary (device % nr_prim_per_drive)).base
                  s.disk)
                ((device % nr_prim_per_drive - 1) * nr_sub_per_part)
                s.hd_info.logical
                i)
      × ((i : ℕ)
          → (i < (device % nr_prim_per_drive - 1) * nr_sub_per_part)
            ⊎ ((device % nr_prim_per_drive - 1) * nr_sub_per_part + nr_sub_per_part ≤ i)
          → s'.hd_info.logical i ≡ s.hd_info.logical i)
unfolding extended
extended-chain s device ready drive primary =
    let j = device % nr_prim_per_drive in
    let first = (j - 1) * nr_sub_per_part in
    let base = (s.hd_info.primary j).base in
    let ps = chain nr_sub_per_part base base s.disk in
    let (s', run, l) = extended_loop-Listed nr_sub_per_part first base base s ready in
    let few = length-chain nr_sub_per_part base base s.disk in
    (
      s',
      ap (λ d. extended_loop nr_sub_per_part d first base base s) drive ∙ run,
      l.disk,
      l.primary,
      l.logical,
      λ i out. l.logical i ∙ listed-outside ps first s.hd_info.logical i (wider i out few),
    )
  where
    wider :
        {first n : ℕ} (i : ℕ)
        → (i < first) ⊎ (first + nr_sub_per_part ≤ i)
        → n ≤ nr_sub_per_part
        → (i < first) ⊎ (first + n ≤ i)
    wider i (inl l) few = inl l
    wider i (inr l) few = inr (omega arith)
