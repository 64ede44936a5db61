-- ===== src/Kernel/Hd/Partition.antt =====
-- The partitions of a disk in kernel/hd.c, and the requests that the driver serves.

use dlos.Prelude.{
  ℕ, zero, suc, ◌+◌, ◌-◌, ◌*◌, ◌%◌, ◌^◌, false, not, ltb, ◌==◌, if◌then◌else◌, update,
}
use dlos.Const.{sector_size, dev_open, dev_close, dev_read, dev_write, dev_ioctl}
use dlos.Kernel.Proc.{Message, Code, panic, endless, pure, ◌>>=◌, ◌>>◌, get, modify, halt, assert}
use dlos.Fs.State.{copied, read32, write32}
use dlos.Kernel.Hd.{
  PartInfo, Hd, nr_part_per_drive, nr_sub_per_part, nr_sub_per_drive, nr_prim_per_drive, max_prim,
  minor_hd1a, ata_identify, ata_read, partition_table_offset, drv_of_dev, make_device_reg,
  sector_cmd, hd_cmd_out, port_read_hdbuf, linear_address, is_known, hd_rdwt,
}

-- struct part_ent: the fields that are read.
pub record PartEnt : Type 0 where
  pub sys_id : ℕ
  pub start_sect : ℕ
  pub nr_sects : ℕ

abbrev pub part_ent : (ℕ → ℕ) → ℕ → PartEnt
part_ent buf i =
    let a = partition_table_offset + i * 16 in
    record { sys_id = buf (a + 4); start_sect = read32 buf (a + 8); nr_sects = read32 buf (a + 12) }

-- get_part_table: the table of the sector.
unfoldable pub get_part_table : ℕ → ℕ → Code Hd (ℕ → PartEnt)
get_part_table drive sect_nr = do
  hd_cmd_out (sector_cmd drive sect_nr 1 ata_read)
  port_read_hdbuf
  s ← get
  pure (part_ent s.hdbuf)

abbrev pub set_logical : ℕ → PartInfo → Code Hd (Unit {0})
set_logical i p =
    modify λ s. record s { hd_info = record s.hd_info { logical = update s.hd_info.logical i p } }

abbrev pub set_primary : ℕ → PartInfo → Code Hd (Unit {0})
set_primary i p =
    modify λ s. record s { hd_info = record s.hd_info { primary = update s.hd_info.primary i p } }

-- The loop over an extended partition, with `n` entries left from entry `dev_nr` on, and the table of
-- the next in sector `s`.
unfoldable pub extended_loop : ℕ → ℕ → ℕ → ℕ → ℕ → Code Hd (Unit {0})
extended_loop zero drive dev_nr ext_start_sect sect = pure tt
extended_loop (suc n) drive dev_nr ext_start_sect sect = do
  t ← get_part_table drive sect
  set_logical dev_nr (record { base = (sect + (t 0).start_sect) % 2 ^ 32; size = (t 0).nr_sects })
  if (t 1).sys_id == 0
      then pure tt
      else extended_loop n drive (dev_nr + 1) ext_start_sect
          ((ext_start_sect + (t 1).start_sect) % 2 ^ 32)

-- partition with P_EXTENDED, for which `j` is not 0.
unfoldable pub extended : ℕ → Code Hd (Unit {0})
extended device = do
  s ← get
  let j = device % nr_prim_per_drive
  let ext_start_sect = (s.hd_info.primary j).base
  extended_loop nr_sub_per_part (drv_of_dev device) ((j - 1) * nr_sub_per_part) ext_start_sect
      ext_start_sect

-- The loop of partition with P_PRIMARY, with `n` entries left from entry `i` on. It returns how many
-- are used.
unfoldable pub primary_loop : ℕ → ℕ → ℕ → (ℕ → PartEnt) → Code Hd ℕ
primary_loop zero i device part_tbl = pure 0
primary_loop (suc n) i device part_tbl =
    if (part_tbl i).sys_id == 0 then primary_loop n (i + 1) device part_tbl else do
      set_primary (i + 1) (record { base = (part_tbl i).start_sect; size = (part_tbl i).nr_sects })
      if (part_tbl i).sys_id == 5 then extended (device + (i + 1)) else pure tt
      more ← primary_loop n (i + 1) device part_tbl
      pure (more + 1)

-- partition with P_PRIMARY
unfoldable pub partition : ℕ → Code Hd (Unit {0})
partition device = do
  let drive = drv_of_dev device
  part_tbl ← get_part_table drive drive
  nr_prim_parts ← primary_loop nr_part_per_drive 0 device part_tbl
  assert 212 (not (nr_prim_parts == 0))

-- hd_identify, without what it prints. The words 60 and 61 of the answer are the size; what the
-- command does not set, `count` and the address among it, is taken as 0.
unfoldable pub hd_identify : ℕ → Code Hd (Unit {0})
hd_identify drive = do
  hd_cmd_out (record {
    features = 0;
    count = 0;
    lba_low = 0;
    lba_mid = 0;
    lba_high = 0;
    device = make_device_reg 0 drive 0;
    command = ata_identify;
  })
  modify λ s. record s { hdbuf = copied s.identity 0 s.hdbuf 0 sector_size }
  s ← get
  set_primary 0 (record { base = 0; size = read32 s.hdbuf 120 })

-- hd_open, without what it prints.
unfoldable pub hd_open : ℕ → Code Hd (Unit {0})
hd_open device = do
  let drive = drv_of_dev device
  assert 86 (drive == 0)
  hd_identify drive
  s ← get
  modify
      λ s. record s { hd_info = record s.hd_info { open_cnt = (s.hd_info.open_cnt + 1) % 2 ^ 32 } }
  if s.hd_info.open_cnt == 0 then partition (drive * (nr_part_per_drive + 1)) else pure tt

unfoldable pub hd_close : ℕ → Code Hd (Unit {0})
hd_close device = do
  assert 99 (drv_of_dev device == 0)
  modify λ s. record s {
    hd_info = record s.hd_info { open_cnt = (s.hd_info.open_cnt + 2 ^ 32 - 1) % 2 ^ 32 };
  }

-- hd_ioctl: base and size of the device, written where the caller asks for them.
unfoldable pub hd_ioctl : Message → Code Hd (Unit {0})
hd_ioctl p = do
  let device = p.m3i4
  if not (p.m3i2 == 1) then assert 166 false else if not (is_known device) then halt panic else do
    dst ← linear_address p.m3i3 p.m3p2
    s ← get
    let part =
        if ltb device max_prim
        then s.hd_info.primary device
        else s.hd_info.logical ((device - minor_hd1a) % nr_sub_per_drive)
    modify λ s. record s { memory = write32 (write32 s.memory dst part.base) (dst + 4) part.size }

-- A round of the loop of task_hd; the message is sent back to its source. An unknown message spins.
unfoldable pub hd_round : Message → Code Hd (Unit {0})
hd_round msg =
    if msg.type == dev_open
    then hd_open msg.m3i4
    else if msg.type == dev_close
    then hd_close msg.m3i4
    else if msg.type == dev_read
    then hd_rdwt msg
    else if msg.type == dev_write
    then hd_rdwt msg
    else if msg.type == dev_ioctl
    then hd_ioctl msg
    else halt endless
