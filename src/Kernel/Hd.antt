-- ===== src/Kernel/Hd.antt =====
-- The disk driver, kernel/hd.c: the transfer of sectors. The drive is part of the
-- state and works as the ATA standard says: a command selects a sector by its 28-bit address, and each
-- sector that is read or written through the data port is followed by the next.
mod Tests
pub mod Request
pub mod Transfer
pub mod Partition
pub mod Parts
use Prim.Native.Nat.{bit_and, bit_or, min}
use dlos.Prelude.{
  ℕ, zero, suc, ◌+◌, ◌-◌, ◌*◌, ◌/◌, ◌%◌, ◌^◌, Bool, true, false, not, ◌&&◌, ◌||◌, ltb, leb, ◌==◌,
  if◌then◌else◌, List, [], ◌∷◌, update,
}
use dlos.Const.{sector_size, task_hd, dev_open, dev_close, dev_read, dev_write, dev_ioctl}
use dlos.Kernel.Proc.{
  Message, Kernel, Code, Run, done, stop, panic, endless, pure, ◌>>=◌, ◌>>◌, get, modify, halt,
  assert,
}
use dlos.Kernel.Ipc.Base.{va2la}
use dlos.Fs.State.{copied, read32, write32}

-- struct hd_cmd
pub record HdCmd : Type 0 where
  pub features : ℕ
  pub count : ℕ
  pub lba_low : ℕ
  pub lba_mid : ℕ
  pub lba_high : ℕ
  pub device : ℕ
  pub command : ℕ

-- struct part_info
pub record PartInfo : Type 0 where
  pub base : ℕ
  pub size : ℕ

-- struct hd_info: the only entry of `hd_info`.
pub record HdInfo : Type 0 where
  pub open_cnt : ℕ
  pub primary : ℕ → PartInfo
  pub logical : ℕ → PartInfo

-- Of the drive: `disk` holds its bytes, `identity` the answer to ATA_IDENTIFY, `selected` is the sector
-- that it transfers next and `left` how many it still transfers, and `responds` says whether it is
-- ready before HD_TIMEOUT. `commands` are those sent, the last first.
pub record Hd : Type 0 where
  pub kernel : Kernel
  pub memory : ℕ → ℕ
  pub hdbuf : ℕ → ℕ
  pub hd_info : HdInfo
  pub disk : ℕ → ℕ
  pub identity : ℕ → ℕ
  pub selected : ℕ
  pub left : ℕ
  pub responds : Bool
  pub commands : List HdCmd

abbrev pub nr_part_per_drive : ℕ
nr_part_per_drive = 4

abbrev pub nr_sub_per_part : ℕ
nr_sub_per_part = 16

abbrev pub nr_sub_per_drive : ℕ
nr_sub_per_drive = nr_sub_per_part * nr_part_per_drive

abbrev pub nr_prim_per_drive : ℕ
nr_prim_per_drive = nr_part_per_drive + 1

abbrev pub max_prim : ℕ
max_prim = 2 * nr_prim_per_drive - 1

abbrev pub minor_hd1a : ℕ
minor_hd1a = 0x10

abbrev pub ata_identify : ℕ
ata_identify = 0xEC

abbrev pub ata_read : ℕ
ata_read = 0x20

abbrev pub ata_write : ℕ
ata_write = 0x30

abbrev pub partition_table_offset : ℕ
partition_table_offset = 0x1BE

-- DRV_OF_DEV. A device between MAX_PRIM and MINOR_hd1a gives a quotient that C rounds to 0.
unfoldable pub drv_of_dev : ℕ → ℕ
drv_of_dev dev =
    if leb dev max_prim then dev / nr_prim_per_drive else (dev - minor_hd1a) / nr_sub_per_drive

-- MAKE_DEVICE_REG
unfoldable pub make_device_reg : ℕ → ℕ → ℕ → ℕ
make_device_reg lba drv lba_highest =
    bit_or (bit_or (bit_or (lba * 2 ^ 6) (drv * 2 ^ 4)) (bit_and lba_highest 0xF)) 0xA0

-- The command of get_part_table and hd_rdwt for `count` sectors from `sect_nr` on.
unfoldable pub sector_cmd : ℕ → ℕ → ℕ → ℕ → HdCmd
sector_cmd drive sect_nr count command = record {
  features = 0;
  count = count % 2 ^ 8;
  lba_low = bit_and sect_nr 0xFF;
  lba_mid = bit_and (sect_nr / 2 ^ 8) 0xFF;
  lba_high = bit_and (sect_nr / 2 ^ 16) 0xFF;
  device = make_device_reg 1 drive (bit_and (sect_nr / 2 ^ 24) 0xF);
  command = command;
}

-- The sector that the registers of a command select.
unfoldable pub selected_sector : HdCmd → ℕ
selected_sector cmd =
    cmd.device % 16 * 2 ^ 24 + cmd.lba_high * 2 ^ 16 + cmd.lba_mid * 2 ^ 8 + cmd.lba_low

-- hd_cmd_out, with waitfor.
unfoldable pub hd_cmd_out : HdCmd → Code Hd (Unit {0})
hd_cmd_out cmd = do
  s ← get
  if not s.responds
      then halt panic
      else modify λ s. record s {
        selected = selected_sector cmd;
        left = if cmd.count == 0 then 256 else cmd.count;
        commands = cmd ∷ s.commands;
      }

-- interrupt_wait and port_read(REG_DATA, hdbuf, SECTOR_SIZE). Behind the last sector of a command no
-- interrupt comes.
unfoldable pub port_read_hdbuf : Code Hd (Unit {0})
port_read_hdbuf = do
  s ← get
  if s.left == 0
      then halt endless
      else modify λ s. record s {
        hdbuf = copied s.disk (s.selected * sector_size) s.hdbuf 0 sector_size;
        selected = s.selected + 1;
        left = s.left - 1;
      }

-- A device's first sector, as hd_rdwt finds it.
abbrev pub base_sector : HdInfo → ℕ → ℕ
base_sector hdi device =
    if ltb device max_prim
    then (hdi.primary device).base
    else (hdi.logical ((device - minor_hd1a) % nr_sub_per_drive)).base

-- A round of the loop of hd_rdwt, to or from the address `la`.
unfoldable pub transfer : Bool → ℕ → ℕ → Code Hd (Unit {0})
transfer true la bytes = do
  port_read_hdbuf
  modify λ s. record s { memory = copied s.hdbuf 0 s.memory la bytes }
transfer false la bytes = do
  s ← get
  if not s.responds || s.left == 0
      then halt panic
      else modify λ s. record s {
        disk = copied s.memory la s.disk (s.selected * sector_size) bytes;
        selected = s.selected + 1;
        left = s.left - 1;
      }

-- `while (bytes_left)`, for at most `fuel` rounds. A rest below SECTOR_SIZE makes `bytes_left`
-- negative, and the loop has no end.
unfoldable pub transfers : ℕ → Bool → ℕ → ℕ → Code Hd (Unit {0})
transfers zero reads la bytes_left = halt endless
transfers (suc fuel) reads la bytes_left = if bytes_left == 0 then pure tt else do
  transfer reads la (min sector_size bytes_left)
  if ltb bytes_left sector_size
      then halt endless
      else transfers fuel reads (la + sector_size) (bytes_left - sector_size)

-- va2la works on `kernel`.
abbrev pub linear_address : ℕ → ℕ → Code Hd ℕ
linear_address pid va s = elim (va2la pid va s.kernel) [
  | done a k ↦ done a (record s { kernel = k })
  | stop e ↦ stop e
]

-- hd_rdwt from the command on, for `size` bytes from sector `sect_nr` on.
unfoldable pub request : Bool → ℕ → ℕ → ℕ → ℕ → ℕ → Code Hd (Unit {0})
request reads drive sect_nr size proc_nr buf = do
  hd_cmd_out (
      sector_cmd drive sect_nr ((size + sector_size - 1) / sector_size)
        (if reads then ata_read else ata_write))
  la ← linear_address proc_nr buf
  transfers (size + 1) reads la size

-- The devices for which hd_rdwt and hd_ioctl read hd_info inside its bounds: those of drive 0, without
-- the numbers between the primary and the logical partitions. For any other the access is undefined.
abbrev pub is_known : ℕ → Bool
is_known device = drv_of_dev device == 0 && (ltb device max_prim || leb minor_hd1a device)

-- hd_rdwt. `pos >> SECTOR_SIZE_SHIFT < 1 << 31` compares with a negative int, which is a very
-- large u64: it holds for every position below 2 ^ 64.
unfoldable pub hd_rdwt : Message → Code Hd (Unit {0})
hd_rdwt p = do
  let pos = p.m3l1
  assert 109 (ltb (pos / 2 ^ 9) (2 ^ 64 - 2 ^ 31))
  assert 111 (bit_and pos 0x1FF == 0)
  s ← get
  if is_known p.m3i4
      then request (p.type == dev_read) (drv_of_dev p.m3i4)
          ((pos / 2 ^ 9 + base_sector s.hd_info p.m3i4) % 2 ^ 32) p.m3i2 p.m3i3 p.m3p2
      else halt panic
