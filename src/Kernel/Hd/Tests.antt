-- ===== src/Kernel/Hd/Tests.antt =====
-- A disk whose first extended partition, at sector 1000, holds two logical partitions.
use dlos.Prelude.{ℕ, ◌≡◌, ◌+◌, ◌*◌, ◌<◌, ◌≤◌, ◌⊎◌, refl, arith, true, [], ◌==◌, if◌then◌else◌}
use dlos.Const.{sector_size, dev_read}
use dlos.Kernel.Proc.{Message, done, reset_msg}
use dlos.Kernel.Sample.{all_idle, kernel}
use dlos.Kernel.Ipc.Base.{va2la, ldt_seg_linear}
use dlos.Kernel.Hd.{PartInfo, Hd, drv_of_dev, nr_sub_per_part, base_sector, hd_rdwt}
use dlos.Kernel.Hd.Partition.{extended}
use dlos.Kernel.Hd.Transfer.{memory_after, disk_after}
use dlos.Kernel.Hd.Request.{hd_rdwt-copied}
use dlos.Kernel.Hd.Parts.{chain, listed, extended-chain}

-- The low bytes of the tables in the sectors 1000 and 1200.
abbrev tables : ℕ → ℕ
tables a =
    if a == 1000 * 512 + 0x1BE + 8
    then 63
    else if a == 1000 * 512 + 0x1BE + 16 + 4
    then 5
    else if a == 1000 * 512 + 0x1BE + 16 + 8
    then 200
    else if a == 1200 * 512 + 0x1BE + 8
    then 63
    else 0

abbrev part : ℕ → ℕ → PartInfo
part base size = record { base = base; size = size }

abbrev state : Hd
state = record {
  kernel = kernel all_idle;
  memory = λ a. a;
  hdbuf = λ _. 0;
  hd_info = record {
    open_cnt = 1;
    primary = λ i. part (i * 1000) 1000;
    logical = λ i. part (i * 10) 10;
  };
  disk = tables;
  identity = λ _. 0;
  selected = 0;
  left = 0;
  responds = true;
  commands = [];
}

abbrev request : Message
request = record reset_msg {
  type = dev_read;
  m3i4 = 0x20;
  m3l1 = 1024;
  m3i2 = 1024;
  m3i3 = 3;
  m3p2 = 0x600000;
}

hd_rdwt-copied_example :
    (s' : Hd) × (hd_rdwt request state ≡ done tt s')
    × ((a : ℕ)
        → s'.memory a
          ≡ memory_after true state
              ((2 + base_sector state.hd_info 0x20) * sector_size)
              0x600000
              (2 * sector_size)
              a)
    × ((a : ℕ)
        → s'.disk a
          ≡ disk_after true state
              ((2 + base_sector state.hd_info 0x20) * sector_size)
              0x600000
              (2 * sector_size)
              a)
unfolding drv_of_dev va2la ldt_seg_linear
hd_rdwt-copied_example =
    hd_rdwt-copied state request 2 2 0x600000 refl refl refl refl refl (omega arith) (omega arith)
      (omega arith) refl

extended-chain_example :
    (s' : Hd) × (extended 1 state ≡ done tt s')
    × (s'.disk ≡ tables)
    × (s'.hd_info.primary ≡ state.hd_info.primary)
    × ((i : ℕ)
        → s'.hd_info.logical i
          ≡ listed (chain nr_sub_per_part 1000 1000 tables) 0 state.hd_info.logical i)
    × ((i : ℕ) → (i < 0) ⊎ (16 ≤ i) → s'.hd_info.logical i ≡ state.hd_info.logical i)
unfolding drv_of_dev
extended-chain_example = extended-chain state 1 refl refl (omega arith)
