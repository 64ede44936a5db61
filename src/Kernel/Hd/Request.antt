-- ===== src/Kernel/Hd/Request.antt =====
-- hd_rdwt of kernel/hd.c does what the file system takes it to do: it copies bytes between a device
-- and memory.
use Prim.Native.Nat.{bit_and, bit_or}
use dlos.Prelude.{
  ℕ, ◌+◌, ◌-◌, ◌*◌, ◌/◌, ◌%◌, ◌^◌, ◌≤◌, ◌<◌, ◌≡◌, refl, Bool, true, ltb, leb, ◌||◌, ◌==◌,
  if◌then◌else◌, arith, ap, ◌∙◌, bit_and_mask, bit_or-apart, bit_or-halves, subst, ◌∷◌,
}
use dlos.Const.{sector_size, dev_read}
use dlos.Kernel.Proc.{Message, Code, done, stop, panic, get, halt, ◌>>=◌, ◌>>◌, assert, >>=-done}
use dlos.Kernel.Ipc.Base.{va2la}
use dlos.Kernel.Hd.{
  HdCmd, Hd, drv_of_dev, make_device_reg, sector_cmd, selected_sector, hd_cmd_out, base_sector,
  transfers, linear_address, request, hd_rdwt, ata_read, ata_write, is_known, max_prim, minor_hd1a,
}
use dlos.Kernel.Hd.Transfer.{memory_after, disk_after, Moved, transfers-Moved}

-- The registers of a command name its sector, up to 28 bits.
pub selected_sector-sector_cmd :
    (sect count command : ℕ) → selected_sector (sector_cmd 0 sect count command) ≡ sect % 2 ^ 28
unfolding selected_sector sector_cmd make_device_reg
selected_sector-sector_cmd sect count command =
    let h = sect / 2 ^ 24 % 16 in
    let high = bit_and (sect / 2 ^ 24) 0xF in
    let high_value : high ≡ h = bit_and_mask 4 (sect / 2 ^ 24) in
    let twice : bit_and high 0xF ≡ h = omega (arith, high_value, bit_and_mask 4 high) in
    let x = bit_or 64 (bit_and high 0xF) in
    let low : x ≡ 64 + h = ap (bit_or 64) twice ∙ bit_or-apart 6 1 h (omega arith) in
    let nibble : bit_or x 0xA0 % 16 ≡ h = omega (
      arith,
      low,
      bit_or-halves x 160,
      bit_or-halves (x / 2) 80,
      bit_or-halves (x / 2 / 2) 40,
      bit_or-halves (x / 2 / 2 / 2) 20,
    ) in
    omega (
      arith,
      nibble,
      bit_and_mask 8 sect,
      bit_and_mask 8 (sect / 2 ^ 8),
      bit_and_mask 8 (sect / 2 ^ 16),
    )

pub hd_cmd_out-done :
    (cmd : HdCmd) (s : Hd)
    → s.responds ≡ true
    → hd_cmd_out cmd s
      ≡ done tt (record s {
        selected = selected_sector cmd;
        left = if cmd.count == 0 then 256 else cmd.count;
        commands = cmd ∷ s.commands;
      })
unfolding hd_cmd_out
hd_cmd_out-done cmd s ready = rw ready refl

count_left :
    (n : ℕ)
    → 1 ≤ n
    → n ≤ 256
    → (if (n * sector_size + sector_size - 1) / sector_size % 2 ^ 8 == 0
        then 256
        else (n * sector_size + sector_size - 1) / sector_size % 2 ^ 8)
      ≡ n
count_left n l u =
    let count : (n * sector_size + sector_size - 1) / sector_size ≡ n = omega arith in
    rw count (ground arith)

request-Moved :
    (s : Hd) (reads : Bool) (sect n pid buf la : ℕ)
    → s.responds ≡ true
    → 1 ≤ n
    → n ≤ 256
    → sect < 2 ^ 28
    → va2la pid buf s.kernel ≡ done la s.kernel
    → (s' : Hd) × (request reads 0 sect (n * sector_size) pid buf s ≡ done tt s')
      × Moved s s' reads (sect * sector_size) la (n * sector_size)
unfolding request sector_cmd
request-Moved s reads sect n pid buf la ready some_sectors few small address =
    let size = n * sector_size in
    let cmd =
      sector_cmd 0 sect ((size + sector_size - 1) / sector_size)
        (if reads then ata_read else ata_write) in
    let left = if cmd.count == 0 then 256 else cmd.count in
    let s1 : Hd = record s {
      selected = selected_sector cmd;
      left = left;
      commands = cmd ∷ s.commands;
    } in
    let all : left ≡ n = count_left n some_sectors few in
    let at : selected_sector cmd ≡ sect =
      selected_sector-sector_cmd sect ((size + sector_size - 1) / sector_size) _ ∙ omega arith in
    let (s2, run, d) =
      transfers-Moved n (size + 1) s1 reads la (omega arith) (omega (arith, all)) ready in
    (
      s2,
      >>=-done (hd_cmd_out cmd) _ (hd_cmd_out-done cmd s ready)
          ∙ >>=-done (linear_address pid buf) (λ a. transfers (size + 1) reads a size)
              (ap (λ r. elim r [ done a k ↦ done a (record s1 { kernel = k }) | stop e ↦ stop e ])
                address)
          ∙ run,
      subst (λ x. Moved s s2 reads (x * sector_size) la size) at
          (record { memory = d.memory; disk = d.disk }),
    )

-- hd_rdwt on a partition of drive 0, for a position and a size in whole sectors, 256 sectors at most, within the
-- 28 bits of a sector's address, and a drive that is ready: it returns; a read copies the bytes at
-- that place of the device to the caller's buffer and leaves the disk, a write copies them to the
-- device and leaves memory; no other byte changes.
pub hd_rdwt-copied :
    (s : Hd) (p : Message) (q n la : ℕ)
    → s.responds ≡ true
    → drv_of_dev p.m3i4 ≡ 0
    → (ltb p.m3i4 max_prim || leb minor_hd1a p.m3i4) ≡ true
    → p.m3l1 ≡ q * sector_size
    → p.m3i2 ≡ n * sector_size
    → 1 ≤ n
    → n ≤ 256
    → q + base_sector s.hd_info p.m3i4 + n ≤ 2 ^ 28
    → va2la p.m3i3 p.m3p2 s.kernel ≡ done la s.kernel
    → (s' : Hd) × (hd_rdwt p s ≡ done tt s')
      × ((a : ℕ)
          → s'.memory a
            ≡ memory_after
                (p.type == dev_read)
                s
                ((q + base_sector s.hd_info p.m3i4) * sector_size)
                la
                (n * sector_size)
                a)
      × ((a : ℕ)
          → s'.disk a
            ≡ disk_after
                (p.type == dev_read)
                s
                ((q + base_sector s.hd_info p.m3i4) * sector_size)
                la
                (n * sector_size)
                a)
unfolding hd_rdwt
hd_rdwt-copied s p q n la ready drive known pos size some_sectors few fits address =
    let base = base_sector s.hd_info p.m3i4 in
    let reads = p.type == dev_read in
    let in_range : ltb (p.m3l1 / 2 ^ 9) (2 ^ 64 - 2 ^ 31) ≡ true = ground (arith, pos) in
    let aligned : (bit_and p.m3l1 0x1FF == 0) ≡ true = ground (arith, bit_and_mask 9 p.m3l1, pos) in
    let sect : (p.m3l1 / 2 ^ 9 + base) % 2 ^ 32 ≡ q + base = omega (arith, pos) in
    let (s', run, d) =
      request-Moved s reads (q + base) n p.m3i3 p.m3p2 la ready some_sectors few (omega arith)
        address in
    let of_device : Hd → Code Hd (Unit {0}) = λ z.
      request reads (drv_of_dev p.m3i4) ((p.m3l1 / 2 ^ 9 + base_sector z.hd_info p.m3i4) % 2 ^ 32)
        p.m3i2 p.m3i3 p.m3p2 in
    let rest : Code Hd (Unit {0}) =
      get >>= (λ (z : Hd). if is_known p.m3i4 then of_device z else halt panic) in
    let test : is_known p.m3i4 ≡ true = rw (drive, known) refl in
    (
      s',
      ap (λ b. (assert 109 b >> (assert 111 (bit_and p.m3l1 0x1FF == 0) >> rest)) s) in_range
          ∙ ap (λ b. (assert 111 b >> rest) s) aligned
          ∙ ap (λ b. (if b then of_device s else halt panic) s) test
          ∙ ap (λ x. request reads x ((p.m3l1 / 2 ^ 9 + base) % 2 ^ 32) p.m3i2 p.m3i3 p.m3p2 s)
              drive
          ∙ ap (λ x. request reads 0 x p.m3i2 p.m3i3 p.m3p2 s) sect
          ∙ ap (λ x. request reads 0 (q + base) x p.m3i3 p.m3p2 s) size
          ∙ run,
      d.memory,
      d.disk,
    )
