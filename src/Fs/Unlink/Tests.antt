-- ===== src/Fs/Unlink/Tests.antt =====
-- Removing files from the sample file system.
use dlos.Prelude.{ℕ, ◌≡◌, ◌<◌, refl, inr, [], ◌∷◌, arith, if◌then◌else◌, ◌==◌}
use dlos.Kernel.Proc.{done, reset_msg}
use dlos.Kernel.Ipc.Base.{va2la, ldt_seg_linear}
use dlos.Fs.State.{Fs}
use dlos.Fs.Sample.{fs}
use dlos.Fs.Inode.{find_super_block}
use dlos.Fs.Alloc.{alloc_imap_bit}
use dlos.Fs.Files.{string_at, read_pathname}
use dlos.Fs.Unlink.{minus_one, free_imap_bit, do_unlink}
use dlos.Fs.Unlink.Bitmap.{alloc_imap_bit-free_imap_bit}
use dlos.Fs.Unlink.Refused.{do_unlink-absolute}

alloc_imap_bit-free_imap_bit_example :
    (nr : ℕ) × (s' s'' : Fs) × (alloc_imap_bit 0x320 fs ≡ done nr s')
    × (free_imap_bit 0x320 nr s' ≡ done tt s'')
    × ((a : ℕ) → s''.disk 0x320 a ≡ fs.disk 0x320 a)
unfolding find_super_block
alloc_imap_bit-free_imap_bit_example =
    alloc_imap_bit-free_imap_bit 0x320 0 3 fs refl (omega arith) bytes (omega arith) (omega arith)
  where
    bytes : (a : ℕ) → fs.disk 0x320 a < 256
    bytes a = ground arith

-- The path /bar at the address 0x9000.
abbrev bar : ℕ → ℕ
bar a =
    if a == 0x9000
    then 47
    else if a == 0x9001
    then 98
    else if a == 0x9002
    then 97
    else if a == 0x9003
    then 114
    else 0

abbrev unlinking : Fs
unlinking = record fs {
  memory = bar;
  fs_msg = record reset_msg { source = 4; m3i2 = 4; m3p1 = 0x9000 };
}

do_unlink-absolute_example : do_unlink unlinking ≡ done minus_one unlinking
unfolding read_pathname string_at va2la ldt_seg_linear
do_unlink-absolute_example = do_unlink-absolute unlinking (47 ∷ 98 ∷ 97 ∷ 114 ∷ []) refl (inr refl)
