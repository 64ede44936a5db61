-- ===== src/Fs/Mkfs/Tests.antt =====
-- A file system on a device of 80000 sectors.
use dlos.Prelude.{◌≡◌, arith}
use dlos.Kernel.Proc.{done}
use dlos.Fs.State.{Fs}
use dlos.Fs.Sample.{fs}
use dlos.Fs.Mkfs.{root_dev, new_super_block, init_fs}
use dlos.Fs.Mkfs.Root.{SameSuper, IsRoot}
use dlos.Fs.Mkfs.Start.{init_fs-IsRoot}

init_fs-IsRoot_example :
    (s' : Fs) × (init_fs 80000 fs ≡ done tt s')
    × SameSuper (new_super_block 80000) (s'.super_block 0)
    × ((s'.super_block 0).sb_dev ≡ root_dev)
    × IsRoot (s'.inode_table s'.root_inode) (new_super_block 80000)
init_fs-IsRoot_example = init_fs-IsRoot 80000 fs (omega arith)
