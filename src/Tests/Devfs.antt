-- ===== src/Tests/Devfs.antt =====
-- Devices with one partition.
use crep_os.Base.{ℕ, ◌+◌, ◌-◌, ◌^◌, ◌<◌, ◌≡◌, [], ◌∷◌, some, if◌then◌else◌, ◌==◌, refl, arith}
use crep_os.Memory.{Memory, load_le}
use crep_os.Vfs.Nodes.{boot}
use crep_os.Devfs.Partitions.{
  Msd, DevNode, DevState, node_io, gpt_entry, mbr_entry, scan_partitions, node_for,
}
use crep_os.Devfs.Entries.{node_io-shared, gpt_entry-sector_cnt}
use crep_os.Devfs.Scan.{IsReady, IsScanned, listed, scan_partitions-IsScanned}
use crep_os.Tests.Vfs.{boot-IsVfs}

-- 100 sectors from 2048 on.
abbrev mbr : Memory
mbr a =
    if a == 510
    then 85
    else if a == 511
    then 170
    else if a == 450
    then 131
    else if a == 455
    then 8
    else if a == 458
    then 100
    else 0

-- The sectors from 34 to 100, in an array at 1024.
abbrev gpt : Memory
gpt a = if a == 1024 then 1 else if a == 1056 then 34 else if a == 1064 then 100 else 0

abbrev device : Memory → Msd
device disk = record {
  id = 0;
  disk = disk;
  device_prefix = 115 ∷ 100 ∷ [];
  device_index = 0;
  sector_size = 512;
}

abbrev start : DevState
start = record { vfs = boot; node_list = []; partition_cnt = 0 }

listed_run : listed (device mbr) ≡ (1048576, 100) ∷ []
unfolding listed mbr_entry load_le
listed_run = refl

ready : IsReady (device mbr) boot
ready = record { sound = boot-IsVfs; rooted = omega arith; index = omega arith }

array_size : load_le mbr 592 4 ≡ 0
unfolding load_le
array_size = refl

scan_partitions-IsScanned_example :
    (st' : DevState) × ((scan_partitions (device mbr) start ≡ some st')
      × IsScanned (device mbr) start (listed (device mbr)) st')
scan_partitions-IsScanned_example =
    scan_partitions-IsScanned (device mbr) start ready (omega (arith, array_size))

abbrev part : ℕ → DevNode
part offset = record {
  vfs_node = some 1;
  partition_offset = offset;
  sector_cnt = 100;
  device = some 0;
}

node_io-shared_example :
    node_io (λ id off cnt. off) (part 1048576) 51300 512
    ≡ node_io (λ id off cnt. off) (part 1099776) 100 512
node_io-shared_example =
    node_io-shared (λ id off cnt. off) (part 1048576) (part 1099776) 0 100 512 refl refl
      (omega arith)

in_array : gpt_entry (device gpt) 1024 0 ≡ some (17408, 2 ^ 64 - 66)
unfolding gpt_entry load_le
in_array = refl

first_sector : load_le gpt 1056 8 ≡ 34
unfolding load_le
first_sector = refl

last_sector : load_le gpt 1064 8 ≡ 100
unfolding load_le
last_sector = refl

gpt_entry-sector_cnt_example :
    (2 ^ 63 < 2 ^ 64 - 66) × (2 ^ 64 - 66 + (load_le gpt 1064 8 - load_le gpt 1056 8) ≡ 2 ^ 64)
gpt_entry-sector_cnt_example =
    gpt_entry-sector_cnt (device gpt) 1024 0 17408 (2 ^ 64 - 66) in_array
      (omega (arith, first_sector, last_sector)) (omega (arith, last_sector))

node_for_run : node_for (part 0 ∷ part 512 ∷ []) 1 ≡ some (part 0)
unfolding node_for
node_for_run = refl
