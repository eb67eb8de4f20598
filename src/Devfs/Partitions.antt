-- ===== src/Devfs/Partitions.antt =====
-- The partition tables of a device and the nodes that are made for what they list
-- (kernel/fs/devfs.hpp, kernel/fs/devfs.cpp). A device is given by the bytes that its `read` brings;
-- the file system that each new partition is mounted with is left out.
use crep_os.Base.{
  ℕ, zero, suc, ◌+◌, ◌*◌, ◌&&◌, List, [], ◌∷◌, ◌++◌, Option, none, some, if◌then◌else◌, ◌==◌,
  length,
}
use crep_os.Word.{u64, sub64}
use crep_os.Memory.{Memory, load_le}
use crep_os.Text.{Text, append_number}
use crep_os.Text.Path.{nonempty, pieces}
use crep_os.Vfs.Nodes.{Vfs, node_ctor, search_absolute}

-- `id` tells devices apart.
pub record Msd : Type 0 where
  pub id : ℕ
  pub disk : Memory
  pub device_prefix : Text
  pub device_index : ℕ
  pub sector_size : ℕ

pub record DevNode : Type 0 where
  pub vfs_node : Option ℕ
  pub partition_offset : ℕ
  pub sector_cnt : ℕ
  pub device : Option ℕ

-- The nodes of the kernel, the list of the partitions, and the count of those of the device.
pub record DevState : Type 0 where
  pub vfs : Vfs
  pub node_list : List DevNode
  pub partition_cnt : ℕ

-- `node::read` and `node::write`, over the operation of the devices; `none` is the result -1.
unfoldable pub node_io :
    {R : Type 0} → (device_io : (id off cnt : ℕ) → R) → DevNode → (start cnt : ℕ) → Option R
node_io device_io n start cnt = elim (n.device) [
  | none ↦ none
  | some id ↦ some (device_io id (u64 (start + n.partition_offset)) cnt)
]

-- The constructor with a node of the virtual file system.
unfoldable pub node_for : List DevNode → (vfs_search_node : ℕ) → Option DevNode
node_for [] i = none
node_for (n ∷ node_list) i =
    let rest = node_for node_list i in
    elim (n.vfs_node) [ none ↦ rest | some j ↦ if i == j then some n else rest ]

-- "/dev/" and the device, "-" and the count.
abbrev pub dev_dir : Text
dev_dir = 47 ∷ 100 ∷ 101 ∷ 118 ∷ 47 ∷ []

unfoldable pub partition_path : Msd → (partition_cnt : ℕ) → Option Text
partition_path d partition_cnt = elim (append_number (dev_dir ++ d.device_prefix) d.device_index) [
  | none ↦ none
  | some device_path ↦ append_number (device_path ++ (45 ∷ [])) partition_cnt
]

-- Rounds enough for the loops over a path and over the nodes.
abbrev pub path_fuel : Vfs → Text → ℕ
path_fuel vfs path = suc (length path + length vfs.nodes + length (nonempty (pieces path)))

abbrev pub with_partition :
    Msd → DevState → (vfs : Vfs) → (offset sectors : ℕ) → (found : Option ℕ) → DevState
with_partition d st vfs offset sectors found = record {
  vfs = vfs;
  node_list =
      st.node_list
      ++ (record {
        vfs_node = found;
        partition_offset = offset;
        sector_cnt = sectors;
        device = some d.id;
      }
          ∷ []);
  partition_cnt = u64 (st.partition_cnt + 1);
}

abbrev pub found_node :
    Msd → DevState → (vfs : Vfs) → (offset sectors : ℕ) → Option (Option ℕ) → Option DevState
found_node d st vfs offset sectors none = none
found_node d st vfs offset sectors (some found) =
    some (with_partition d st vfs offset sectors found)

-- A partition: its node in the tree, and its entry in the list. `none` is a string that cannot be
-- made, or an end of the rounds.
unfoldable pub add_partition : Msd → DevState → (offset sectors : ℕ) → Option DevState
unfolding partition_path
add_partition d st offset sectors = elim (partition_path d st.partition_cnt) [
  | none ↦ none
  | some path ↦ elim (node_ctor (path_fuel st.vfs path) st.vfs path none) [
    | none ↦ none
    | some vfs ↦
        found_node d st vfs offset sectors (search_absolute (path_fuel st.vfs path) vfs.nodes path)
  ]
]

-- The start and the sectors of an entry that is in use.
unfoldable pub mbr_entry : Msd → (i : ℕ) → Option (ℕ × ℕ)
mbr_entry d i =
    if load_le d.disk (446 + i * 16 + 4) 1 == 0
    then none
    else some (
      u64 (load_le d.disk (446 + i * 16 + 8) 4 * d.sector_size),
      load_le d.disk (446 + i * 16 + 12) 4,
    )

unfoldable pub gpt_entry : Msd → (part_arr i : ℕ) → Option (ℕ × ℕ)
gpt_entry d part_arr i =
    if load_le d.disk (part_arr + i * 128) 8 == 0 && load_le d.disk (part_arr + i * 128 + 8) 8 == 0
    then none
    else some (
      u64 (load_le d.disk (part_arr + i * 128 + 32) 8 * d.sector_size),
      sub64 (load_le d.disk (part_arr + i * 128 + 32) 8)
          (load_le d.disk (part_arr + i * 128 + 40) 8),
    )

-- The loop over the entries from `i` on.
unfoldable pub partition_loop :
    (entry : ℕ → Option (ℕ × ℕ)) → Msd → (rounds i : ℕ) → DevState → Option DevState
partition_loop entry d zero i st = some st
partition_loop entry d (suc rounds) i st = elim (entry i) [
  | none ↦ partition_loop entry d rounds (i + 1) st
  | some (offset, sectors) ↦ elim (add_partition d st offset sectors) [
    | none ↦ none
    | some st' ↦ partition_loop entry d rounds (i + 1) st'
  ]
]

abbrev pub gpt_array : Msd → ℕ
gpt_array d = u64 (load_le d.disk (d.sector_size + 72) 8 * d.sector_size)

unfoldable pub scan_partitions : Msd → DevState → Option DevState
unfolding partition_loop
scan_partitions d st =
    if load_le d.disk 510 2 == 43605
    then partition_loop (mbr_entry d) d 4 0 st
    else if load_le d.disk d.sector_size 8 == 4991757640121012820
    then partition_loop (gpt_entry d (gpt_array d)) d (load_le d.disk (d.sector_size + 80) 4) 0 st
    else some st
