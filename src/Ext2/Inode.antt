-- ===== src/Ext2/Inode.antt =====
-- The block map of an inode (kernel/fs/ext2/inode.cpp), and the allocation of blocks over all groups
-- (kernel/fs/ext2/ext2.cpp). The table of inodes is kept apart from the bytes of the device, by the
-- index of the inode, as that of the groups is. A block times the size of a block is far below 2^64.
use crep_os.Base.{
  ℕ, zero, suc, ◌+◌, ◌-◌, ◌*◌, ◌/◌, ◌%◌, ◌^◌, Option, none, some, if◌then◌else◌, ◌==◌, ltb, leb,
}
use crep_os.Word.{u32}
use crep_os.Memory.{load_le, store_le}
use crep_os.Ext2.{Ext2, alloc_block}

-- The fields of `inode::raw` that the block map reads or writes.
pub record Raw : Type 0 where
  pub size32l : ℕ
  pub sector_cnt : ℕ
  pub blocks : ℕ → ℕ

pub record Volume : Type 0 where
  pub groups : Ext2
  pub inodes : ℕ → Raw
  pub bgd_cnt : ℕ
  pub blocks_per_group : ℕ
  pub sector_size : ℕ

pub record Inode : Type 0 where
  pub raw : Raw
  pub inode_index : ℕ

abbrev pub bs : Volume → ℕ
bs v = v.groups.block_size

-- `devfs_node.read` and `devfs_node.write` of four bytes.
unfoldable pub word : Volume → (off : ℕ) → ℕ
word v off = load_le v.groups.device off 4

unfoldable pub put_word : Volume → (off value : ℕ) → Volume
put_word v off value = record v {
  groups = record (v.groups) { device = store_le v.groups.device off 4 value };
}

-- `inode::write_back`
abbrev pub inode_back : Volume → Inode → Volume
inode_back v n = record v { inodes = λ i. if i == n.inode_index then n.raw else v.inodes i }

-- The loop of `fs::alloc_block` over the groups from `i` on; `none` is -1.
abbrev pub in_group : Volume → (i : ℕ) → Option ℕ × Ext2 → Option (ℕ × Volume)
in_group v i (none, groups) = none
in_group v i (some block, groups) =
    some (i * v.blocks_per_group + block, record v { groups = groups })

unfoldable pub alloc_in : Volume → (i rounds : ℕ) → Option (ℕ × Volume)
unfolding alloc_block
alloc_in v i zero = none
alloc_in v i (suc rounds) =
    let rest = alloc_in v (i + 1) rounds in
    elim (in_group v i (alloc_block v.groups i)) [ none ↦ rest | some taken ↦ some taken ]

unfoldable pub fs_alloc_block : Volume → Option (ℕ × Volume)
unfolding alloc_in
fs_alloc_block v = alloc_in v 0 v.bgd_cnt

-- Four bytes read into an `ssize_t` of -1.
abbrev pub over_minus_one : ℕ → ℕ
over_minus_one value = 2 ^ 64 - 2 ^ 32 + value

abbrev pub per_level : Volume → ℕ
per_level v = bs v / 4

-- `inode::get_block` behind the direct and the single indirect blocks.
unfoldable pub get_deep : Volume → Raw → (iblock : ℕ) → ℕ
unfolding word
get_deep v raw iblock =
    let single_index = iblock / per_level v in
    let indirect_offset = iblock % per_level v in
    if leb (per_level v) single_index
    then (let double_index = (iblock - per_level v * per_level v) / per_level v in
        let single = word v (raw.blocks 14 * bs v + double_index * 4) in
        let indirect = word v (double_index * bs v + u32 (single * 4)) in
        over_minus_one (word v (indirect * bs v + indirect_offset * 4)))
    else (let indirect = word v (raw.blocks 13 * bs v + single_index * 4) in
        over_minus_one (word v (indirect * bs v + indirect_offset * 4)))

unfoldable pub get_block : Volume → Raw → (iblock : ℕ) → ℕ
unfolding get_deep word
get_block v raw iblock =
    if ltb iblock 12
    then raw.blocks iblock
    else if leb (per_level v) (iblock - 12)
    then get_deep v raw (iblock - 12 - per_level v)
    else over_minus_one (word v (raw.blocks 12 * bs v + (iblock - 12) * 4))

-- `raw.blocks[k] = block`
abbrev pub with_entry : Raw → (k block : ℕ) → Raw
with_entry raw k block = record raw { blocks = λ i. if i == k then block else raw.blocks i }

-- What a call leaves, with its result: `set_to` the block that it was given, or `fails` for -1.
pub data Setting : Type 0 where
  set_to : Volume → Inode → Setting
  fails : Volume → Inode → Setting

-- An entry of an indirect block, or none for want of a free block.
pub data Entry : Type 0 where
  entry : (block : ℕ) → Volume → Entry
  no_entry : Volume → Entry

abbrev pub rooted : Volume → Inode → (k : ℕ) → Option (ℕ × Volume) → Setting
rooted v n k none = fails v n
rooted v n k (some (block, v')) =
    let n' = record n { raw = with_entry n.raw k (block % 2 ^ 32) } in set_to (inode_back v' n') n'

-- `if(!raw.blocks[k])`: a block for the root of a level, and the inode is written back.
unfoldable pub ensure_root : Volume → Inode → (k : ℕ) → Setting
unfolding fs_alloc_block
ensure_root v n k = if n.raw.blocks k == 0 then rooted v n k (fs_alloc_block v) else set_to v n

abbrev pub entered : Volume → (off : ℕ) → Option (ℕ × Volume) → Entry
entered v off none = no_entry v
entered v off (some (block, v')) = entry (block % 2 ^ 32) (put_word v' off (block % 2 ^ 32))

-- An entry of an indirect block, which gets a block if it has none.
unfoldable pub ensure_word : Volume → (off : ℕ) → Entry
unfolding word put_word fs_alloc_block
ensure_word v off =
    if word v off == 0 then entered v off (fs_alloc_block v) else entry (word v off) v

-- The last write of `inode::set_block`.
abbrev pub enter_block : Inode → (indirect_offset disk_block : ℕ) → Entry → Setting
enter_block n indirect_offset disk_block (no_entry v) = fails v n
enter_block n indirect_offset disk_block (entry indirect v) =
    set_to (put_word v (indirect * bs v + indirect_offset * 4) disk_block) n

unfoldable pub set_double : (single_index indirect_offset disk_block : ℕ) → Setting → Setting
unfolding ensure_word put_word
set_double single_index indirect_offset disk_block (fails v n) = fails v n
set_double single_index indirect_offset disk_block (set_to v n) =
    enter_block n indirect_offset disk_block
      (ensure_word v (n.raw.blocks 13 * bs v + single_index * 4))

-- The second table is looked for in the block of the index `double_index`.
abbrev pub second_level : (double_index : ℕ) → Entry → Entry
second_level double_index (no_entry v) = no_entry v
second_level double_index (entry single v) = ensure_word v (double_index * bs v + u32 (single * 4))

unfoldable pub set_triple : (double_index indirect_offset disk_block : ℕ) → Setting → Setting
unfolding ensure_word put_word
set_triple double_index indirect_offset disk_block (fails v n) = fails v n
set_triple double_index indirect_offset disk_block (set_to v n) =
    enter_block n indirect_offset disk_block
      (second_level double_index (ensure_word v (n.raw.blocks 14 * bs v + double_index * 4)))

unfoldable pub set_deep : Volume → Inode → (iblock disk_block : ℕ) → Setting
unfolding set_double set_triple ensure_root
set_deep v n iblock disk_block =
    let single_index = iblock / per_level v in
    let indirect_offset = iblock % per_level v in
    let double_index = (iblock - per_level v * per_level v) / per_level v in
    if leb (per_level v) single_index
    then set_triple double_index indirect_offset disk_block (ensure_root v n 14)
    else set_double single_index indirect_offset disk_block (ensure_root v n 13)

-- `inode::set_block`
unfoldable pub set_block : Volume → Inode → (iblock disk_block : ℕ) → Setting
unfolding set_deep ensure_root
set_block v n iblock disk_block =
    if ltb iblock 12
    then set_to v (record n { raw = with_entry n.raw iblock disk_block })
    else if leb (per_level v) (iblock - 12)
    then set_deep v n (iblock - 12 - per_level v) disk_block
    else ensure_root v n 12
