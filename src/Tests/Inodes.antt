-- ===== src/Tests/Inodes.antt =====
-- Runs of the block map of an inode.
use crep_os.Base.{ℕ, ◌+◌, ◌*◌, ◌%◌, ◌^◌, ◌≡◌, some, if◌then◌else◌, ltb, arith}
use crep_os.Memory.{Memory, bm_test, load_le}
use crep_os.Ext2.{Ext2}
use crep_os.Ext2.Inode.{Raw, Volume, Inode, word, get_block, set_block, set_to}
use crep_os.Ext2.Files.{place, inode_read}
use crep_os.Ext2.Reading.{inode_read-filled}
use crep_os.Ext2.BlockMap.{IsDouble, get_block-set_block}
use crep_os.Ext2.Release.{fs_free_block, fs_free_block-bitmap}

abbrev groups : Ext2
groups = record {
  device = λ i. 1;
  descriptors = λ g. record {
    block_addr_bitmap = 3;
    block_addr_inode = 4;
    unallocated_blocks = 10;
    unallocated_inodes = 10;
  };
  block_size = 1024;
  inodes_per_group = 1000;
}

abbrev raw : Raw
raw = record { size32l = 5000; sector_cnt = 10; blocks = λ k. k + 5 }

abbrev volume : Volume
volume = record {
  groups = groups;
  inodes = λ i. raw;
  bgd_cnt = 1;
  blocks_per_group = 8192;
  sector_size = 512;
}

abbrev file : Inode
file = record { raw = raw; inode_index = 12 }

abbrev buffer : Memory
buffer = λ x. 0

inode_read-filled_example :
    (buf' : Memory) × (inode_read 101 volume raw 1000 100 buffer ≡ some buf')
    × ((x : ℕ)
        → buf' x
          ≡ (if ltb x 100 then volume.groups.device (place volume raw (1000 + x)) else buffer x))
inode_read-filled_example =
    inode_read-filled volume raw (omega arith) 101 1000 100 buffer (omega arith)

far-IsDouble : IsDouble volume raw 271
unfolding word load_le
far-IsDouble = record {
  behind = omega arith;
  in_table = omega arith;
  root = λ e. omega arith;
  table = λ e. omega arith;
  own_table = λ e. omega arith;
}

get_block-set_block_example :
    (v' : Volume) × (set_block volume file 271 99 ≡ set_to v' file)
    × (get_block v' raw 271 % 2 ^ 32 ≡ 99)
get_block-set_block_example = get_block-set_block volume file 271 99 far-IsDouble (omega arith)

fs_free_block-bitmap_example :
    bm_test (fs_free_block volume 40).groups.device (3 * 1024) 40
    ≡ bm_test volume.groups.device (3 * 1024) 40
fs_free_block-bitmap_example = fs_free_block-bitmap volume 40 40 (omega arith)
