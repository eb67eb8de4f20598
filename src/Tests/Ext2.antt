-- ===== src/Tests/Ext2.antt =====
-- Small runs of the allocation of blocks and inodes.
use crep_os.Base.{◌≡◌, refl, some, if◌then◌else◌, ◌==◌}
use crep_os.Memory.{bm_test, bm_first_free}
use crep_os.Ext2.{Ext2, alloc_block, alloc_inode, free_bit}
use crep_os.Ext2.Groups.{Allocation, alloc_block-Allocation}

abbrev disk : Ext2
disk = record {
  device = λ x. if x == 3072 then 7 else 0;
  descriptors = λ g. record {
    block_addr_bitmap = 3;
    block_addr_inode = 4;
    unallocated_blocks = 20;
    unallocated_inodes = 5;
  };
  block_size = 1024;
  inodes_per_group = 128;
}

fourth_block : (alloc_block disk 130).0 ≡ some 3
unfolding alloc_block free_bit bm_first_free bm_test
fourth_block = refl

first_inode : (alloc_inode disk 0).0 ≡ some 1
unfolding alloc_inode free_bit bm_first_free bm_test
first_inode = refl

alloc_block-Allocation_example :
    Allocation disk 130 (alloc_block disk 130).0 (alloc_block disk 130).1
alloc_block-Allocation_example = alloc_block-Allocation disk 130
