-- ===== src/Tests/Slab.antt =====
-- Small runs of the object allocator.
use crep_os.Base.{ℕ, ◌+◌, ◌≡◌, refl, true, some, [], if◌then◌else◌, ◌==◌, arith}
use crep_os.Memutils.{pow2_roundup}
use crep_os.Memory.{bm_test, bm_first_free}
use crep_os.Pmm.{Pmm}
use crep_os.Slab.{Kmm, Head, slab_alloc}
use crep_os.Slab.Moves.{move_slab, alloc_obj, free_obj}
use crep_os.Slab.Calls.{round_size}
use crep_os.Slab.Objects.{Served, slab_alloc-Served, free_obj-alloc_obj}
use crep_os.Slab.Chains.{IsNeighbours, IsMerged, move_slab-IsMerged}

abbrev pages : Pmm
pages = record {
  memory = λ x. if x == 0x5030 then 3 else 0;
  chunks = [];
  buffer = 0;
  total_mem = 0;
  total_used_mem = 0;
}

-- Slab 10 of cache 1 has its first two objects in use and is followed by slab 11; slab 20 is full.
abbrev kmm : Kmm
kmm = record {
  pmm = pages;
  slabs = λ p. record {
    available_objects = if p == 20 then 0 else 254;
    parent = 1;
    buf = 0x5060;
    bitmap = 0x5030;
    next = if p == 10 then 11 else 0;
    last = 0;
  };
  caches = λ c. record {
    object_size = 32;
    pages_per_slab = 3;
    slab_empty = 0;
    slab_partial = 10;
    slab_full = 20;
    next_cache = 0;
    last_cache = 0;
  };
  cache_root = 1;
}

class_of_17 : round_size 17 ≡ 32
unfolding round_size pow2_roundup
class_of_17 = refl

slab_alloc-Served_example : Served kmm 10 (slab_alloc kmm 10).0 (slab_alloc kmm 10).1
slab_alloc-Served_example = slab_alloc-Served kmm 10

free_obj-alloc_obj_example :
    (obj : ℕ) × (k1 : Kmm) × (k2 : Kmm) × (alloc_obj 5 kmm 1 ≡ some (obj, k1))
    × (free_obj k1 1 obj ≡ (true, k2))
    × ((j : ℕ) → bm_test k2.pmm.memory 0x5030 j ≡ bm_test kmm.pmm.memory 0x5030 j)
    × ((k2.slabs 10).available_objects + 1 ≡ 254)
unfolding bm_first_free
free_obj-alloc_obj_example =
    free_obj-alloc_obj kmm 1 5 2
      (record {
        partial_slab = omega arith;
        parent = refl;
        size = omega arith;
        fits = omega arith;
        more = omega arith;
        fewer = omega arith;
      })
      refl

neighbours : IsNeighbours kmm 1 10 20 11
neighbours = record {
  is_first = refl;
  is_full = refl;
  src_next = refl;
  src_last = refl;
  d_next = refl;
  some_src = omega arith;
  some_d = omega arith;
  some_n = omega arith;
  apart = (omega arith, omega arith, omega arith);
}

move_slab-IsMerged_example :
    (k' : Kmm) × (move_slab 4 kmm 1 Head.full Head.partial 10 ≡ some k')
    × IsMerged kmm 1 10 20 11 neighbours k'
move_slab-IsMerged_example = move_slab-IsMerged kmm 1 10 20 11 neighbours 3
