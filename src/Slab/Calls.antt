-- ===== src/Slab/Calls.antt =====
-- The functions of the namespace `kmm` (kernel/mm/slab.cpp).
use crep_os.Base.{ℕ, zero, suc, Option, none, some, if◌then◌else◌, ◌==◌, ltb, leb}
use crep_os.Memory.{memset, memcpy}
use crep_os.Memutils.{pow2_roundup}
use crep_os.Slab.{Kmm}
use crep_os.Slab.Moves.{alloc_obj, free_obj}

-- The size class of `kmm::alloc`.
unfoldable pub round_size : ℕ → ℕ
round_size size = if leb (pow2_roundup size) 16 then 32 else pow2_roundup size

-- The loop of `kmm::alloc` over the caches: 0 where no cache has that size.
unfoldable pub find_cache : (fuel : ℕ) → Kmm → (c size : ℕ) → Option ℕ
find_cache zero k c size = none
find_cache (suc fuel) k c size =
    let next = (k.caches c).next_cache in
    let rest = find_cache fuel k next size in
    if (k.caches c).object_size == size then some c else if next == 0 then some 0 else rest

unfoldable pub alloc : (fuel : ℕ) → Kmm → (size : ℕ) → Option (ℕ × Kmm)
unfolding find_cache alloc_obj round_size
alloc fuel k size =
    if size == 0 then some (0, k) else elim (find_cache fuel k k.cache_root (round_size size)) [
      | none ↦ none
      | some c ↦ if c == 0 then some (0, k) else alloc_obj fuel k c
    ]

-- `kmm::free`: it returns at the first cache whose `free_obj` is not 0.
unfoldable pub free_from : (fuel : ℕ) → Kmm → (c obj : ℕ) → Option (ℕ × Kmm)
unfolding free_obj
free_from zero k c obj = none
free_from (suc fuel) k c obj =
    let (done, k') = free_obj k c obj in
    let next = (k'.caches c).next_cache in
    let rest = free_from fuel k' next obj in
    if done
    then (if next == 0 then some (0, k') else rest)
    else some ((k'.caches c).object_size, k')

unfoldable pub free : (fuel : ℕ) → Kmm → (obj : ℕ) → Option (ℕ × Kmm)
unfolding free_from
free fuel k obj = if obj == 0 then some (0, k) else free_from fuel k k.cache_root obj

unfoldable pub calloc_bytes : (fuel : ℕ) → Kmm → (cnt : ℕ) → Option (ℕ × Kmm)
unfolding alloc
calloc_bytes fuel k cnt = elim (alloc fuel k cnt) [
  | none ↦ none
  | some (addr, k') ↦
      if addr == 0
      then some (0, k')
      else some
          (addr, record k' { pmm = record (k'.pmm) { memory = memset 1 k'.pmm.memory addr 0 cnt } })
]

-- `realloc` and `recalloc`, with `kmm::alloc` or `kmm::calloc` for the new block: the larger of the
-- two sizes is copied.
unfoldable pub realloc_by :
    (Kmm → ℕ → Option (ℕ × Kmm)) → (fuel : ℕ) → Kmm → (addr cnt : ℕ) → Option (ℕ × Kmm)
unfolding free
realloc_by get fuel k addr cnt = if addr == 0 then some (0, k) else elim (free fuel k addr) [
  | none ↦ none
  | some (size, k1) ↦ elim (get k1 cnt) [
    | none ↦ none
    | some (p, k2) ↦
        let bytes = if ltb cnt size then size else cnt in
        some
          (p, record k2 { pmm = record (k2.pmm) { memory = memcpy 1 k2.pmm.memory p addr bytes } })
  ]
]

unfoldable pub realloc : (fuel : ℕ) → Kmm → (addr cnt : ℕ) → Option (ℕ × Kmm)
unfolding realloc_by alloc
realloc fuel = realloc_by (alloc fuel) fuel

unfoldable pub recalloc : (fuel : ℕ) → Kmm → (addr cnt : ℕ) → Option (ℕ × Kmm)
unfolding realloc_by calloc_bytes
recalloc fuel = realloc_by (calloc_bytes fuel) fuel
