-- ===== src/Slab.antt =====
-- The object allocator (kernel/mm/slab.hpp, kernel/mm/slab.cpp): caches of objects of one size over
-- slabs of 256 objects. A slab or a cache is known by its address, 0 is NULL; their fields are kept
-- apart from the bytes, which hold the bitmaps and the objects.
pub mod Moves
pub mod Calls
pub mod Objects
pub mod Chains
use crep_os.Base.{
  ℕ, zero, suc, ◌+◌, ◌*◌, ◌/◌, Bool, true, false, ◌&&◌, Option, none, some, if◌then◌else◌, ◌==◌,
  ltb, leb,
}
use crep_os.Word.{u64, sub64}
use crep_os.Memory.{Memory, bm_test, bm_set, bm_clear, bm_first_free, memset, memcpy}
use crep_os.Memutils.{div_roundup, align_up, pow2_roundup}
use crep_os.Pmm.{Pmm, Alloc, allocated, calloc, page_size, high_vma}

abbrev pub objects_per_slab : ℕ
objects_per_slab = 256

abbrev pub sizeof_slab : ℕ
sizeof_slab = 48

abbrev pub sizeof_cache : ℕ
sizeof_cache = 88

pub record Slab : Type 0 where
  pub available_objects : ℕ
  pub parent : ℕ
  pub buf : ℕ
  pub bitmap : ℕ
  pub next : ℕ
  pub last : ℕ

pub record Cache : Type 0 where
  pub object_size : ℕ
  pub pages_per_slab : ℕ
  pub slab_empty : ℕ
  pub slab_partial : ℕ
  pub slab_full : ℕ
  pub next_cache : ℕ
  pub last_cache : ℕ

pub record Kmm : Type 0 where
  pub pmm : Pmm
  pub slabs : ℕ → Slab
  pub caches : ℕ → Cache
  pub cache_root : ℕ

abbrev pub put_slab : Kmm → ℕ → Slab → Kmm
put_slab k p s = record k { slabs = λ q. if q == p then s else k.slabs q }

abbrev pub put_cache : Kmm → ℕ → Cache → Kmm
put_cache k p c = record k { caches = λ q. if q == p then c else k.caches q }

-- The three heads of a cache that `move_slab` is called with.
pub data Head : Type 0 where
  empty partial full : Head

abbrev pub head : Head → Cache → ℕ
head empty c = c.slab_empty
head partial c = c.slab_partial
head full c = c.slab_full

abbrev pub set_head : Head → Cache → ℕ → Cache
set_head empty c p = record c { slab_empty = p }
set_head partial c p = record c { slab_partial = p }
set_head full c p = record c { slab_full = p }

-- `while(node->next != NULL) node = node->next`; `none` is a walk that has not ended.
unfoldable pub last_slab : (fuel : ℕ) → Kmm → ℕ → Option ℕ
last_slab zero k node = none
last_slab (suc fuel) k node =
    let rest = last_slab fuel k (k.slabs node).next in
    if (k.slabs node).next == 0 then some node else rest

unfoldable pub last_of_caches : (fuel : ℕ) → Kmm → ℕ → Option ℕ
last_of_caches zero k node = none
last_of_caches (suc fuel) k node =
    let rest = last_of_caches fuel k (k.caches node).next_cache in
    if (k.caches node).next_cache == 0 then some node else rest

-- Appends slab `p` to the chain that starts at `head`, as `alloc_slab` and `move_slab` do: the
-- slab's own `next` is left as it is.
unfoldable pub append_slab : (fuel : ℕ) → Kmm → (head p : ℕ) → Option Kmm
unfolding last_slab
append_slab fuel k head p = elim (last_slab fuel k head) [
  | none ↦ none
  | some node ↦
      let k' = put_slab k node (record (k.slabs node) { next = p }) in
      some (put_slab k' p (record (k'.slabs p) { last = node }))
]

-- `alloc_slab`: the slab's header, its bitmap and its objects in fresh zeroed pages.
unfoldable pub alloc_slab : (fuel : ℕ) → Kmm → (parent : ℕ) → Option (ℕ × Kmm)
unfolding append_slab
alloc_slab fuel k parent = elim (calloc k.pmm (k.caches parent).pages_per_slab 1) [
  | allocated a q ↦
      let p = u64 (a + high_vma) in
      let s : Slab = record {
        available_objects = objects_per_slab;
        parent = parent;
        buf = align_up (p + sizeof_slab + objects_per_slab / 8) 16;
        bitmap = p + sizeof_slab;
        next = 0;
        last = 0;
      } in
      let k' = put_slab (record k { pmm = q }) p s in
      if (k.caches parent).slab_empty == 0
      then some (p, put_cache k' parent (record (k.caches parent) { slab_empty = p }))
      else (elim (append_slab fuel k' (k.caches parent).slab_empty p) [
        | none ↦ none
        | some k'' ↦ some (p, k'')
      ])
  | _ ↦ none
]

-- `cache::cache`, which sets up the object `this` and then goes on with a copy of it, that it puts
-- before the objects of the first slab.
unfoldable pub new_cache : (fuel : ℕ) → Kmm → (this object_size : ℕ) → Option Kmm
unfolding alloc_slab last_of_caches
new_cache fuel k this object_size =
    let k1 = put_cache k this (record (k.caches this) {
      object_size = object_size;
      pages_per_slab =
          div_roundup (object_size * objects_per_slab + sizeof_slab + objects_per_slab / 8)
            page_size;
    }) in
    elim (alloc_slab fuel k1 this) [
      | none ↦ none
      | some (p, k2) ↦
          let at = (k2.slabs p).buf in
          let k3 = put_cache k2 at (k2.caches this) in
          let k4 = put_slab k3 p (record (k3.slabs p) { buf = at + sizeof_cache; parent = at }) in
          if k4.cache_root == 0
          then some (record k4 { cache_root = at })
          else (elim (last_of_caches fuel k4 k4.cache_root) [
            | none ↦ none
            | some node ↦
                let k5 = put_cache k4 node (record (k4.caches node) { next_cache = at }) in
                some (put_cache k5 at (record (k5.caches at) { last_cache = node }))
          ])
    ]

-- `slab::alloc`: the address of the first free object, 0 where the slab has none.
unfoldable pub give : Kmm → (p : ℕ) → Option ℕ → ℕ × Kmm
give k p none = (0, k)
give k p (some i) =
    let s = k.slabs p in
    (
      s.buf + i * (k.caches s.parent).object_size,
      put_slab (record k { pmm = record (k.pmm) { memory = bm_set k.pmm.memory s.bitmap i } }) p
          (record s { available_objects = sub64 s.available_objects 1 }),
    )

unfoldable pub slab_alloc : Kmm → (p : ℕ) → ℕ × Kmm
unfolding give
slab_alloc k p = give k p (bm_first_free k.pmm.memory (k.slabs p).bitmap objects_per_slab)

-- `slab::free`, which nothing calls.
unfoldable pub slab_free : Kmm → (p index : ℕ) → Kmm
slab_free k p index =
    let s = k.slabs p in
    if bm_test k.pmm.memory s.bitmap index
    then put_slab
        (record k { pmm = record (k.pmm) { memory = bm_clear k.pmm.memory s.bitmap index } }) p
        (record s { available_objects = u64 (s.available_objects + 1) })
    else k
