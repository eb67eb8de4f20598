-- ===== src/Slab/Moves.antt =====
-- The methods of `cache` (kernel/mm/slab.cpp): the moves of slabs between its three chains, and the
-- objects that it gives and takes back.
use crep_os.Base.{
  ℕ, ◌+◌, ◌*◌, ◌/◌, Bool, true, false, ◌&&◌, Option, none, some, if◌then◌else◌, ◌==◌, ltb, leb,
}
use crep_os.Word.{sub64}
use crep_os.Memory.{bm_clear}
use crep_os.Slab.{
  objects_per_slab, Kmm, put_slab, put_cache, Head, head, set_head, append_slab, alloc_slab,
  slab_alloc, empty, partial, full,
}

-- The unlinking in `move_slab`: the neighbours of `src`, then the head.
unfoldable pub unlink : Kmm → (c : ℕ) → Head → (src : ℕ) → Kmm
unlink k c from src =
    let s = k.slabs src in
    let k1 =
      if s.next == 0 then k else put_slab k s.next (record (k.slabs s.next) { last = s.last }) in
    let t = k1.slabs src in
    let k2 =
      if t.last == 0 then k1 else put_slab k1 t.last (record (k1.slabs t.last) { next = t.next }) in
    if head from (k.caches c) == src
    then put_cache k2 c (set_head from (k.caches c) (k2.slabs src).next)
    else k2

-- The linking in `move_slab`, at the end of the chain of head `dest`.
unfoldable pub attach : (fuel : ℕ) → Kmm → (c : ℕ) → (dest : Head) → (src : ℕ) → Option Kmm
unfolding append_slab
attach fuel k c dest src =
    if head dest (k.caches c) == 0
    then some (
        put_cache (put_slab k src (record (k.slabs src) { last = 0; next = 0 })) c
          (set_head dest (k.caches c) src))
    else append_slab fuel k (head dest (k.caches c)) src

-- `cache::move_slab` between two heads of cache `c`; the return value is never read.
unfoldable pub move_slab : (fuel : ℕ) → Kmm → (c : ℕ) → (dest from : Head) → (src : ℕ) → Option Kmm
unfolding unlink attach
move_slab fuel k c dest from src =
    if src == 0
    then some k
    else if head from (k.caches c) == 0
    then some k
    else attach fuel (unlink k c from src) c dest src

-- The slab that `alloc_obj` takes an object from.
unfoldable pub pick : (fuel : ℕ) → Kmm → (c : ℕ) → Option (ℕ × Kmm)
unfolding alloc_slab
pick fuel k c =
    let cache = k.caches c in
    let p = if cache.slab_partial == 0 then cache.slab_empty else cache.slab_partial in
    if p == 0
    then (elim (alloc_slab fuel k c) [
      | none ↦ none
      | some (q, k') ↦ some (q, put_cache k' c (record (k'.caches c) { slab_empty = q }))
    ])
    else some (p, k)

-- The moves of `alloc_obj` once slab `p` has given an object.
unfoldable pub refile : (fuel : ℕ) → Kmm → (c p : ℕ) → Option Kmm
unfolding move_slab
refile fuel k c p =
    let left = (k.slabs p).available_objects in
    if left == 0
    then move_slab fuel k c full partial p
    else if left == 255
    then move_slab fuel k c partial empty p
    else some k

unfoldable pub filed : (fuel : ℕ) → (c p : ℕ) → ℕ × Kmm → Option (ℕ × Kmm)
unfolding refile
filed fuel c p (obj, k) = elim (refile fuel k c p) [ none ↦ none | some k' ↦ some (obj, k') ]

unfoldable pub alloc_obj : (fuel : ℕ) → Kmm → (c : ℕ) → Option (ℕ × Kmm)
unfolding pick slab_alloc filed
alloc_obj fuel k c = elim (pick fuel k c) [
  | none ↦ none
  | some (p, k') ↦ filed fuel c p (slab_alloc k' p)
]

-- Whether slab `p` holds `obj`, as `scan_slab` tests it.
unfoldable pub slab_holds : Kmm → (c p obj : ℕ) → Bool
slab_holds k c p obj =
    if p == 0
    then false
    else leb (k.slabs p).buf obj
      && ltb obj ((k.slabs p).buf + (k.caches c).object_size * objects_per_slab)

-- The bit that `scan_slab` clears; `available_objects` stays.
unfoldable pub clear_obj : Kmm → (c p obj : ℕ) → Kmm
clear_obj k c p obj =
    let s = k.slabs p in
    record k {
      pmm = record (k.pmm) {
        memory = bm_clear k.pmm.memory s.bitmap (sub64 obj s.buf / (k.caches c).object_size);
      };
    }

-- `cache::free_obj`, over the first partial and the first full slab: true for 0, false for -1.
unfoldable pub free_obj : Kmm → (c obj : ℕ) → Bool × Kmm
unfolding slab_holds clear_obj
free_obj k c obj =
    if slab_holds k c (k.caches c).slab_partial obj
    then (true, clear_obj k c (k.caches c).slab_partial obj)
    else if slab_holds k c (k.caches c).slab_full obj
    then (true, clear_obj k c (k.caches c).slab_full obj)
    else (false, k)
