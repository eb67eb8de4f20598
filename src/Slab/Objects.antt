-- ===== src/Slab/Objects.antt =====
-- The objects of one slab: what `slab::alloc` and `cache::free_obj` do to its bitmap.
use crep_os.Base.{
  ℕ, ◌+◌, ◌-◌, ◌*◌, ◌/◌, ◌^◌, ◌<◌, ◌≡◌, ◌≢◌, ◌∙◌, refl, sym, ap, subst, true, false, Option, none,
  some, if◌then◌else◌, ◌==◌, arith,
}
use native.Mathlib.Nat.{mul-div_cancel, mul-lt-mul_of_pos_right}
use crep_os.Word.{sub64}
use crep_os.Memory.{bm_test, bm_first_free}
use crep_os.Memory.Bitmap.{FirstFree, bm_first_free_lem, bm_test-bm_set, bm_test-bm_clear}
use crep_os.Slab.{Kmm, objects_per_slab, give, slab_alloc}
use crep_os.Slab.Moves.{clear_obj, slab_holds, refile, filed, pick, alloc_obj, free_obj}

-- What `slab::alloc` may come to: no object, where all are in use, or the first free one.
pub data Served (k : Kmm) (p : ℕ) : (obj : ℕ) → Kmm → Type 0 where
  full :
      ((j : ℕ) → j < objects_per_slab → bm_test k.pmm.memory (k.slabs p).bitmap j ≡ true)
      → Served k p 0 k
  taken :
      (i : ℕ) (k' : Kmm)
      → i < objects_per_slab
      → bm_test k.pmm.memory (k.slabs p).bitmap i ≡ false
      → ((j : ℕ)
          → bm_test k'.pmm.memory (k.slabs p).bitmap j
            ≡ (if j == i then true else bm_test k.pmm.memory (k.slabs p).bitmap j))
      → (k'.slabs p).available_objects ≡ sub64 (k.slabs p).available_objects 1
      → Served k p ((k.slabs p).buf + i * (k.caches (k.slabs p).parent).object_size) k'

module _ (k : Kmm) (p : ℕ) where
  give-Served :
      (o : Option ℕ)
      → FirstFree k.pmm.memory (k.slabs p).bitmap 0 objects_per_slab o
      → Served k p (give k p o).0 (give k p o).1
  unfolding give
  give-Served none h = full (λ j l. h j (omega arith) l)
  give-Served (some i) h =
      taken i (give k p (some i)).1 h.1 h.0
        (λ j. ground (arith, bm_test-bm_set k.pmm.memory (k.slabs p).bitmap i j)) (ground arith)

  -- `slab::alloc` returns 0 and changes nothing where all 256 objects of the slab are in use;
  -- otherwise it returns an object that was free, marks exactly that one, and lowers the count of
  -- available objects by one.
  pub slab_alloc-Served : Served k p (slab_alloc k p).0 (slab_alloc k p).1
  unfolding slab_alloc
  slab_alloc-Served =
      give-Served (bm_first_free k.pmm.memory (k.slabs p).bitmap objects_per_slab)
        (bm_first_free_lem k.pmm.memory (k.slabs p).bitmap objects_per_slab)

  -- The bit that `clear_obj` clears for the object at index `i`.
  clear_obj_lem :
      (c i j obj : ℕ)
      → obj ≡ (k.slabs p).buf + i * (k.caches c).object_size
      → 0 < (k.caches c).object_size
      → obj < 2 ^ 64
      → bm_test (clear_obj k c p obj).pmm.memory (k.slabs p).bitmap j
        ≡ (if i == j then false else bm_test k.pmm.memory (k.slabs p).bitmap j)
  unfolding clear_obj
  clear_obj_lem c i j obj e pos low =
      let diff : sub64 obj (k.slabs p).buf ≡ i * (k.caches c).object_size = omega arith in
      let at : sub64 obj (k.slabs p).buf / (k.caches c).object_size ≡ i =
        ap (λ n. n / (k.caches c).object_size) diff ∙ mul-div_cancel i pos in
      rw at (bm_test-bm_clear k.pmm.memory (k.slabs p).bitmap i j ∙ ground arith)

  -- An object of slab `p` is found by the test of `scan_slab`.
  slab_holds_lem :
      (c i obj : ℕ)
      → obj ≡ (k.slabs p).buf + i * (k.caches c).object_size
      → p ≢ 0
      → i < objects_per_slab
      → 0 < (k.caches c).object_size
      → slab_holds k c p obj ≡ true
  unfolding slab_holds
  slab_holds_lem c i obj e there inside pos =
      let below : i * (k.caches c).object_size < (k.caches c).object_size * 256 =
        omega (arith, mul-lt-mul_of_pos_right inside pos) in
      ground arith

  given :
      (i : ℕ)
      → (give k p (some i)).1.slabs p
        ≡ record (k.slabs p) { available_objects = sub64 (k.slabs p).available_objects 1 }
  unfolding give
  given i = let self : (p == p) ≡ true = ground arith in rw self refl

free_obj-partial :
    (k : Kmm) (c obj : ℕ)
    → slab_holds k c (k.caches c).slab_partial obj ≡ true
    → free_obj k c obj ≡ (true, clear_obj k c (k.caches c).slab_partial obj)
unfolding free_obj
free_obj-partial k c obj e = rw (e, free_obj) refl

refile-stays :
    (fuel : ℕ) (k : Kmm) (c p : ℕ)
    → 0 < (k.slabs p).available_objects
    → (k.slabs p).available_objects < 255
    → refile fuel k c p ≡ some k
unfolding refile
refile-stays fuel k c p some_left less =
    let e : ((k.slabs p).available_objects == 0) ≡ false = ground arith in
    let f : ((k.slabs p).available_objects == 255) ≡ false = ground arith in rw (e, f) refl

-- What `kmm::free` undoes of `alloc_obj`, and what it does not.
module _ (k : Kmm) (c : ℕ) where
  abbrev first : ℕ
  first = (k.caches c).slab_partial

  -- A cache whose first partial slab has more than one object left.
  pub record HasRoom : Type 0 where
    pub partial_slab : first ≢ 0
    pub parent : (k.slabs first).parent ≡ c
    pub size : 0 < (k.caches c).object_size
    pub fits : (k.slabs first).buf + 256 * (k.caches c).object_size < 2 ^ 64
    pub more : 1 < (k.slabs first).available_objects
    pub fewer : (k.slabs first).available_objects < 256

  module _ (r : HasRoom) (i : ℕ) (inside : i < objects_per_slab)
      (free_bit : bm_test k.pmm.memory (k.slabs first).bitmap i ≡ false) where
    abbrev taken_first : Kmm
    taken_first = (give k first (some i)).1

    left_over : (taken_first.slabs first).available_objects ≡ (k.slabs first).available_objects - 1
    left_over =
        let more = r.more in
        let fewer = r.fewer in ap (λ s. s.available_objects) (given k first i) ∙ omega arith

    abbrev object : ℕ
    object = (k.slabs first).buf + i * (k.caches c).object_size

    give_first : give k first (some i) ≡ (object, taken_first)
    unfolding give
    give_first = rw r.parent refl

    pick_partial : (fuel : ℕ) → pick fuel k c ≡ some (first, k)
    unfolding pick
    pick_partial fuel =
        let e : (first == 0) ≡ false = let h = r.partial_slab in ground arith in rw (e, e) refl

    alloc_obj_lem :
        (fuel : ℕ)
        → bm_first_free k.pmm.memory (k.slabs first).bitmap objects_per_slab ≡ some i
        → alloc_obj fuel k c ≡ some (object, taken_first)
    unfolding alloc_obj slab_alloc filed
    alloc_obj_lem fuel e =
        let more = r.more in
        let fewer = r.fewer in
        let left = left_over in
        rw (pick_partial fuel, alloc_obj)
          (ap (λ o. filed fuel c first (give k first o)) e
            ∙ ap (filed fuel c first) give_first
            ∙ rw (refile-stays fuel taken_first c first (omega arith) (omega arith), filed) refl)

    object_place : object ≡ (taken_first.slabs first).buf + i * (taken_first.caches c).object_size
    unfolding give
    object_place = ap (λ s. s.buf + i * (k.caches c).object_size) (sym (given k first i))

    free_obj_lem : free_obj taken_first c object ≡ (true, clear_obj taken_first c first object)
    unfolding give
    free_obj_lem =
        free_obj-partial taken_first c object
          (slab_holds_lem taken_first first c i object object_place r.partial_slab inside r.size)

    bits_back :
        (j : ℕ)
        → bm_test (clear_obj taken_first c first object).pmm.memory (k.slabs first).bitmap j
          ≡ bm_test k.pmm.memory (k.slabs first).bitmap j
    unfolding give
    bits_back j =
        let fits = r.fits in
        subst
          (λ b.
            bm_test (clear_obj taken_first c first object).pmm.memory b j
            ≡ (if i == j then false else bm_test taken_first.pmm.memory b j))
          (ap (λ s. s.bitmap) (given k first i))
          (clear_obj_lem taken_first first c i j object object_place r.size
            (omega (arith, mul-lt-mul_of_pos_right inside r.size)))
        ∙ ground (arith, bm_test-bm_set k.pmm.memory (k.slabs first).bitmap i j)

  -- Where the first partial slab of a cache has between 2 and 255 objects available and a free
  -- bit, belongs to that cache, and its objects (of positive size) end below 2^64: freeing with
  -- `cache::free_obj` what `cache::alloc_obj` returned succeeds and gives back every bit of the
  -- bitmap, but the count of available objects stays one lower.
  pub free_obj-alloc_obj :
      (fuel i : ℕ)
      → HasRoom
      → bm_first_free k.pmm.memory (k.slabs first).bitmap objects_per_slab ≡ some i
      → (obj : ℕ) × (k1 : Kmm) × (k2 : Kmm) × (alloc_obj fuel k c ≡ some (obj, k1))
        × (free_obj k1 c obj ≡ (true, k2))
        × ((j : ℕ)
            → bm_test k2.pmm.memory (k.slabs first).bitmap j
              ≡ bm_test k.pmm.memory (k.slabs first).bitmap j)
        × ((k2.slabs first).available_objects + 1 ≡ (k.slabs first).available_objects)
  unfolding clear_obj
  free_obj-alloc_obj fuel i r e =
      let h : FirstFree k.pmm.memory (k.slabs first).bitmap 0 objects_per_slab (some i) =
        subst (FirstFree k.pmm.memory (k.slabs first).bitmap 0 objects_per_slab) e
          (bm_first_free_lem k.pmm.memory (k.slabs first).bitmap objects_per_slab) in
      let more = r.more in
      (
        object r i h.1 h.0,
        taken_first r i h.1 h.0,
        clear_obj (taken_first r i h.1 h.0) c first (object r i h.1 h.0),
        alloc_obj_lem r i h.1 h.0 fuel e,
        free_obj_lem r i h.1 h.0,
        bits_back r i h.1 h.0,
        ap (λ n. n + 1) (left_over r i h.1 h.0) ∙ omega arith,
      )
