-- ===== src/Slab/Chains.antt =====
-- The chains: what `cache::move_slab` does to slabs and caches that are linked.
use crep_os.Base.{ℕ, suc, ◌≡◌, ◌≢◌, ◌∙◌, refl, ap, true, false, some, ◌==◌, arith}
use crep_os.Slab.{Kmm, Head, put_slab, put_cache, append_slab, last_slab}
use crep_os.Slab.Moves.{unlink, attach, move_slab}

-- What appending to a chain of one slab makes.
abbrev linked : Kmm → (d p : ℕ) → Kmm
linked k d p =
    let k' = put_slab k d (record (k.slabs d) { next = p }) in
    put_slab k' p (record (k'.slabs p) { last = d })

append_one :
    (fuel : ℕ) (k : Kmm) (d p : ℕ)
    → (k.slabs d).next ≡ 0
    → append_slab (suc fuel) k d p ≡ some (linked k d p)
unfolding append_slab last_slab
append_one fuel k d p e =
    let end : ((k.slabs d).next == 0) ≡ true = ground arith in rw (end, append_slab, last_slab) refl

-- The first of several partial slabs, and a single full one.
pub record IsNeighbours (k : Kmm) (c src d n : ℕ) : Type 0 where
  pub is_first : (k.caches c).slab_partial ≡ src
  pub is_full : (k.caches c).slab_full ≡ d
  pub src_next : (k.slabs src).next ≡ n
  pub src_last : (k.slabs src).last ≡ 0
  pub d_next : (k.slabs d).next ≡ 0
  pub some_src : src ≢ 0
  pub some_d : d ≢ 0
  pub some_n : n ≢ 0
  pub apart : (d ≢ src) × (d ≢ n) × (n ≢ src)

module _ (k : Kmm) (c src d n : ℕ) (w : IsNeighbours k c src d n) where
  abbrev unlinked : Kmm
  unlinked =
      put_cache (put_slab k n (record (k.slabs n) { last = 0 })) c
        (record (k.caches c) { slab_partial = n })

  unlink_first : unlink k c Head.partial src ≡ unlinked
  unfolding unlink
  unlink_first =
      let some_n : (n == 0) ≡ false = let h = w.some_n in ground arith in
      let other : (src == n) ≡ false = let h = w.apart.2 in ground arith in
      let self : (src == src) ≡ true = ground arith in
      simp (w.src_next, w.src_last, some_n, other, w.is_first, self)

  -- Where the chains lead once slab `src` has moved.
  pub record IsMerged (k' : Kmm) : Type 0 where
    pub full_head : (k'.caches c).slab_full ≡ d
    pub full_next : (k'.slabs d).next ≡ src
    pub on : (k'.slabs src).next ≡ n
    pub partial_head : (k'.caches c).slab_partial ≡ n

  full_stays : (unlinked.caches c).slab_full ≡ d
  full_stays = let self : (c == c) ≡ true = ground arith in simp (self, w.is_full)

  d_end : (unlinked.slabs d).next ≡ 0
  d_end = let h = w.apart.1 in let other : (d == n) ≡ false = ground arith in simp (other, w.d_next)

  attached : (fuel : ℕ) → attach (suc fuel) unlinked c Head.full src ≡ some (linked unlinked d src)
  unfolding attach
  attached fuel =
      let h = w.some_d in
      let nonempty : ((unlinked.caches c).slab_full == 0) ≡ false =
        ap (λ p. p == 0) full_stays ∙ ground arith in
      rw (nonempty, attach)
        (ap (λ p. append_slab (suc fuel) unlinked p src) full_stays
          ∙ append_one fuel unlinked d src d_end)

  moved :
      (fuel : ℕ)
      → move_slab (suc fuel) k c Head.full Head.partial src ≡ some (linked unlinked d src)
  unfolding move_slab
  moved fuel =
      let h = w.some_src in
      let some_src : (src == 0) ≡ false = ground arith in
      let nonempty : ((k.caches c).slab_partial == 0) ≡ false =
        ap (λ p. p == 0) w.is_first ∙ some_src in
      rw (some_src, move_slab)
        (rw nonempty (ap (λ u. attach (suc fuel) u c Head.full src) unlink_first ∙ attached fuel))

  linked-IsMerged : IsMerged (linked unlinked d src)
  linked-IsMerged =
      let a = w.apart.0 in
      let b = w.apart.1 in
      let e = w.apart.2 in
      let self : (c == c) ≡ true = ground arith in
      let same_d : (d == d) ≡ true = ground arith in
      let same_src : (src == src) ≡ true = ground arith in
      let d_src : (d == src) ≡ false = ground arith in
      let d_n : (d == n) ≡ false = ground arith in
      let src_d : (src == d) ≡ false = ground arith in
      let src_n : (src == n) ≡ false = ground arith in
      record {
        full_head = simp (self, w.is_full);
        full_next = simp (d_src, same_d);
        on = simp (same_src, src_d, src_n, w.src_next);
        partial_head = simp self;
      }

  -- Where the first partial slab of a cache has a successor and no predecessor, the chain of full
  -- slabs is a single slab, and these three differ: `move_slab` of that first slab to the full
  -- ones ends with a chain of full slabs that runs on into the partial ones.
  pub move_slab-IsMerged :
      (fuel : ℕ)
      → (k' : Kmm) × (move_slab (suc fuel) k c Head.full Head.partial src ≡ some k') × IsMerged k'
  move_slab-IsMerged fuel = (linked unlinked d src, moved fuel, linked-IsMerged)
