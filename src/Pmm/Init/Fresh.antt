-- ===== src/Pmm/Init/Fresh.antt =====
-- What `pmm::init` builds.
use crep_os.Base.{
  ℕ, ◌+◌, ◌-◌, ◌*◌, ◌/◌, ◌%◌, ◌^◌, ◌≤◌, ◌<◌, ◌≡◌, refl, ◌∙◌, true, false, not, ◌&&◌, Option, none,
  some, List, [], ◌∷◌, ◌++◌, Bool-cases, inl, inr, ◌==◌, length, leb, arith,
}
use crep_os.Word.{u64, sub64}
use crep_os.Memory.{Memory, bm_test}
use crep_os.Memory.Blocks.{within, memset8_lem}
use crep_os.Memutils.{div_roundup, align_up}
use crep_os.Memutils.Rounding.{align_up_lem, div_roundup_lem}
use crep_os.Pmm.{MemChunk, Pmm, page_size}
use crep_os.Pmm.Init.{
  MmapEntry, sizeof_mem_chunk, max_size, reserve, bump, new_chunk, append_to, append_chunk,
  add_region, add_regions, ends, init, total_len,
}

-- A chunk that nobody has used: page aligned, its bitmap clear and below the bump pointer.
record IsFresh (p : Pmm) (c : MemChunk) : Type 0 where
  aligned : c.base % page_size ≡ 0
  below : c.bitmap + c.bitmap_size ≤ p.buffer
  blank : (x : ℕ) → within c.bitmap c.bitmap_size x ≡ true → p.memory x ≡ 0
  covers : c.page_cnt ≤ c.bitmap_size * 8

abbrev AllFresh : Pmm → List MemChunk → Type 0
AllFresh p [] = Unit {0}
AllFresh p (c ∷ cs) = IsFresh p c × AllFresh p cs

AllFresh-keep :
    (p q : Pmm) (cs : List MemChunk)
    → p.buffer ≤ q.buffer
    → ((x : ℕ) → x < p.buffer → q.memory x ≡ p.memory x)
    → AllFresh p cs
    → AllFresh q cs
AllFresh-keep p q [] up same h = tt
AllFresh-keep p q (c ∷ cs) up same (f, h) = (
  let below = f.below in
      record {
        aligned = f.aligned;
        below = omega arith;
        blank = λ x inside. same x (ground arith) ∙ f.blank x inside;
        covers = f.covers;
      },
  AllFresh-keep p q cs up same h,
)

AllFresh-append :
    (p : Pmm) (cs : List MemChunk) (c : MemChunk)
    → AllFresh p cs
    → IsFresh p c
    → AllFresh p (cs ++ c ∷ [])
AllFresh-append p [] c h f = (f, tt)
AllFresh-append p (d ∷ ds) c h f = (h.0, AllFresh-append p ds c h.1 f)

module _ (p : Pmm) (base page_cnt : ℕ) (aligned : base % page_size ≡ 0)
    (small : page_cnt < 2 ^ 62) where
  new_chunk-IsFresh : IsFresh (new_chunk p base page_cnt).1 (new_chunk p base page_cnt).0
  unfolding new_chunk bump
  new_chunk-IsFresh = record {
    aligned = aligned;
    below = omega arith;
    blank = λ x inside. memset8_lem p.memory p.buffer 0 (div_roundup page_cnt 8) x ∙ ground arith;
    covers = omega (arith, div_roundup_lem page_cnt 8 (omega arith) (omega arith));
  }

  new_chunk-keep : (cs : List MemChunk) → AllFresh p cs → AllFresh (new_chunk p base page_cnt).1 cs
  unfolding new_chunk bump
  new_chunk-keep cs =
      AllFresh-keep p _ cs (omega arith)
        λ x low. memset8_lem p.memory p.buffer 0 (div_roundup page_cnt 8) x ∙ ground arith

append_to-AllFresh :
    (p : Pmm) (cs : List MemChunk) (base page_cnt : ℕ)
    → base % page_size ≡ 0
    → page_cnt < 2 ^ 62
    → AllFresh p cs
    → AllFresh (append_to p cs base page_cnt) (append_to p cs base page_cnt).chunks
unfolding append_to bump
append_to-AllFresh p [] base page_cnt aligned small h =
    AllFresh-keep (new_chunk (bump p sizeof_mem_chunk) base page_cnt).1
      (append_to p [] base page_cnt) (append_to p [] base page_cnt).chunks (omega arith)
      (λ x low. refl) (new_chunk-IsFresh (bump p sizeof_mem_chunk) base page_cnt aligned small, tt)
append_to-AllFresh p (d ∷ ds) base page_cnt aligned small h =
    AllFresh-keep (new_chunk p base page_cnt).1 (append_to p (d ∷ ds) base page_cnt)
      (append_to p (d ∷ ds) base page_cnt).chunks (omega arith) (λ x low. refl)
      (AllFresh-append (new_chunk p base page_cnt).1 (d ∷ ds) (new_chunk p base page_cnt).0
        (new_chunk-keep p base page_cnt aligned small (d ∷ ds) h)
        (new_chunk-IsFresh p base page_cnt aligned small))

-- A region that lies below 2 ^ 63 with a page to spare.
abbrev pub AllLow : List MmapEntry → Type 0
AllLow [] = Unit {0}
AllLow (e ∷ es) = (e.addr + e.len + page_size ≤ 2 ^ 63) × AllLow es

-- A state with fresh chunks only.
abbrev Built : Option Pmm → Type 0
Built o = (p : Pmm) × (o ≡ some p) × AllFresh p p.chunks

add_region-Built :
    (next : ℕ) (p : Pmm) (e : MmapEntry)
    → next ≡ 0
    → e.addr + e.len + page_size ≤ 2 ^ 63
    → AllFresh p p.chunks
    → Built (add_region next p e)
unfolding add_region append_chunk ends
add_region-Built next p e null low h = elim (Bool-cases (e.type == 1 && not (e.len == 0))) [
  | inl usable ↦
      let base = align_up e.addr page_size in
      let page_cnt = sub64 e.len (sub64 base e.addr) / page_size in
      let last : (next == 0) ≡ true = ground arith in
      (
        append_to p p.chunks base page_cnt,
        rw (usable, add_region, last) refl,
        append_to-AllFresh p p.chunks base page_cnt
            (align_up_lem e.addr page_size (omega arith) (omega arith)).0 (omega arith) h,
      )
  | inr other ↦ (p, rw (other, add_region) refl, h)
]

add_regions-Built :
    (unset : ℕ → ℕ) (p : Pmm) (es : List MmapEntry)
    → ((k : ℕ) → unset k ≡ 0)
    → AllLow es
    → AllFresh p p.chunks
    → Built (add_regions unset p es)
unfolding add_regions
add_regions-Built unset p [] null low h = (p, refl, h)
add_regions-Built unset p (e ∷ es) null low h =
    let (q, f, g) =
      add_region-Built (unset (length p.chunks)) p e (null (length p.chunks)) low.0 h in
    let (r, f', g') = add_regions-Built unset q es null low.1 g in (r, rw (f, add_regions) f', g')

abbrev ReservedLow : Option (ℕ × List MmapEntry) → Type 0
ReservedLow none = Unit {0}
ReservedLow (some r) = AllLow r.1

reserve-AllLow : (size : ℕ) (es : List MmapEntry) → AllLow es → ReservedLow (reserve size es)
unfolding reserve
reserve-AllLow size [] low = tt
reserve-AllLow size (e ∷ es) low = elim (Bool-cases (e.type == 1 && leb size e.len)) [
  | inl fits ↦ rw (fits, reserve) (room (ground arith), low.1)
  | inr other ↦ rw (other, reserve) (reserve-AllLow size es low.1)
]
  where
    room : size ≤ e.len → u64 (e.addr + size) + (e.len - size) + page_size ≤ 2 ^ 63
    room h = let first = low.0 in omega arith

-- No page of the chunk is in use.
abbrev pub Unused : Pmm → List MemChunk → Type 0
Unused p [] = Unit {0}
Unused p (c ∷ cs) =
    (c.base % page_size ≡ 0)
    × ((j : ℕ) → j < c.page_cnt → bm_test p.memory c.bitmap j ≡ false)
    × Unused p cs

AllFresh-Unused : (p : Pmm) (cs : List MemChunk) → AllFresh p cs → Unused p cs
unfolding bm_test
AllFresh-Unused p [] h = tt
AllFresh-Unused p (c ∷ cs) (f, h) = (
  f.aligned,
  (λ j low. let covers = f.covers in ground (arith, f.blank (c.bitmap + j / 8))),
  AllFresh-Unused p cs h,
)

-- Where the words that the constructor leaves in the `next` of each new chunk are null, and
-- whatever else the memory held before, `pmm::init` on a memory map whose regions lie below 2^63
-- with a page to spare ends with a chain in which every chunk starts at a page and every page of it
-- is free.
pub init-Unused :
    (unset : ℕ → ℕ) (m : Memory) (mmap : List MmapEntry)
    → ((k : ℕ) → unset k ≡ 0)
    → AllLow mmap
    → (p : Pmm) × (init unset m mmap ≡ some p) × Unused p p.chunks
unfolding init
init-Unused unset m mmap null low = finish (
    elim (reserve (max_size mmap) mmap) as (λ o. ReservedLow o → Built (built o)) [
      | none ↦ λ h. (empty, refl, tt)
      | some r ↦ λ h. add_regions-Built unset (record empty { buffer = r.0 }) r.1 null h tt
    ]
      (reserve-AllLow (max_size mmap) mmap low))
  where
    empty : Pmm
    empty = record {
      memory = m;
      chunks = [];
      buffer = 0;
      total_mem = total_len mmap;
      total_used_mem = 0;
    }

    built : Option (ℕ × List MmapEntry) → Option Pmm
    built none = some empty
    built (some (buffer, regions)) = add_regions unset (record empty { buffer = buffer }) regions

    finish :
        Built (built (reserve (max_size mmap) mmap))
        → (p : Pmm) × (init unset m mmap ≡ some p) × Unused p p.chunks
    finish (p, e, h) = (p, shape (reserve (max_size mmap) mmap) ∙ e, AllFresh-Unused p p.chunks h)
      where
        shape :
            (o : Option (ℕ × List MmapEntry))
            → ◌≡◌ {A = Option Pmm}
                (elim o [
                  | none ↦ some empty
                  | some (buffer, regions) ↦
                      add_regions unset (record empty { buffer = buffer }) regions
                ])
                (built o)
        shape none = refl
        shape (some r) = refl
