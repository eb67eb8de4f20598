-- ===== src/Ext2/BlockMap.antt =====
-- What `set_block` leaves for `get_block` (kernel/fs/ext2/inode.cpp).
use crep_os.Base.{
  ℕ, zero, suc, ◌+◌, ◌-◌, ◌*◌, ◌/◌, ◌%◌, ◌^◌, ◌<◌, ◌≤◌, ◌≡◌, ◌≢◌, ◌∙◌, ◌⊎◌, refl, sym, ap, true,
  false, ◌==◌, ltb, leb, arith, inl, inr, Bool-cases,
}
use native.Mathlib.Nat.{mul-le-mul_right, suc-mul, mod-lt}
use crep_os.Memory.{Memory, load_le, store_le}
use crep_os.Memory.Blocks.{within, store_le_outside, load_le-store_le}
use crep_os.Ext2.Inode.{
  Raw, Volume, Inode, bs, per_level, word, put_word, get_block, get_deep, set_block, set_deep,
  set_double, set_to, ensure_root, ensure_word, over_minus_one,
}

load_le-agree :
    (m m' : Memory) (a w : ℕ)
    → ((x : ℕ) → within a w x ≡ true → m x ≡ m' x)
    → load_le m a w ≡ load_le m' a w
unfolding load_le
load_le-agree m m' a zero h = refl
load_le-agree m m' a (suc w) h =
    let e = h a (ground arith) in
    let r = load_le-agree m m' (a + 1) w (λ x q. h x (ground arith)) in ground (arith, e, r)

-- Words of four bytes that lie apart.
Apart : (a b : ℕ) → Type 0
Apart a b = (a + 4 ≤ b) ⊎ (b + 4 ≤ a)

word-put_word :
    (v : Volume) (off value : ℕ) → value < 2 ^ 32 → word (put_word v off value) off ≡ value
unfolding word put_word
word-put_word v off value low = load_le-store_le v.groups.device off 4 value ∙ omega arith

word-put_word_other :
    (v : Volume) (off other value : ℕ)
    → Apart off other
    → word (put_word v other value) off ≡ word v off
unfolding word put_word Apart
word-put_word_other v off other value apart =
    load_le-agree (store_le v.groups.device other 4 value) v.groups.device off 4
      (λ x q. store_le_outside v.groups.device other 4 value x (ground arith))

-- Entries of different blocks lie apart.
entries-Apart :
    (size a b i j : ℕ)
    → i * 4 + 4 ≤ size
    → j * 4 + 4 ≤ size
    → a ≢ b
    → Apart (a * size + i * 4) (b * size + j * 4)
unfolding Apart
entries-Apart size a b i j hi hj apart = elim (Bool-cases (ltb a b)) [
  | inl e ↦
      let m = mul-le-mul_right {m = suc a} {n = b} size (ground arith) in
      inl (omega (arith, suc-mul a size))
  | inr e ↦
      let m = mul-le-mul_right {m = suc b} {n = a} size (ground arith) in
      inr (omega (arith, suc-mul b size))
]

-- A block behind the single indirect ones, whose tables are there and apart.
pub record IsDouble (v : Volume) (raw : Raw) (iblock : ℕ) : Type 0 where
  pub behind : 12 + per_level v ≤ iblock
  pub in_table : (iblock - 12 - per_level v) / per_level v < per_level v
  pub root : raw.blocks 13 ≢ 0
  pub table : word v (raw.blocks 13 * bs v + (iblock - 12 - per_level v) / per_level v * 4) ≢ 0
  pub own_table :
      word v (raw.blocks 13 * bs v + (iblock - 12 - per_level v) / per_level v * 4) ≢ raw.blocks 13

module _ (v : Volume) (n : Inode) (iblock disk_block : ℕ) (w : IsDouble v n.raw iblock) where
  deep : ℕ
  deep = iblock - 12 - per_level v

  table_at : ℕ
  table_at = n.raw.blocks 13 * bs v + deep / per_level v * 4

  set_block-double :
      set_block v n iblock disk_block
      ≡ set_to (put_word v (word v table_at * bs v + deep % per_level v * 4) disk_block) n
  unfolding set_block set_deep ensure_root ensure_word set_double deep table_at
  set_block-double =
      let low = w.behind in
      let small = w.in_table in
      let root = w.root in
      let table = w.table in
      let a : ltb iblock 12 ≡ false = ground arith in
      let b : leb (per_level v) (iblock - 12) ≡ true = ground arith in
      let c : leb (per_level v) ((iblock - 12 - per_level v) / per_level v) ≡ false =
        ground arith in
      let d : (n.raw.blocks 13 == 0) ≡ false = ground arith in
      let e : (word v (n.raw.blocks 13 * bs v + (iblock - 12 - per_level v) / per_level v * 4) == 0)
          ≡ false =
        ground arith in
      rw (a, b, c, d) (rw e refl)

  get_block-double :
      (v' : Volume)
      → per_level v' ≡ per_level v
      → bs v' ≡ bs v
      → word v' table_at ≡ word v table_at
      → get_block v' n.raw iblock
        ≡ over_minus_one (word v' (word v table_at * bs v + deep % per_level v * 4))
  unfolding get_block get_deep deep table_at
  get_block-double v' p b e =
      let low = w.behind in
      let small = w.in_table in
      let f : ltb iblock 12 ≡ false = ground arith in
      let g : leb (per_level v) (iblock - 12) ≡ true = ground arith in
      let h : leb (per_level v) ((iblock - 12 - per_level v) / per_level v) ≡ false =
        ground arith in
      rw (f, p, g, h, b, e) refl

  -- For a block behind the single and before the triple indirect ones whose table is there and is
  -- not the root table itself, `set_block` succeeds and `get_block` then finds in its low 32 bits
  -- the block that was set.
  pub get_block-set_block :
      disk_block < 2 ^ 32
      → (v' : Volume) × (set_block v n iblock disk_block ≡ set_to v' n)
        × (get_block v' n.raw iblock % 2 ^ 32 ≡ disk_block)
  unfolding put_word deep table_at
  get_block-set_block low =
      let small = w.in_table in
      let at = word v table_at * bs v + deep % per_level v * 4 in
      let v' = put_word v at disk_block in
      let apart =
        entries-Apart (bs v) (n.raw.blocks 13) (word v table_at) (deep / per_level v)
          (deep % per_level v) (omega arith)
          (let m = mod-lt deep {m = per_level v} (omega arith) in omega arith)
          (λ q. w.own_table (sym q)) in
      (
        v',
        set_block-double,
        ap (λ x. x % 2 ^ 32)
              (get_block-double v' refl refl (word-put_word_other v table_at at disk_block apart)
                ∙ ap over_minus_one (word-put_word v at disk_block low))
            ∙ (omega arith),
      )
