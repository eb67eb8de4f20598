-- ===== src/Ext2/Reading.antt =====
-- What reading an inode brings into the buffer (kernel/fs/ext2/inode.cpp).
use crep_os.Base.{
  ℕ, zero, suc, ◌+◌, ◌-◌, ◌*◌, ◌/◌, ◌%◌, ◌^◌, ◌<◌, ◌≤◌, ◌≡◌, ◌∙◌, refl, sym, ap, true, false, some,
  if◌then◌else◌, ltb, arith, inl, inr, Bool-cases,
}
use native.Mathlib.Nat.{div-add-mod', mod-lt, mul-add-div_right, div-eq_of_lt}
use crep_os.Memory.{Memory}
use crep_os.Memory.Blocks.{within}
use crep_os.Ext2.Inode.{Raw, Volume, bs, get_block}
use crep_os.Ext2.Files.{read_into, piece, place, read_loop, inode_read}

module _ (v : Volume) (raw : Raw) (some_bytes : 0 < bs v) where
  -- Inside a block the bytes of a file follow each other on the device.
  pub place-add : (pos x : ℕ) → x < bs v - pos % bs v → place v raw (pos + x) ≡ place v raw pos + x
  place-add pos x h =
      let d = div-add-mod' pos (bs v) in
      let around : pos + x ≡ pos / bs v * bs v + (pos % bs v + x) = omega arith in
      let inner : pos % bs v + x < bs v = omega (arith, mod-lt pos some_bytes) in
      let same : (pos + x) / bs v ≡ pos / bs v =
        ap (λ n. n / bs v) around
        ∙ mul-add-div_right some_bytes (pos / bs v) (pos % bs v + x)
        ∙ ap (λ n. pos / bs v + n) (div-eq_of_lt inner)
        ∙ (omega arith) in
      let d' = div-add-mod' (pos + x) (bs v) in
      let e = ap (λ n. n * bs v) same in
      let off : (pos + x) % bs v ≡ pos % bs v + x = omega arith in
      let block = ap (λ n. get_block v raw (n % 2 ^ 32) % 2 ^ 32 * bs v + (pos + x) % bs v) same in
      block ∙ ap (λ n. get_block v raw (pos / bs v % 2 ^ 32) % 2 ^ 32 * bs v + n) off ∙ omega arith

  pub piece-bounds :
      (pos left : ℕ)
      → 0 < left
      → (0 < piece v pos left) × (piece v pos left ≤ left) × (piece v pos left ≤ bs v - pos % bs v)
  piece-bounds pos left h =
      let m = mod-lt pos some_bytes in
      elim (Bool-cases (ltb (bs v - pos % bs v) left)) [
        | inl e ↦ rw e (omega arith, ground arith, omega arith)
        | inr e ↦ rw e (h, omega arith, ground arith)
      ]

  -- The buffer with bytes of the file from `from` to `cnt`.
  abbrev pub filled : (off from cnt : ℕ) → Memory → Memory
  filled off from cnt buf x =
      if within from (cnt - from) x then v.groups.device (place v raw (off + x)) else buf x

  filled_step :
      (off cnt headway size : ℕ) (buf : Memory) (x : ℕ)
      → size ≤ cnt - headway
      → size ≤ bs v - (off + headway) % bs v
      → filled off
          (headway + size)
          cnt
          (read_into v (place v raw (off + headway)) size buf headway)
          x
        ≡ filled off headway cnt buf x
  filled_step off cnt headway size buf x short inside = elim (Bool-cases (within headway size x)) [
    | inl e ↦
        let before : within (headway + size) (cnt - (headway + size)) x ≡ false = ground arith in
        let all : within headway (cnt - headway) x ≡ true = ground arith in
        let there : off + headway + (x - headway) ≡ off + x = ground arith in
        rw (before, e, all)
          (ap v.groups.device
            (sym (place-add (off + headway) (x - headway) (ground arith)) ∙ ap (place v raw) there))
    | inr e ↦ elim (Bool-cases (within (headway + size) (cnt - (headway + size)) x)) [
      | inl f ↦ let all : within headway (cnt - headway) x ≡ true = ground arith in rw (f, all) refl
      | inr f ↦
          let nothing : within headway (cnt - headway) x ≡ false = ground arith in
          rw (f, e, nothing) refl
    ]
  ]

  read_loop-filled :
      (fuel off cnt headway : ℕ) (buf : Memory)
      → cnt - headway < fuel
      → (buf' : Memory) × (read_loop fuel v raw off cnt headway buf ≡ some buf')
        × ((x : ℕ) → buf' x ≡ filled off headway cnt buf x)
  unfolding read_loop
  read_loop-filled zero off cnt headway buf enough = absurd (omega arith)
  read_loop-filled (suc fuel) off cnt headway buf enough = elim (Bool-cases (ltb headway cnt)) [
    | inl e ↦
        let (pos, short, inside) = piece-bounds (off + headway) (cnt - headway) (ground arith) in
        let size = piece v (off + headway) (cnt - headway) in
        let next = read_into v (place v raw (off + headway)) size buf headway in
        let (buf', f, g) = read_loop-filled fuel off cnt (headway + size) next (omega arith) in
        (buf', rw e f, λ x. g x ∙ filled_step off cnt headway size buf x short inside)
    | inr e ↦ (
      buf,
      rw e refl,
      λ x. let past : within headway (cnt - headway) x ≡ false = ground arith in rw past refl,
    )
  ]

  -- With blocks of positive size and more fuel than the count, `inode::read` ends and brings each
  -- byte asked for from the block that `get_block` gives for it, at its offset in the block, and
  -- changes nothing behind the count in the buffer.
  pub inode_read-filled :
      (fuel off cnt : ℕ) (buf : Memory)
      → cnt < fuel
      → (buf' : Memory) × (inode_read fuel v raw off cnt buf ≡ some buf')
        × ((x : ℕ)
            → buf' x ≡ (if ltb x cnt then v.groups.device (place v raw (off + x)) else buf x))
  unfolding inode_read
  inode_read-filled fuel off cnt buf enough =
      let (buf', e, f) = read_loop-filled fuel off cnt 0 buf (omega arith) in
      (
        buf',
        e,
        λ x. f x ∙ (let same : within 0 (cnt - 0) x ≡ ltb x cnt = ground arith in rw same refl),
      )
