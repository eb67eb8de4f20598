-- ===== src/Devfs/Entries.antt =====
-- What a partition reaches of its device, and the size that its entry gives it
-- (kernel/fs/devfs.cpp).
use crep_os.Base.{
  ℕ, ◌+◌, ◌-◌, ◌*◌, ◌^◌, ◌<◌, ◌≤◌, ◌≡◌, refl, ap, Bool, true, false, ◌&&◌, none, some,
  if◌then◌else◌, ◌==◌, some-inj, arith,
}
use crep_os.Word.{u64, sub64}
use crep_os.Memory.{load_le}
use crep_os.Devfs.Partitions.{Msd, DevNode, node_io, gpt_entry}

-- For two partitions of one device, the first at no higher offset, an access to the first at the
-- distance of the two and more is the access to the second: no access is held inside its partition.
pub node_io-shared :
    {R : Type 0} (device_io : (id off cnt : ℕ) → R) (a b : DevNode) (id start cnt : ℕ)
    → a.device ≡ some id
    → b.device ≡ some id
    → a.partition_offset ≤ b.partition_offset
    → node_io device_io a (b.partition_offset - a.partition_offset + start) cnt
      ≡ node_io device_io b start cnt
unfolding node_io
node_io-shared device_io a b id start cnt of_a of_b order =
    let p = a.partition_offset in
    let q = b.partition_offset in
    let same : b.partition_offset - a.partition_offset + start + a.partition_offset
        ≡ start + b.partition_offset =
      omega arith in
    rw (of_a, of_b, same) refl

-- An entry in use of a GUID table that starts before its last sector, which is below 2^63, is given
-- more than 2^63 sectors: 2^64 less the distance of the two.
pub gpt_entry-sector_cnt :
    (d : Msd) (part_arr i offset sectors : ℕ)
    → gpt_entry d part_arr i ≡ some (offset, sectors)
    → load_le d.disk (part_arr + i * 128 + 32) 8 < load_le d.disk (part_arr + i * 128 + 40) 8
    → load_le d.disk (part_arr + i * 128 + 40) 8 < 2 ^ 63
    → (2 ^ 63 < sectors)
      × (sectors
            + (load_le d.disk (part_arr + i * 128 + 40) 8
                - load_le d.disk (part_arr + i * 128 + 32) 8)
          ≡ 2 ^ 64)
unfolding gpt_entry
gpt_entry-sector_cnt d part_arr i offset sectors e order low =
    let first = load_le d.disk (part_arr + i * 128 + 32) 8 in
    let last = load_le d.disk (part_arr + i * 128 + 40) 8 in
    let is : sub64 first last ≡ sectors =
      size
        (load_le d.disk (part_arr + i * 128) 8 == 0
          && load_le d.disk (part_arr + i * 128 + 8) 8 == 0)
        (u64 (first * d.sector_size), sub64 first last) e in
    (omega (arith, is), omega (arith, is))
  where
    size :
        (b : Bool) (p : ℕ × ℕ)
        → (if b then none else some p) ≡ some (offset, sectors)
        → p.1 ≡ sectors
    size true p f = absurd cc
    size false p f = ap (λ q. q.1) (some-inj p (offset, sectors) f)
