-- ===== src/Ext2/Writing.antt =====
-- What writing an inode leaves for reading it (kernel/fs/ext2/inode.cpp).
use crep_os.Base.{ℕ, ◌+◌, ◌-◌, ◌*◌, ◌/◌, ◌%◌, ◌^◌, ◌<◌, ◌≤◌, ◌≡◌}
use crep_os.Memory.{Memory}
use crep_os.Ext2.Inode.{Raw, Volume, Inode, bs}
use crep_os.Ext2.Files.{write_from, piece, place}

-- The twelve direct blocks are different blocks of the device.
pub record IsDirect (raw : Raw) : Type 0 where
  pub distinct : (i j : ℕ) → i < 12 → j < 12 → raw.blocks i % 2 ^ 32 ≡ raw.blocks j % 2 ^ 32 → i ≡ j

module _ (raw : Raw) (size : ℕ) (some_bytes : 0 < size) (direct : IsDirect raw) where
  -- Where byte `pos` of the direct blocks is on the device.
  direct_place : (pos : ℕ) → ℕ
  direct_place pos = raw.blocks (pos / size) % 2 ^ 32 * size + pos % size

  -- Bytes `headway` to `cnt` of the buffer are in the file, and the bytes of the file before them are
  -- as they were.
  record IsWritten (v : Volume) (off cnt headway : ℕ) (buf : Memory) (v' : Volume) : Type 0 where
    same_size : bs v' ≡ size
    entered : (x : ℕ) → headway ≤ x → x < cnt → v'.groups.device (direct_place (off + x)) ≡ buf x
    kept :
        (x : ℕ)
        → x < headway
        → x < cnt
        → v'.groups.device (direct_place (off + x)) ≡ v.groups.device (direct_place (off + x))

  module _ (off cnt : ℕ) (buf : Memory) (inside : off + cnt ≤ 12 * size) where
    -- The device after the piece at `headway`.
    after : Volume → (headway : ℕ) → Volume
    after v headway =
        write_from v (place v raw (off + headway)) (piece v (off + headway) (cnt - headway)) buf
          headway
