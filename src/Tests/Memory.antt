-- ===== src/Tests/Memory.antt =====
-- Small runs of the memory and rounding helpers.
use crep_os.Base.{◌%◌, ◌≡◌, refl, some, if◌then◌else◌, ◌==◌}
use crep_os.Memory.{Memory, bm_first_free}
use crep_os.Memutils.{pow2_roundup, log2}

abbrev memory : Memory
memory = λ x. if x == 1000 then 7 else x % 256

bm_first_free_run : bm_first_free memory 1000 16 ≡ some 3
unfolding bm_first_free
bm_first_free_run = refl

powers : pow2_roundup 33 ≡ 64
unfolding pow2_roundup
powers = refl

logs : log2 4096 ≡ 12
unfolding log2
logs = refl
