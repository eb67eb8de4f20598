-- ===== src/Tty/Screen.antt =====
-- The frame buffer and its double (kernel/drivers/tty.cpp), each an array of bytes of its own.
use crep_os.Base.{ℕ, zero, suc, ◌+◌, ◌*◌, ◌/◌}
use crep_os.Word.{u32, u64, sub64}
use crep_os.Memory.{Memory, load_le, store_le, memset, memcpy}

pub record Screen : Type 0 where
  pub framebuffer : Memory
  pub double_buffer : Memory
  pub pitch : ℕ
  pub width : ℕ
  pub height : ℕ
  pub bpp : ℕ
  pub size : ℕ

-- The index of a pixel, counted in words of 32 bits.
unfoldable pub pixel_index : Screen → (x y : ℕ) → ℕ
pixel_index sc x y = u64 (x + u32 (sc.pitch / (sc.bpp / 8)) * y)

unfoldable pub set_pixel : Screen → (x y colour : ℕ) → Screen
unfolding pixel_index
set_pixel sc x y colour = record sc {
  framebuffer = store_le sc.framebuffer (4 * pixel_index sc x y) 4 colour;
  double_buffer = store_le sc.double_buffer (4 * pixel_index sc x y) 4 colour;
}

unfoldable pub get_pixel : Screen → (x y : ℕ) → ℕ
unfolding pixel_index
get_pixel sc x y = load_le sc.double_buffer (4 * pixel_index sc x y) 4

-- A row of `rounds` pixels from `x` on, and `rows` such rows: the loops of `flush`, `clear_cursor` and
-- `draw_cursor`.
unfoldable pub fill_row : Screen → (x y colour rounds : ℕ) → Screen
unfolding set_pixel
fill_row sc x y colour zero = sc
fill_row sc x y colour (suc rounds) = fill_row (set_pixel sc x y colour) (x + 1) y colour rounds

unfoldable pub fill : Screen → (x y colour columns rows : ℕ) → Screen
unfolding fill_row
fill sc x y colour columns zero = sc
fill sc x y colour columns (suc rows) =
    fill (fill_row sc x y colour columns) x (y + 1) colour columns rows

unfoldable pub flush : Screen → (colour : ℕ) → Screen
unfolding fill
flush sc colour = fill sc 0 0 colour sc.width sc.height

-- `memcpy64` from one array to another.
unfoldable pub move64 : (to from : Memory) → (dest src count : ℕ) → Memory
unfolding load_le store_le
move64 to from dest src zero = to
move64 to from dest src (suc count) =
    move64 (store_le to dest 8 (load_le from src 8)) from (dest + 8) (src + 8) count

-- The copying of `scroll`: both buffers take the double buffer from the second line of text on, and
-- the last line is blank. `line` is the bytes of a line of text.
unfoldable pub shift_lines : Screen → (line background : ℕ) → Screen
unfolding move64
shift_lines sc line background =
    let words = sub64 sc.size line / 8 in
    let last = sub64 sc.size line / 4 * 4 in
    let moved = move64 sc.framebuffer sc.double_buffer 0 (line / 8 * 8) words in
    let doubled = memcpy 8 sc.double_buffer 0 (line / 8 * 8) words in
    record sc {
      framebuffer = memset 4 moved last background (line / 4);
      double_buffer = memset 4 doubled last background (line / 4);
    }
