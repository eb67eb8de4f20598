-- ===== src/Tty/Output.antt =====
-- The text of a terminal (kernel/drivers/tty.hpp, kernel/drivers/tty.cpp). The cursor and the sizes
-- are not negative, so `ssize_t` is read as a number; the glyphs are an argument.
use crep_os.Base.{
  ℕ, zero, suc, ◌+◌, ◌-◌, ◌*◌, ◌/◌, ◌%◌, ◌^◌, not, ◌||◌, Option, none, some, if◌then◌else◌, ◌==◌,
}
use crep_os.Memory.{Memory, store}
use crep_os.Tty.Screen.{Screen, set_pixel, fill, flush, shift_lines}

abbrev pub default_tab_size : ℕ
default_tab_size = 4

abbrev pub default_text_fg : ℕ
default_text_fg = 0xffffff

abbrev pub default_text_bg : ℕ
default_text_bg = 0

abbrev pub default_cursor_fg : ℕ
default_cursor_fg = default_text_fg

pub record Tty : Type 0 where
  pub cursor_foreground : ℕ
  pub text_foreground : ℕ
  pub text_background : ℕ
  pub cursor_x : ℕ
  pub cursor_y : ℕ
  pub tab_size : ℕ
  pub font : Memory
  pub font_height : ℕ
  pub font_width : ℕ
  pub rows : ℕ
  pub cols : ℕ
  pub sc : Screen
  pub char_grid : Memory

-- One column of a glyph: bit `i` of its rows from `j` on.
unfoldable pub render_column : Tty → (offset i x y j fg bg rounds : ℕ) → Screen → Screen
unfolding set_pixel
render_column t offset i x y j fg bg zero sc = sc
render_column t offset i x y j fg bg (suc rounds) sc =
    render_column t offset i x y (j + 1) fg bg rounds
      (set_pixel sc x (y + j) (if t.font (offset + j) / 2 ^ i % 2 == 1 then fg else bg))

-- `i` goes up to the width and `i_cnt` from 8 down to 1; the height of a glyph is below 256.
unfoldable pub render_columns : Tty → (offset i x y fg bg i_cnt : ℕ) → Screen → Screen
unfolding render_column
render_columns t offset i x y fg bg zero sc = sc
render_columns t offset i x y fg bg (suc i_cnt) sc =
    let rest =
      render_columns t offset (i + 1) x y fg bg i_cnt
        (render_column t offset i (x + suc i_cnt) y 0 fg bg t.font_height sc) in
    if i == t.font_width then sc else rest

unfoldable pub render_char : Tty → (x y fg bg c : ℕ) → Tty
unfolding render_columns
render_char t x y fg bg c =
    let offset = (c % 2 ^ 8 + 2 ^ 64 - 0x20) * t.font_height % 2 ^ 16 in
    record t { sc = render_columns t offset 0 x y fg bg 8 t.sc }

unfoldable pub plot_char : Tty → (x y fg bg c : ℕ) → Tty
unfolding render_char
plot_char t x y fg bg c =
    let t' = render_char t (x * t.font_width) (y * t.font_height) fg bg c in
    record t' { char_grid = store t'.char_grid (x + y * t.cols) c }

unfoldable pub clear_cursor : Tty → Tty
unfolding fill
clear_cursor t = record t {
  sc =
      fill t.sc (t.cursor_x * t.font_width) (t.cursor_y * t.font_height) t.text_background
        t.font_width t.font_height;
}

unfoldable pub draw_cursor : Tty → Tty
unfolding fill
draw_cursor t = record t {
  sc =
      fill t.sc (t.cursor_x * t.font_width) (t.cursor_y * t.font_height) t.cursor_foreground
        t.font_width t.font_height;
}

unfoldable pub update_cursor : Tty → (x y : ℕ) → Tty
unfolding clear_cursor draw_cursor
update_cursor t x y = draw_cursor (record (clear_cursor t) { cursor_x = x; cursor_y = y })

-- The two loops of `scroll` over the characters, from index `i` on.
unfoldable pub shift_chars : (cols i rounds : ℕ) → Memory → Memory
shift_chars cols i zero grid = grid
shift_chars cols i (suc rounds) grid =
    shift_chars cols (i + 1) rounds (store grid (i - cols) (grid i))

unfoldable pub blank_chars : (i rounds : ℕ) → Memory → Memory
blank_chars i zero grid = grid
blank_chars i (suc rounds) grid = blank_chars (i + 1) rounds (store grid i 0)

abbrev pub scrolled : (rows cols : ℕ) → Memory → Memory
scrolled rows cols grid =
    blank_chars (rows * cols - cols) cols (shift_chars cols cols (rows * cols - cols) grid)

unfoldable pub scroll : Tty → Tty
unfolding clear_cursor draw_cursor shift_chars blank_chars shift_lines
scroll t =
    let t' = clear_cursor t in
    draw_cursor (record t' {
      char_grid = scrolled t.rows t.cols t.char_grid;
      sc = shift_lines t'.sc (t.sc.pitch * t.font_height) t.text_background;
    })

-- The end of a line: at the last column the cursor goes to the next row, and from the last row the
-- text scrolls.
abbrev pub wrapped : Tty → Tty
wrapped t = if t.cursor_x == t.cols then record t { cursor_x = 0; cursor_y = t.cursor_y + 1 } else t

unfoldable pub scrolled_back : Tty → Tty
unfolding scroll
scrolled_back t =
    if t.cursor_y == t.rows then scroll (record t { cursor_y = t.cursor_y - 1 }) else t

abbrev pub advanced : Tty → Tty
advanced t = record t { cursor_x = t.cursor_x + 1 }

-- The default case of `putchar`.
unfoldable pub put_plain : Tty → (c : ℕ) → Tty
unfolding clear_cursor draw_cursor plot_char scrolled_back
put_plain t c = draw_cursor (
    scrolled_back (
      wrapped (
        advanced (
          plot_char (clear_cursor t) t.cursor_x t.cursor_y t.text_foreground t.text_background c))))

unfoldable pub put_spaces : (rounds : ℕ) → Tty → Tty
unfolding put_plain
put_spaces zero t = t
put_spaces (suc rounds) t = put_spaces rounds (put_plain t 32)

unfoldable pub put_newline : Tty → Tty
unfolding scroll update_cursor
put_newline t =
    if t.cursor_y + 1 == t.rows
    then update_cursor (scroll t) 0 (t.rows - 1)
    else update_cursor t 0 (t.cursor_y + 1)

abbrev pub stepped_back : Tty → Tty
stepped_back t =
    if not (t.cursor_x == 0)
    then record t { cursor_x = t.cursor_x - 1 }
    else record t { cursor_y = t.cursor_y - 1; cursor_x = t.cols - 1 }

unfoldable pub put_backspace : Tty → Tty
unfolding clear_cursor draw_cursor
put_backspace t =
    if not (t.cursor_x == 0) || not (t.cursor_y == 0)
    then draw_cursor (stepped_back (clear_cursor t))
    else t

unfoldable pub putchar : Tty → (c : ℕ) → Tty
unfolding put_spaces put_newline put_backspace put_plain
putchar t c =
    if c == 9
    then put_spaces t.tab_size t
    else if c == 10
    then put_newline t
    else if c == 8
    then put_backspace t
    else put_plain t c

-- The constructor of a terminal, up to the list of terminals and the node of the device.
unfoldable pub tty_ctor : Screen → (font : Memory) → (font_height font_width : ℕ) → Tty
unfolding flush draw_cursor
tty_ctor sc font font_height font_width = draw_cursor (record {
  cursor_foreground = default_cursor_fg;
  text_foreground = default_text_fg;
  text_background = default_text_bg;
  cursor_x = 0;
  cursor_y = 0;
  tab_size = default_tab_size;
  font = font;
  font_height = font_height;
  font_width = font_width;
  rows = sc.height / font_height;
  cols = sc.width / font_width;
  sc = flush sc default_text_bg;
  char_grid = λ i. 0;
})

abbrev pub tiocginsz : ℕ
tiocginsz = 0x5413

pub record Winsize : Type 0 where
  pub ws_row : ℕ
  pub ws_col : ℕ
  pub ws_xpixel : ℕ
  pub ws_ypixel : ℕ

-- `tty_ioctl::call`; `none` is -1.
unfoldable pub ioctl : Tty → (request : ℕ) → Option Winsize
ioctl t request =
    if request == tiocginsz
    then some (record {
      ws_row = t.rows % 2 ^ 16;
      ws_col = t.cols % 2 ^ 16;
      ws_xpixel = t.sc.width % 2 ^ 16;
      ws_ypixel = t.sc.height % 2 ^ 16;
    })
    else none
