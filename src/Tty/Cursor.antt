-- ===== src/Tty/Cursor.antt =====
-- The text of a terminal as a page of rows and columns, and the operations on characters against it
-- (kernel/drivers/tty.cpp).
use crep_os.Base.{
  ℕ, zero, suc, ◌+◌, ◌-◌, ◌*◌, ◌<◌, ◌≤◌, ◌≡◌, ◌∙◌, ◌⊎◌, refl, ap, true, false, ◌&&◌, if◌then◌else◌,
  ◌==◌, ltb, arith, inl, inr, Bool-cases, ==_iff,
}
use native.Mathlib.Nat.{mul-le-mul_right, suc-mul}
use crep_os.Memory.{Memory, store}
use crep_os.Memory.Blocks.{within}
use crep_os.Tty.Output.{
  Tty, clear_cursor, draw_cursor, plot_char, render_char, shift_chars, blank_chars, scrolled,
  scroll, update_cursor,
}

-- The character in each row and column.
abbrev pub Letters : Type 0
Letters = (row column : ℕ) → ℕ

abbrev pub written : (x y c : ℕ) → Letters → Letters
written x y c text row column = if (row == y) && (column == x) then c else text row column

-- Every row moves up by one, and the last one is blank.
abbrev pub shifted : (rows : ℕ) → Letters → Letters
shifted rows text row column = if row + 1 == rows then 0 else text (row + 1) column

shift_chars_lem :
    (cols i n : ℕ) (grid : Memory) (j : ℕ)
    → 0 < cols
    → cols ≤ i
    → shift_chars cols i n grid j ≡ (if within (i - cols) n j then grid (j + cols) else grid j)
unfolding shift_chars
shift_chars_lem cols i zero grid j pos le = ground arith
shift_chars_lem cols i (suc n) grid j pos le =
    shift_chars_lem cols (i + 1) n (store grid (i - cols) (grid i)) j pos (omega arith)
    ∙ by_place (Bool-cases (j == i - cols))
  where
    by_place :
        ((j == i - cols) ≡ true) ⊎ ((j == i - cols) ≡ false)
        → (if within (i + 1 - cols) n j
            then store grid (i - cols) (grid i) (j + cols)
            else store grid (i - cols) (grid i) j)
          ≡ (if within (i - cols) (suc n) j then grid (j + cols) else grid j)
    by_place (inl e) =
        let back : j + cols ≡ i = ground arith in let same = ap grid back in ground (arith, same)
    by_place (inr e) = ground arith

blank_chars_lem :
    (i n : ℕ) (grid : Memory) (j : ℕ)
    → blank_chars i n grid j ≡ (if within i n j then 0 else grid j)
unfolding blank_chars
blank_chars_lem i zero grid j = ground arith
blank_chars_lem i (suc n) grid j = blank_chars_lem (i + 1) n (store grid i 0) j ∙ ground arith

-- Places in a grid of `cols` columns.
place-below : (rows cols r c : ℕ) → r < rows → c < cols → c + r * cols + cols ≤ rows * cols + c
place-below rows cols r c h k =
    let m = mul-le-mul_right {m = suc r} {n = rows} cols h in omega (arith, suc-mul r cols)

place-apart :
    (cols r c y x : ℕ) → c < cols → x < cols → c + r * cols ≡ x + y * cols → (r ≡ y) × (c ≡ x)
place-apart cols r c y x h k e = elim (Bool-cases (ltb r y)) [
  | inl f ↦
      let m = mul-le-mul_right {m = suc r} {n = y} cols (ground arith) in
      absurd (omega (arith, suc-mul r cols))
  | inr f ↦ elim (Bool-cases (ltb y r)) [
    | inl g ↦
        let m = mul-le-mul_right {m = suc y} {n = r} cols (ground arith) in
        absurd (omega (arith, suc-mul y cols))
    | inr g ↦
        let same : r ≡ y = ground arith in let m = ap (λ n. n * cols) same in (same, omega arith)
  ]
]

plotted_cell :
    (cols x y c : ℕ) (grid : Memory) (text : Letters) (row column : ℕ)
    → x < cols
    → column < cols
    → grid (column + row * cols) ≡ text row column
    → store grid (x + y * cols) c (column + row * cols) ≡ written x y c text row column
plotted_cell cols x y c grid text row column h k old =
    elim (Bool-cases (column + row * cols == x + y * cols)) [
      | inl e ↦
          let (r, l) = place-apart cols row column y x k h ((==_iff _ _).0 e) in
          let a : (row == y) ≡ true = ground arith in
          let b : (column == x) ≡ true = ground arith in rw (e, a, b) refl
      | inr e ↦ elim (Bool-cases (row == y)) [
        | inr f ↦ rw (e, f) old
        | inl f ↦ elim (Bool-cases (column == x)) [
          | inr g ↦ rw (e, f, g) old
          | inl g ↦ let m = ap (λ n. n * cols) ((==_iff row y).0 f) in absurd (ground arith)
        ]
      ]
    ]

scrolled_cell :
    (rows cols : ℕ) (grid : Memory) (row column : ℕ)
    → row < rows
    → column < cols
    → scrolled rows cols grid (column + row * cols)
      ≡ (if row + 1 == rows then 0 else grid (column + (row + 1) * cols))
scrolled_cell rows cols grid row column h k =
    blank_chars_lem (rows * cols - cols) cols (shift_chars cols cols (rows * cols - cols) grid)
      (column + row * cols)
    ∙ elim (Bool-cases (row + 1 == rows)) [
      | inl e ↦
          let m = ap (λ n. n * cols) ((==_iff (row + 1) rows).0 e) in
          let last : within (rows * cols - cols) cols (column + row * cols) ≡ true =
            ground (arith, suc-mul row cols) in
          rw (last, e) refl
      | inr e ↦
          let m = mul-le-mul_right {m = suc (row + 1)} {n = rows} cols (ground arith) in
          let a = suc-mul (row + 1) cols in
          let b = suc-mul row cols in
          let above : within (rows * cols - cols) cols (column + row * cols) ≡ false =
            ground (arith, a, b) in
          let inside : within (cols - cols) (rows * cols - cols) (column + row * cols) ≡ true =
            ground (arith, a, b) in
          let place : column + row * cols + cols ≡ column + (row + 1) * cols = omega (arith, b) in
          rw (above, e)
            (shift_chars_lem cols cols (rows * cols - cols) grid (column + row * cols) (omega arith)
                (omega arith)
              ∙ rw inside (ap grid place))
    ]

module _ (rows cols tab : ℕ) where
  -- The terminal shows a text, with the cursor at `x` and `y`.
  pub record OnPage (t : Tty) (text : Letters) (x y : ℕ) : Type 0 where
    pub has_rows : t.rows ≡ rows
    pub has_cols : t.cols ≡ cols
    pub has_tab : t.tab_size ≡ tab
    pub at_x : t.cursor_x ≡ x
    pub at_y : t.cursor_y ≡ y
    pub cells :
        (row column : ℕ)
        → row < rows
        → column < cols
        → t.char_grid (column + row * cols) ≡ text row column

  pub clear_cursor-OnPage :
      (t : Tty) (text : Letters) (x y : ℕ) → OnPage t text x y → OnPage (clear_cursor t) text x y
  unfolding clear_cursor
  clear_cursor-OnPage t text x y w = record {
    has_rows = w.has_rows;
    has_cols = w.has_cols;
    has_tab = w.has_tab;
    at_x = w.at_x;
    at_y = w.at_y;
    cells = w.cells;
  }

  pub draw_cursor-OnPage :
      (t : Tty) (text : Letters) (x y : ℕ) → OnPage t text x y → OnPage (draw_cursor t) text x y
  unfolding draw_cursor
  draw_cursor-OnPage t text x y w = record {
    has_rows = w.has_rows;
    has_cols = w.has_cols;
    has_tab = w.has_tab;
    at_x = w.at_x;
    at_y = w.at_y;
    cells = w.cells;
  }

  pub moved-OnPage :
      (t : Tty) (text : Letters) (x y x' y' x'' y'' : ℕ)
      → OnPage t text x y
      → x' ≡ x''
      → y' ≡ y''
      → OnPage (record t { cursor_x = x'; cursor_y = y' }) text x'' y''
  moved-OnPage t text x y x' y' x'' y'' w e f = record {
    has_rows = w.has_rows;
    has_cols = w.has_cols;
    has_tab = w.has_tab;
    at_x = e;
    at_y = f;
    cells = w.cells;
  }

  pub update_cursor-OnPage :
      (t : Tty) (text : Letters) (x y x' y' x'' y'' : ℕ)
      → OnPage t text x y
      → x' ≡ x''
      → y' ≡ y''
      → OnPage (update_cursor t x' y') text x'' y''
  unfolding update_cursor
  update_cursor-OnPage t text x y x' y' x'' y'' w e f =
      draw_cursor-OnPage _ text x'' y'' (
        moved-OnPage (clear_cursor t) text x y x' y' x'' y'' (clear_cursor-OnPage t text x y w) e f)

  pub plot_char-OnPage :
      (t : Tty) (text : Letters) (x y fg bg c : ℕ)
      → x < cols
      → y < rows
      → OnPage t text x y
      → OnPage (plot_char t t.cursor_x t.cursor_y fg bg c) (written x y c text) x y
  unfolding plot_char render_char
  plot_char-OnPage t text x y fg bg c in_x in_y w = record {
    has_rows = w.has_rows;
    has_cols = w.has_cols;
    has_tab = w.has_tab;
    at_x = w.at_x;
    at_y = w.at_y;
    cells = λ row column h k.
        rw (w.at_x, w.at_y, w.has_cols)
          (plotted_cell cols x y c t.char_grid text row column in_x k (w.cells row column h k));
  }

  pub scroll-OnPage :
      (t : Tty) (text : Letters) (x y : ℕ)
      → 0 < cols
      → 0 < rows
      → OnPage t text x y
      → OnPage (scroll t) (shifted rows text) x y
  unfolding scroll
  scroll-OnPage t text x y pos posr w = draw_cursor-OnPage _ (shifted rows text) x y (record {
    has_rows = (clear_cursor-OnPage t text x y w).has_rows;
    has_cols = (clear_cursor-OnPage t text x y w).has_cols;
    has_tab = (clear_cursor-OnPage t text x y w).has_tab;
    at_x = (clear_cursor-OnPage t text x y w).at_x;
    at_y = (clear_cursor-OnPage t text x y w).at_y;
    cells = λ row column h k.
        rw (w.has_rows, w.has_cols)
          (scrolled_cell rows cols t.char_grid row column h k
            ∙ next_row row column h k (Bool-cases (row + 1 == rows)));
  })
    where
      next_row :
          (row column : ℕ)
          → row < rows
          → column < cols
          → ((row + 1 == rows) ≡ true) ⊎ ((row + 1 == rows) ≡ false)
          → (if row + 1 == rows then 0 else t.char_grid (column + (row + 1) * cols))
            ≡ shifted rows text row column
      next_row row column h k (inl e) = rw e refl
      next_row row column h k (inr e) = rw e (w.cells (row + 1) column (ground arith) k)
