-- ===== src/Tty/Grid.antt =====
-- What a terminal shows after a character (kernel/drivers/tty.cpp), as a page of text.
use crep_os.Base.{
  ℕ, zero, suc, ◌+◌, ◌-◌, ◌/◌, ◌<◌, ◌≡◌, refl, sym, subst, true, false, not, if◌then◌else◌, ◌==◌,
  List, [], ◌∷◌, arith, inl, inr, Bool-cases,
}
use crep_os.Tty.Screen.{Screen}
use crep_os.Memory.{Memory}
use crep_os.Tty.Output.{
  Tty, clear_cursor, draw_cursor, plot_char, scroll, wrapped, scrolled_back, advanced, put_plain,
  put_spaces, put_newline, put_backspace, putchar, tty_ctor, default_tab_size,
}
use crep_os.Tty.Cursor.{
  Letters, written, shifted, OnPage, clear_cursor-OnPage, draw_cursor-OnPage, moved-OnPage,
  update_cursor-OnPage, plot_char-OnPage, scroll-OnPage,
}

-- A page: its characters and the place of the cursor.
pub record Page : Type 0 where
  pub text : Letters
  pub x : ℕ
  pub y : ℕ

module _ (rows cols tab : ℕ) where
  abbrev pub next_line : Page → Page
  next_line p =
      if p.y + 1 == rows
      then record { text = shifted rows p.text; x = 0; y = p.y }
      else record { text = p.text; x = 0; y = p.y + 1 }

  -- A character goes where the cursor is, and the cursor to the next place.
  abbrev pub typed_plain : (c : ℕ) → Page → Page
  typed_plain c p =
      let q : Page = record p { text = written p.x p.y c p.text } in
      if p.x + 1 == cols then next_line q else record q { x = p.x + 1 }

  abbrev pub typed_spaces : (rounds : ℕ) → Page → Page
  typed_spaces zero p = p
  typed_spaces (suc rounds) p = typed_spaces rounds (typed_plain 32 p)

  -- The cursor goes back by one place and nothing is erased.
  abbrev pub typed_back : Page → Page
  typed_back p =
      if not (p.x == 0)
      then record p { x = p.x - 1 }
      else if not (p.y == 0)
      then record p { y = p.y - 1; x = cols - 1 }
      else p

  abbrev pub typed : (c : ℕ) → Page → Page
  typed c p =
      if c == 9
      then typed_spaces tab p
      else if c == 10
      then next_line p
      else if c == 8
      then typed_back p
      else typed_plain c p

  -- The terminal shows the page, and its cursor is inside.
  pub record Shows (t : Tty) (p : Page) : Type 0 where
    pub raw : OnPage rows cols tab t p.text p.x p.y
    pub x_inside : p.x < cols
    pub y_inside : p.y < rows

  draw_cursor-Shows : (t : Tty) (p : Page) → Shows t p → Shows (draw_cursor t) p
  draw_cursor-Shows t p w = record {
    raw = draw_cursor-OnPage rows cols tab t p.text p.x p.y w.raw;
    x_inside = w.x_inside;
    y_inside = w.y_inside;
  }

  -- After a character in the last column.
  scrolled_back-Shows :
      (t : Tty) (text : Letters) (y : ℕ)
      → 0 < cols
      → y < rows
      → OnPage rows cols tab t text 0 (y + 1)
      → Shows (scrolled_back t) (next_line (record { text = text; x = 0; y = y }))
  unfolding scrolled_back
  scrolled_back-Shows t text y pos in_y w = elim (Bool-cases (y + 1 == rows)) [
    | inl e ↦
        let end : (t.cursor_y == t.rows) ≡ true =
          let a = w.at_y in let b = w.has_rows in ground arith in
        let back : t.cursor_y - 1 ≡ y = let a = w.at_y in omega arith in
        rw (end, e)
          (record {
            raw =
                scroll-OnPage rows cols tab (record t { cursor_y = t.cursor_y - 1 }) text 0 y pos
                  (omega arith)
                  (moved-OnPage rows cols tab t text 0 (y + 1) t.cursor_x (t.cursor_y - 1) 0 y w
                    w.at_x back);
            x_inside = pos;
            y_inside = in_y;
          })
    | inr e ↦
        let more : (t.cursor_y == t.rows) ≡ false =
          let a = w.at_y in let b = w.has_rows in ground arith in
        rw (more, e) (record { raw = w; x_inside = pos; y_inside = ground arith })
  ]

  after_char-Shows :
      (u : Tty) (q : Page)
      → q.x < cols
      → q.y < rows
      → OnPage rows cols tab u q.text q.x q.y
      → Shows
          (scrolled_back (wrapped (advanced u)))
          (if q.x + 1 == cols then next_line q else record q { x = q.x + 1 })
  unfolding scrolled_back
  after_char-Shows u q in_x in_y w = elim (Bool-cases (q.x + 1 == cols)) [
    | inl e ↦
        let last : (u.cursor_x + 1 == u.cols) ≡ true =
          let a = w.at_x in let b = w.has_cols in ground arith in
        let down : u.cursor_y + 1 ≡ q.y + 1 = let a = w.at_y in omega arith in
        rw (last, e)
          (scrolled_back-Shows (record u { cursor_x = 0; cursor_y = u.cursor_y + 1 }) q.text q.y
            (omega arith) in_y
            (moved-OnPage rows cols tab u q.text q.x q.y 0 (u.cursor_y + 1) 0 (q.y + 1) w refl
              down))
    | inr e ↦
        let more : (u.cursor_x + 1 == u.cols) ≡ false =
          let a = w.at_x in let b = w.has_cols in ground arith in
        let same : (u.cursor_y == u.rows) ≡ false =
          let a = w.at_y in let b = w.has_rows in ground arith in
        let right : u.cursor_x + 1 ≡ q.x + 1 = let a = w.at_x in omega arith in
        rw (more, e, same)
          (record {
            raw =
                moved-OnPage rows cols tab u q.text q.x q.y (u.cursor_x + 1) u.cursor_y (q.x + 1)
                  q.y w right w.at_y;
            x_inside = ground arith;
            y_inside = in_y;
          })
  ]

  put_plain-Shows :
      (t : Tty) (p : Page) (c : ℕ) → Shows t p → Shows (put_plain t c) (typed_plain c p)
  unfolding put_plain clear_cursor
  put_plain-Shows t p c w =
      let u =
        plot_char (clear_cursor t) t.cursor_x t.cursor_y t.text_foreground t.text_background c in
      draw_cursor-Shows (scrolled_back (wrapped (advanced u))) (typed_plain c p) (
        after_char-Shows u (record p { text = written p.x p.y c p.text }) w.x_inside w.y_inside
          (plot_char-OnPage rows cols tab (clear_cursor t) p.text p.x p.y t.text_foreground
            t.text_background c w.x_inside w.y_inside
            (clear_cursor-OnPage rows cols tab t p.text p.x p.y w.raw)))

  put_spaces-Shows :
      (n : ℕ) (t : Tty) (p : Page) → Shows t p → Shows (put_spaces n t) (typed_spaces n p)
  unfolding put_spaces
  put_spaces-Shows zero t p w = w
  put_spaces-Shows (suc n) t p w =
      put_spaces-Shows n (put_plain t 32) (typed_plain 32 p) (put_plain-Shows t p 32 w)

  put_newline-Shows : (t : Tty) (p : Page) → Shows t p → Shows (put_newline t) (next_line p)
  unfolding put_newline
  put_newline-Shows t p w =
      let y = w.raw.at_y in
      let r = w.raw.has_rows in
      let in_x = w.x_inside in
      let in_y = w.y_inside in
      elim (Bool-cases (p.y + 1 == rows)) [
        | inl e ↦
            let end : (t.cursor_y + 1 == t.rows) ≡ true = ground arith in
            let here : t.rows - 1 ≡ p.y = ground arith in
            rw (end, e)
              (record {
                raw =
                    update_cursor-OnPage rows cols tab (scroll t) (shifted rows p.text) p.x p.y 0
                      (t.rows - 1) 0 p.y
                      (scroll-OnPage rows cols tab t p.text p.x p.y (omega arith) (omega arith)
                        w.raw)
                      refl here;
                x_inside = omega arith;
                y_inside = in_y;
              })
        | inr e ↦
            let more : (t.cursor_y + 1 == t.rows) ≡ false = ground arith in
            let down : t.cursor_y + 1 ≡ p.y + 1 = omega arith in
            rw (more, e)
              (record {
                raw =
                    update_cursor-OnPage rows cols tab t p.text p.x p.y 0 (t.cursor_y + 1) 0
                      (p.y + 1) w.raw refl down;
                x_inside = omega arith;
                y_inside = ground arith;
              })
      ]

  put_backspace-Shows : (t : Tty) (p : Page) → Shows t p → Shows (put_backspace t) (typed_back p)
  unfolding put_backspace clear_cursor
  put_backspace-Shows t p w =
      let x = w.raw.at_x in
      let y = w.raw.at_y in
      let c = w.raw.has_cols in
      let in_x = w.x_inside in
      let in_y = w.y_inside in
      let v = clear_cursor-OnPage rows cols tab t p.text p.x p.y w.raw in
      elim (Bool-cases (p.x == 0)) [
        | inr e ↦
            let a : (t.cursor_x == 0) ≡ false = ground arith in
            let left : t.cursor_x - 1 ≡ p.x - 1 = omega arith in
            rw (a, e)
              (draw_cursor-Shows (record (clear_cursor t) { cursor_x = t.cursor_x - 1 })
                (record p { x = p.x - 1 })
                (record {
                  raw =
                      moved-OnPage rows cols tab (clear_cursor t) p.text p.x p.y (t.cursor_x - 1)
                        t.cursor_y (p.x - 1) p.y v left y;
                  x_inside = omega arith;
                  y_inside = in_y;
                }))
        | inl e ↦ elim (Bool-cases (p.y == 0)) [
          | inr f ↦
              let a : (t.cursor_x == 0) ≡ true = ground arith in
              let b : (t.cursor_y == 0) ≡ false = ground arith in
              let up : t.cursor_y - 1 ≡ p.y - 1 = omega arith in
              let last : t.cols - 1 ≡ cols - 1 = omega arith in
              rw (a, b, e, f)
                (draw_cursor-Shows
                  (record (clear_cursor t) { cursor_y = t.cursor_y - 1; cursor_x = t.cols - 1 })
                  (record p { y = p.y - 1; x = cols - 1 })
                  (record {
                    raw =
                        moved-OnPage rows cols tab (clear_cursor t) p.text p.x p.y (t.cols - 1)
                          (t.cursor_y - 1) (cols - 1) (p.y - 1) v last up;
                    x_inside = omega arith;
                    y_inside = omega arith;
                  }))
          | inl f ↦
              let a : (t.cursor_x == 0) ≡ true = ground arith in
              let b : (t.cursor_y == 0) ≡ true = ground arith in rw (a, b, e, f) w
        ]
      ]

  -- A terminal that shows a page shows the typed page after every character: `putchar` keeps its
  -- cursor inside and its sizes.
  pub putchar-Shows : (t : Tty) (p : Page) (c : ℕ) → Shows t p → Shows (putchar t c) (typed c p)
  unfolding putchar
  putchar-Shows t p c w = elim (Bool-cases (c == 9)) [
    | inl e ↦ rw e (
        subst (λ n. Shows (put_spaces n t) (typed_spaces tab p)) (sym w.raw.has_tab)
          (put_spaces-Shows tab t p w))
    | inr e ↦ elim (Bool-cases (c == 10)) [
      | inl f ↦ rw (e, f) (put_newline-Shows t p w)
      | inr f ↦ elim (Bool-cases (c == 8)) [
        | inl g ↦ rw (e, f, g) (put_backspace-Shows t p w)
        | inr g ↦ rw (e, f, g) (put_plain-Shows t p c w)
      ]
    ]
  ]

  abbrev pub puts : Tty → List ℕ → Tty
  puts t [] = t
  puts t (c ∷ cs) = puts (putchar t c) cs

  abbrev pub typed_all : List ℕ → Page → Page
  typed_all [] p = p
  typed_all (c ∷ cs) p = typed_all cs (typed c p)

  pub puts-Shows :
      (t : Tty) (p : Page) (cs : List ℕ) → Shows t p → Shows (puts t cs) (typed_all cs p)
  puts-Shows t p [] w = w
  puts-Shows t p (c ∷ cs) w = puts-Shows (putchar t c) (typed c p) cs (putchar-Shows t p c w)

abbrev pub blank : Page
blank = record { text = λ row column. 0; x = 0; y = 0 }

-- A new terminal whose screen holds a character in each direction shows, after any characters
-- (tabs, new lines and backspaces among them), the page that typing them on a blank page gives: the
-- same character in each place and the cursor at the same place, which is inside the rows and
-- columns.
pub tty_ctor-puts :
    (sc : Screen) (font : Memory) (font_height font_width : ℕ) (cs : List ℕ)
    → 0 < sc.height / font_height
    → 0 < sc.width / font_width
    → Shows
        (sc.height / font_height)
        (sc.width / font_width)
        default_tab_size
        (puts
          (sc.height / font_height)
          (sc.width / font_width)
          default_tab_size
          (tty_ctor sc font font_height font_width)
          cs)
        (typed_all (sc.height / font_height) (sc.width / font_width) default_tab_size cs blank)
unfolding tty_ctor draw_cursor
tty_ctor-puts sc font font_height font_width cs tall wide =
    puts-Shows (sc.height / font_height) (sc.width / font_width) default_tab_size
      (tty_ctor sc font font_height font_width) blank cs
      (record {
        raw = record {
          has_rows = refl;
          has_cols = refl;
          has_tab = refl;
          at_x = refl;
          at_y = refl;
          cells = λ row column h k. refl;
        };
        x_inside = wide;
        y_inside = tall;
      })
