-- ===== src/Tests/Tty.antt =====
-- Runs of a terminal of two rows and two columns.
use crep_os.Base.{ℕ, ◌≤◌, ◌≡◌, ◌↔◌, refl, false, List, [], ◌∷◌, none, some, arith}
use crep_os.Tty.Screen.{Screen}
use crep_os.Tty.Output.{Tty, tty_ctor, ioctl}
use crep_os.Tty.Keyboard.{ps2_keyboard}
use crep_os.Tty.Grid.{Shows, puts, typed_all, blank, tty_ctor-puts}
use crep_os.Tty.Keys.{ps2_keyboard-outside}

abbrev screen : Screen
screen = record {
  framebuffer = λ i. 0;
  double_buffer = λ i. 0;
  pitch = 64;
  width = 16;
  height = 32;
  bpp = 32;
  size = 2048;
}

abbrev glyphs : ℕ → ℕ
glyphs = λ i. 255

abbrev keys : List ℕ
keys = 65 ∷ 66 ∷ 67 ∷ 10 ∷ 68 ∷ []

-- "AB", then "C" and a new line, which scrolls, then "D".
page :
    typed_all 2 2 4 keys blank ≡ record { text = (typed_all 2 2 4 keys blank).text; x = 1; y = 1 }
page = refl

first_row : (typed_all 2 2 4 keys blank).text 0 0 ≡ 67
first_row = refl

tty_ctor-puts_example :
    Shows 2 2 4 (puts 2 2 4 (tty_ctor screen glyphs 16 8) keys) (typed_all 2 2 4 keys blank)
tty_ctor-puts_example = tty_ctor-puts screen glyphs 16 8 keys (omega arith) (omega arith)

abbrev terminal : Tty
terminal = tty_ctor screen glyphs 16 8

window :
    ioctl terminal 0x5413 ≡ some (record { ws_row = 2; ws_col = 2; ws_xpixel = 16; ws_ypixel = 32 })
unfolding ioctl tty_ctor
window = refl

-- The key code of caps lock.
ps2_keyboard-outside_example : (ps2_keyboard false terminal 58 ≡ none) ↔ ((58 ≤ 58) × (58 ≤ 128))
ps2_keyboard-outside_example = ps2_keyboard-outside false terminal 58
