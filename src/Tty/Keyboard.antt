-- ===== src/Tty/Keyboard.antt =====
-- The keyboard (kernel/drivers/tty.cpp). The handler reads the key code from a port, which is its
-- argument; the terminal is that of `current_tty`.
use crep_os.Base.{
  ℕ, Bool, true, false, List, [], ◌∷◌, Option, none, some, if◌then◌else◌, ◌==◌, leb, get_elem?,
}
use crep_os.Tty.Output.{Tty, putchar}

abbrev pub keymap : List ℕ
keymap =
    32 ∷ 32 ∷ 49 ∷ 50 ∷ 51 ∷ 52 ∷ 53 ∷ 54 ∷ 55 ∷ 56 ∷ 57 ∷ 48 ∷ 45 ∷ 61 ∷ 8 ∷ 9 ∷ 113 ∷ 119 ∷ 101
    ∷ 114 ∷ 116 ∷ 121 ∷ 117 ∷ 105 ∷ 111 ∷ 112 ∷ 91 ∷ 93 ∷ 32 ∷ 32 ∷ 97 ∷ 115 ∷ 100 ∷ 102 ∷ 103 ∷ 104
    ∷ 106 ∷ 107 ∷ 108 ∷ 59 ∷ 39 ∷ 96 ∷ 32 ∷ 92 ∷ 122 ∷ 120 ∷ 99 ∷ 118 ∷ 98 ∷ 110 ∷ 109 ∷ 44 ∷ 46
    ∷ 47 ∷ 32 ∷ 32 ∷ 32 ∷ 32 ∷ []

abbrev pub cap_keymap : List ℕ
cap_keymap =
    32 ∷ 32 ∷ 33 ∷ 64 ∷ 35 ∷ 36 ∷ 37 ∷ 94 ∷ 38 ∷ 42 ∷ 40 ∷ 41 ∷ 95 ∷ 43 ∷ 8 ∷ 9 ∷ 81 ∷ 87 ∷ 69 ∷ 82
    ∷ 84 ∷ 89 ∷ 85 ∷ 73 ∷ 79 ∷ 80 ∷ 123 ∷ 125 ∷ 32 ∷ 32 ∷ 65 ∷ 83 ∷ 68 ∷ 70 ∷ 71 ∷ 72 ∷ 74 ∷ 75 ∷ 76
    ∷ 58 ∷ 39 ∷ 126 ∷ 32 ∷ 92 ∷ 90 ∷ 88 ∷ 67 ∷ 86 ∷ 66 ∷ 78 ∷ 77 ∷ 60 ∷ 62 ∷ 63 ∷ 32 ∷ 32 ∷ 32 ∷ 32
    ∷ []

abbrev pub put_key : (upkey : Bool) → Tty → Option ℕ → Option (Bool × Tty)
put_key upkey t none = none
put_key upkey t (some c) = some (upkey, putchar t c)

-- The default case: the character of a key that is pressed. `none` is a read outside the map.
unfoldable pub put_mapped : (upkey : Bool) → Tty → (keycode : ℕ) → Option (Bool × Tty)
unfolding putchar
put_mapped upkey t keycode =
    if leb keycode 128
    then put_key upkey t (get_elem? (if upkey then cap_keymap else keymap) keycode)
    else some (upkey, t)

unfoldable pub ps2_keyboard : (upkey : Bool) → Tty → (keycode : ℕ) → Option (Bool × Tty)
unfolding put_mapped
ps2_keyboard upkey t keycode =
    if keycode == 0xaa
    then some (false, t)
    else if keycode == 0x2a
    then some (true, t)
    else if keycode == 0xf
    then some (upkey, putchar t 9)
    else if keycode == 0xe
    then some (upkey, putchar t 8)
    else if keycode == 0x1c
    then some (upkey, putchar t 10)
    else put_mapped upkey t keycode

-- `putchar` on the current terminal, -1 of which is `none`.
unfoldable pub put_current : Option Tty → (c : ℕ) → Option Tty
put_current none c = none
put_current (some t) c = some (putchar t c)
