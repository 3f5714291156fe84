-- ===== src/Emulator/Words.antt =====
-- The words of a command, as std::istringstream gives them, and the end of a typed line.
use fuelflux.Base.{ℕ, ◌/◌, Bool, ◌==◌, ◌||◌, ◌&&◌, leb, if◌then◌else◌, [], ◌∷◌, Text}
use mathlib.Core.List.{reverse}

-- std::isspace, in the C locale
abbrev pub is_space : ℕ → Bool
is_space c = (c == 32) || (leb 9 c && leb c 13)

abbrev pub skip_spaces : Text → Text
skip_spaces [] = []
skip_spaces (c ∷ t) = if is_space c then skip_spaces t else c ∷ t

abbrev pub add_letter : ℕ → Text × Text → Text × Text
add_letter c (w, rest) = (c ∷ w, rest)

abbrev pub split_word : Text → Text × Text
split_word [] = ([], [])
split_word (c ∷ t) = if is_space c then ([], c ∷ t) else add_letter c (split_word t)

-- The next word, and what is left of the stream.
unfoldable pub next_word : Text → Text × Text
next_word t = split_word (skip_spaces t)

-- The loop that goes back over the bytes inside a character to its first byte, which goes too; on
-- the bytes from the last one on.
abbrev pub without_first_char : Text → Text
without_first_char [] = []
without_first_char (c ∷ t) = if c / 64 == 2 then without_first_char t else t

unfoldable pub erase_last_char : Text → Text
erase_last_char t = reverse (without_first_char (reverse t))
