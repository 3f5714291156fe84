-- ===== src/Emulator/Typed.antt =====
-- What typing does.
use mathlib.Core.List.{reverse, reverse-append, reverse-reverse}
use fuelflux.Base.{
  ℕ, ◌≡◌, refl, sym, ap, ◌∙◌, arith, true, false, List, [], ◌∷◌, ◌++◌, Text, codes, text_eq, All,
  append_assoc, append_nil,
}
use fuelflux.FtText.Decoded.{encode, IsCodePoint}
use fuelflux.Emulator.Words.{without_first_char, erase_last_char}
use fuelflux.Emulator.Commands.{Emulator}
use fuelflux.Emulator.Line.{process_keyboard_input, with_buffer, is_enter, is_erase}

-- The bytes typed one after the other.
abbrev pub type_in : Emulator → Text → Emulator
type_in e [] = e
type_in e (c ∷ t) = type_in (process_keyboard_input c true e).0 t

-- Neither Enter nor an erasing key.
abbrev pub IsPlain : ℕ → Type 0
IsPlain c = (is_enter c ≡ false) × (is_erase c ≡ false)

plain_byte :
    (c : ℕ) (e : Emulator)
    → IsPlain c
    → process_keyboard_input c true e ≡ (with_buffer (e.command_buffer ++ (c ∷ [])) e, false)
unfolding process_keyboard_input
plain_byte c e h = rw (h.0, h.1) refl

type_in-buffer :
    (t : Text) (e : Emulator) → All IsPlain t → (type_in e t).command_buffer ≡ e.command_buffer ++ t
type_in-buffer [] e h = sym (append_nil e.command_buffer)
type_in-buffer (c ∷ t) e h =
    ap (λ r. (type_in r.0 t).command_buffer) (plain_byte c e h.0)
    ∙ (type_in-buffer t (with_buffer (e.command_buffer ++ (c ∷ [])) e) h.1
        ∙ append_assoc e.command_buffer (c ∷ []) t)

-- The bytes of a character are plain if it is.
encode-IsPlain : (cp : ℕ) → IsCodePoint cp → IsPlain cp → All IsPlain (encode cp)
encode-IsPlain cp h p = ground arith

without-encode :
    (cp : ℕ) (r : Text) → IsCodePoint cp → without_first_char (reverse (encode cp) ++ r) ≡ r
without-encode cp r h = ground arith

erase-encode : (cp : ℕ) (t : Text) → IsCodePoint cp → erase_last_char (t ++ encode cp) ≡ t
unfolding erase_last_char
erase-encode cp t h =
    ap (λ l. reverse (without_first_char l)) (reverse-append t (encode cp))
    ∙ (ap reverse (without-encode cp (reverse t) h) ∙ reverse-reverse t)

-- The keys of a line editor: a character, sent as its bytes, and one that erases.
pub data Stroke : Type 0 where
  character : ℕ → Stroke
  erase : Stroke

abbrev pub stroke : Emulator → Stroke → Emulator
stroke e (character cp) = type_in e (encode cp)
stroke e erase = (process_keyboard_input 127 true e).0

abbrev pub strokes : Emulator → List Stroke → Emulator
strokes e [] = e
strokes e (k ∷ ks) = strokes (stroke e k) ks

-- The characters of the line, the last one first, after these keys.
abbrev pub edit : List ℕ → List Stroke → List ℕ
edit cps [] = cps
edit cps (character cp ∷ ks) = edit (cp ∷ cps) ks
edit [] (erase ∷ ks) = edit [] ks
edit (cp ∷ cps) (erase ∷ ks) = edit cps ks

abbrev pub text_of : List ℕ → Text
text_of [] = []
text_of (cp ∷ cps) = text_of cps ++ encode cp

abbrev pub IsTypable : Stroke → Type 0
IsTypable (character cp) = IsCodePoint cp × IsPlain cp
IsTypable erase = Unit

erase-buffer :
    (e : Emulator)
    → (process_keyboard_input 127 true e).0.command_buffer ≡ erase_last_char e.command_buffer
unfolding process_keyboard_input
erase-buffer e = refl

erase_nil : erase_last_char [] ≡ []
unfolding erase_last_char
erase_nil = refl

strokes-buffer :
    (ks : List Stroke) (cps : List ℕ) (e : Emulator)
    → e.command_buffer ≡ text_of cps
    → All IsCodePoint cps
    → All IsTypable ks
    → (strokes e ks).command_buffer ≡ text_of (edit cps ks)
strokes-buffer [] cps e b h k = b
strokes-buffer (character cp ∷ ks) cps e b h k =
    strokes-buffer ks (cp ∷ cps) (type_in e (encode cp))
      (type_in-buffer (encode cp) e (encode-IsPlain cp k.0.0 k.0.1) ∙ ap (λ t. t ++ encode cp) b)
      (k.0.0, h) k.1
strokes-buffer (erase ∷ ks) [] e b h k =
    strokes-buffer ks [] (stroke e erase) (erase-buffer e ∙ (ap erase_last_char b ∙ erase_nil)) h
      k.1
strokes-buffer (erase ∷ ks) (cp ∷ cps) e b h k =
    strokes-buffer ks cps (stroke e erase)
      (erase-buffer e ∙ (ap erase_last_char b ∙ erase-encode cp (text_of cps) h.0)) h.1 k.1

-- The command line holds the bytes of the characters that a line editor would hold after the same
-- keys, a key that erases taking the last character, and Enter then ends the emulator exactly if
-- they spell exit. The characters are neither Enter nor erasing.
pub strokes_lem :
    (ks : List Stroke) (cps : List ℕ) (e : Emulator)
    → e.command_buffer ≡ text_of cps
    → All IsCodePoint cps
    → All IsTypable ks
    → let typed = strokes e ks in
      (typed.command_buffer ≡ text_of (edit cps ks))
      × ((process_keyboard_input 10 true typed).1 ≡ text_eq (text_of (edit cps ks)) (codes "exit"))
unfolding process_keyboard_input
strokes_lem ks cps e b h k =
    let same = strokes-buffer ks cps e b h k in (same, ap (λ t. text_eq t (codes "exit")) same)
