-- ===== src/Rot13/Laws.antt =====
-- Rotating twice by 13 is rotating not at all.
use yolanda.Rot13.{rot13_char}
use yolanda.Memory.{Bytes}
use yolanda.Prelude.{◌≡◌, ◌∷◌, refl, ap, ap₂, ℕ, arith, suc, length, [], map}

pub rot13_char-rot13_char : (c : ℕ) → rot13_char (rot13_char c) ≡ c
unfolding rot13_char
rot13_char-rot13_char c = ground arith

-- Only a line feed becomes a line feed.
pub rot13_char-lf : (c : ℕ) → rot13_char c ≡ 10 → c ≡ 10
unfolding rot13_char
rot13_char-lf c h = ground arith

pub map-rot13_char : (text : Bytes) → map rot13_char (map rot13_char text) ≡ text
map-rot13_char [] = refl
map-rot13_char (c ∷ text) = ap₂ ◌∷◌ (rot13_char-rot13_char c) (map-rot13_char text)

pub length-map : (f : ℕ → ℕ) (text : Bytes) → length (map f text) ≡ length text
length-map f [] = refl
length-map f (c ∷ text) = ap suc (length-map f text)
