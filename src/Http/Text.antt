-- ===== src/Http/Text.antt =====
-- C strings: what the HTTP parts use of string.h and of `%d`.
use yolanda.Prelude.Int.{ℤ, pos, minus_one}
use yolanda.Outcome.{Outcome, fault, ok, out_of_bounds}
use yolanda.Memory.{Bytes}
use yolanda.Prelude.{
  ◌+◌, ◌/◌, ◌%◌, ◌&&◌, ◌∷◌, ◌++◌, ◌==◌, if◌then◌else◌, none, some, ℕ, Option, zero, suc, length,
  ltb, [], replicate, take, ◌≡◌, refl, ap, length-replicate,
}
use Prim.Native.Char.{code}
use Prim.Native.String.{String}

-- The bytes of a literal, without the final zero.
abbrev pub codes : String → Bytes
codes String.[] = []
codes (String.◌∷◌ c s) = code c ∷ codes s

-- A byte of a block that is read as a string.
byte : Bytes → Outcome (ℕ × Bytes)
byte [] = fault out_of_bounds
byte (c ∷ cs) = ok (c, cs)

-- `strncmp(p, q, strlen(q))`, where `literal` is the string q without its zero and `block` what p
-- points to. Of a positive result C fixes the sign alone: it is `greater a b + 1` for bytes a > b.
unfoldable pub strncmp : (ℕ → ℕ → ℕ) → Bytes → Bytes → Outcome ℤ
strncmp greater block [] = ok (pos 0)
strncmp greater [] (b ∷ literal) = fault out_of_bounds
strncmp greater (a ∷ block) (b ∷ literal) =
    let rest = strncmp greater block literal in
    if a == b then rest else if ltb b a then ok (pos (suc (greater a b))) else ok minus_one

-- The bytes that `strncpy(p, src, n)` writes: up to a zero those of the source, and then zeros.
pub strncpy_bytes : Bytes → Bytes
strncpy_bytes [] = []
strncpy_bytes (zero ∷ src) = 0 ∷ replicate (length src) 0
strncpy_bytes (suc c ∷ src) = suc c ∷ strncpy_bytes src

-- `memmem` for one byte, and for two, as an offset.
unfoldable pub find_byte : ℕ → Bytes → Option ℕ
find_byte c [] = none
find_byte c (d ∷ rest) =
    let later = find_byte c rest in
    if c == d then some 0 else elim later [ none ↦ none | some k ↦ some (k + 1) ]

unfoldable pub find_pair : ℕ → ℕ → Bytes → Option ℕ
find_pair a b [] = none
find_pair a b (c ∷ []) = none
find_pair a b (c ∷ d ∷ rest) =
    let later = find_pair a b (d ∷ rest) in
    if c == a && d == b then some 0 else elim later [ none ↦ none | some k ↦ some (k + 1) ]

-- The decimal digits of a number, the last ones if there are more than `fuel`.
unfoldable pub decimal : ℕ → ℕ → Bytes
decimal zero n = []
decimal (suc fuel) n =
    let rest = decimal fuel (n / 10) in
    if ltb n 10 then (48 + n) ∷ [] else rest ++ (48 + n % 10) ∷ []

-- A 64-bit number has at most 20 digits.
abbrev pub digits_max : ℕ
digits_max = 20

-- `snprintf` into a buffer of the size of `buf` in http_response.c, without the final zero.
unfoldable pub snprintf_32 : Bytes → Bytes
snprintf_32 text = take 31 text

pub length-strncpy_bytes : (src : Bytes) → length (strncpy_bytes src) ≡ length src
unfolding strncpy_bytes
length-strncpy_bytes [] = refl
length-strncpy_bytes (zero ∷ src) = ap suc (length-replicate (length src) 0)
length-strncpy_bytes (suc c ∷ src) = ap suc (length-strncpy_bytes src)
