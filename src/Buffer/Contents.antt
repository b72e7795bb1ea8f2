-- ===== src/Buffer/Contents.antt =====
-- A valid buffer holds a queue of bytes: those between its read and its write index.
use yolanda.Prelude.{
  ℕ, suc, ◌+◌, ◌-◌, ◌≤◌, ◌<◌, ◌≡◌, refl, [], ◌∷◌, some, true, arith, length, get_elem?, take, drop,
  length-take, length-drop, get_elem?-of_lt, ◌∙◌, sym, ap₂,
}
use yolanda.Prelude.Slices.{drop-cons, drop-drop, drop-take}
use yolanda.Prelude.Int.{pos}
use yolanda.Outcome.{ok, int_max}
use yolanda.Memory.{Bytes}
use yolanda.Buffer.{
  Buffer, buffer_new, buffer_readable_size, buffer_writeable_size, buffer_read_char,
  init_buffer_size,
}

pub record IsValid (b : Buffer) : Type 0 where
  pub block : length b.bytes ≡ b.total_size
  pub readable : b.read_index ≤ b.write_index
  pub writable : b.write_index ≤ b.total_size
  pub in_int : b.total_size ≤ int_max

abbrev pub contents : Buffer → Bytes
contents b = take (b.write_index - b.read_index) (drop b.read_index b.bytes)

pub length-contents : (b : Buffer) → IsValid b → length (contents b) ≡ b.write_index - b.read_index
length-contents b v = omega (
  arith,
  length-take (b.write_index - b.read_index) (drop b.read_index b.bytes),
  length-drop b.read_index b.bytes,
)

-- The sizes that the functions of the header report.
pub sizes :
    (b : Buffer)
    → IsValid b
    → (buffer_readable_size b ≡ pos (b.write_index - b.read_index))
      × (buffer_writeable_size b ≡ pos (b.total_size - b.write_index))
unfolding buffer_readable_size buffer_writeable_size
sizes b v = ground arith

-- A new buffer, if `malloc` gives both blocks, is valid and empty.
pub buffer_new-IsValid :
    (block : Bytes) (b : Buffer)
    → length block ≡ init_buffer_size
    → buffer_new true (some block) ≡ some b
    → IsValid b × (contents b ≡ [])
unfolding buffer_new
buffer_new-IsValid block b h e = ground arith

-- The first byte of a window.
pub window-cons :
    (xs : Bytes) (r w : ℕ)
    → r < w
    → w ≤ length xs
    → (c : ℕ) × (get_elem? xs r ≡ some c)
      × (take (w - r) (drop r xs) ≡ c ∷ take (w - (r + 1)) (drop (r + 1) xs))
window-cons xs r w h k =
    let (c, e) = get_elem?-of_lt xs r (omega arith) in
    (c, e, shift c _ _ r _ xs (omega arith) (omega arith) (drop-cons r xs c e))
  where
    shift :
        (c : ℕ) (n m r r' : ℕ) (xs : Bytes)
        → n ≡ suc m
        → r' ≡ suc r
        → drop r xs ≡ c ∷ drop (suc r) xs
        → take n (drop r xs) ≡ c ∷ take m (drop r' xs)
    shift c n m r r' xs p q d = rw (p, q, d) refl

-- Reading a character.
pub contents-cons :
    (b : Buffer)
    → IsValid b
    → b.read_index < b.write_index
    → (c : ℕ) × (get_elem? b.bytes b.read_index ≡ some c)
      × (contents b ≡ c ∷ contents (record b { read_index = b.read_index + 1 }))
contents-cons b v h = window-cons b.bytes b.read_index b.write_index h (omega (arith, v.block))

pub buffer_read_char-advances :
    (b : Buffer)
    → IsValid b
    → b.read_index < b.write_index
    → (c : ℕ) × (buffer_read_char b ≡ ok (c, record b { read_index = b.read_index + 1 }))
      × (contents b ≡ c ∷ contents (record b { read_index = b.read_index + 1 }))
unfolding buffer_read_char
buffer_read_char-advances b v h = let (c, e, q) = contents-cons b v h in (c, ground arith, q)

-- `buffer_read_char` on a valid buffer that holds bytes takes the first of them, leaves the others,
-- and keeps the buffer valid.
pub buffer_read_char-contents :
    (b : Buffer)
    → IsValid b
    → b.read_index < b.write_index
    → (c : ℕ) × (b' : Buffer) × (buffer_read_char b ≡ ok (c, b'))
      × IsValid b'
      × (contents b ≡ c ∷ contents b')
buffer_read_char-contents b v h =
    let (c, e, q) = buffer_read_char-advances b v h in
    (c, record b { read_index = b.read_index + 1 }, e, omega arith, q)

-- Moving the read index past n readable bytes drops them.
pub contents-advance :
    (b : Buffer) (n : ℕ)
    → IsValid b
    → n ≤ b.write_index - b.read_index
    → contents (record b { read_index = b.read_index + n }) ≡ drop n (contents b)
contents-advance b n v h =
    ap₂ take {x = b.write_index - (b.read_index + n)} (omega arith)
      (sym (drop-drop n b.read_index b.bytes))
    ∙ sym (drop-take n (b.write_index - b.read_index) (drop b.read_index b.bytes) h)
