-- ===== src/Yolandapp/Buffer.antt =====
-- yolandapp/buffer.hpp and yolandapp/buffer.cpp: the byte queue as a string with two indices. An index
-- never passes the length of the string, so the sums of `size_t` that move one do not wrap around.
pub mod Append
pub mod Port
use yolanda.Prelude.{
  ◌+◌, ◌-◌, ◌%◌, ◌^◌, ◌&&◌, ◌∷◌, ◌++◌, ◌==◌, if◌then◌else◌, none, some, ℕ, Option, length,
  get_elem?, ltb, leb, [], drop, replicate, take,
}
use yolanda.Outcome.{Outcome, ok, fault, out_of_bounds, thrown, int_max, ◌>>=◌}
use yolanda.Memory.{Bytes, memcpy, store}
use yolanda.Buffer.{move_down, find_crlf}
use yolanda.Prelude.Int.{ℤ, pos, minus_one, sub_ℕ}

-- `a - b` of type `size_t`
abbrev pub sub_size : ℕ → ℕ → ℕ
sub_size a b = (a + 2 ^ 64 - b) % 2 ^ 64

-- A `size_t` as the `int` that it is returned as.
abbrev pub as_int : ℕ → ℤ
as_int n = let m = n % 2 ^ 32 in if leb m int_max then pos m else sub_ℕ m (2 ^ 32)

pub record StringBuffer : Type 0 where
  -- `data`
  pub chars : Bytes
  pub read_index : ℕ
  pub write_index : ℕ

-- `data.resize(size)` on the empty string writes zeros.
unfoldable pub string_buffer_new : ℕ → StringBuffer
string_buffer_new size = record { chars = replicate size 0; read_index = 0; write_index = 0 }

unfoldable pub writeable : StringBuffer → ℕ
writeable s = sub_size (length s.chars) s.write_index

unfoldable pub readable : StringBuffer → ℕ
readable s = sub_size s.write_index s.read_index

unfoldable pub spare : StringBuffer → ℕ
spare s = s.read_index

-- `max_size` is the length that the library does not let a string pass.
module _ (max_size : ℕ) where
  -- `data.resize(size)`
  unfoldable pub resize : Bytes → ℕ → Outcome Bytes
  resize string size =
      if leb size max_size
      then ok (take size string ++ replicate (size - length string) 0)
      else fault thrown

  -- `data.insert(at, string)`
  unfoldable pub insert : Bytes → ℕ → Bytes → Outcome Bytes
  insert string at more =
      if leb at (length string) && leb (length string + length more) max_size
      then ok (take at string ++ (more ++ drop at string))
      else fault thrown

  unfoldable pub make_room : StringBuffer → ℕ → Outcome StringBuffer
  make_room s size =
      if ltb size (writeable s)
      then ok s
      else if leb size ((spare s + writeable s) % 2 ^ 64)
      then (do
        chars' ← move_down (readable s) 0 s.read_index s.chars
        ok (record { chars = chars'; read_index = 0; write_index = readable s }))
      else do chars' ← resize s.chars (length s.chars + size); ok (record s { chars = chars' })

  -- `append(void *, int)`: `none` is NULL.
  unfoldable pub append_data : StringBuffer → Option Bytes → Outcome StringBuffer
  append_data s none = ok s
  append_data s (some src) = do
    s' ← make_room s (length src)
    chars' ← memcpy s'.chars s'.write_index src
    ok (record s' { chars = chars'; write_index = s'.write_index + length src })

  -- `append(char)`
  unfoldable pub append_char : StringBuffer → ℕ → Outcome StringBuffer
  append_char s c = do
    s' ← make_room s 1
    chars' ← store s'.chars s'.write_index c
    ok (record s' { chars = chars'; write_index = s'.write_index + 1 })

  -- `append(const std::string &)`
  unfoldable pub append_string : StringBuffer → Bytes → Outcome StringBuffer
  append_string s [] = ok s
  append_string s (c ∷ cs) = do
    s' ← make_room s (length (c ∷ cs))
    chars' ← insert s'.chars s'.write_index (c ∷ cs)
    ok (record s' { chars = chars'; write_index = s'.write_index + length (c ∷ cs) })

  -- What `readv` comes to: `none` is -1, and a list is the bytes that it delivers.
  unfoldable pub socket_read : StringBuffer → Option Bytes → Outcome (ℤ × StringBuffer)
  socket_read s none = ok (minus_one, s)
  socket_read s (some received) =
      let max_writable = writeable s in
      if leb (length received) max_writable
      then (do
        chars' ← memcpy s.chars s.write_index received
        ok (
          as_int (length received),
          record s { chars = chars'; write_index = s.write_index + length received },
        ))
      else do
        chars' ← memcpy s.chars s.write_index (take max_writable received)
        s' ←
            append_data (record s { chars = chars'; write_index = length chars' })
              (some (drop max_writable received))
        ok (as_int (length received), s')

-- `data[i]`: the place behind the last character holds a zero.
unfoldable pub char_at : Bytes → ℕ → Outcome ℕ
char_at string i = elim (get_elem? string i) [
  | none ↦ if i == length string then ok 0 else fault out_of_bounds
  | some c ↦ ok c
]

unfoldable pub read_char : StringBuffer → Outcome (ℕ × StringBuffer)
read_char s = do
  c ← char_at s.chars s.read_index
  ok (c, record s { read_index = s.read_index + 1 })

-- `find_CRLF`: the search goes on to the end of the string. The pointer is given as an index.
unfoldable pub find_line_end : StringBuffer → Option ℕ
find_line_end s = elim (find_crlf (drop s.read_index s.chars)) [
  | none ↦ none
  | some k ↦ some (s.read_index + k)
]
