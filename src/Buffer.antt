-- ===== src/Buffer.antt =====
-- lib/buffer.h and lib/buffer.c: the byte queue between a socket and the application.
-- An `int` field is a number: none of them is negative, but for `writeIndex` after `make_room` on
-- a buffer that was read past its end, where the model has the fault of the write that follows.
-- The value that `int` functions without a `return` leave undefined is left out.
pub mod Slide
pub mod Contents
pub mod Append
pub mod Receive
pub mod Writes
mod Tests
pub mod Search
pub mod View
use yolanda.Prelude.{
  ℕ, zero, suc, ◌+◌, ◌-◌, List, [], ◌∷◌, ◌++◌, Option, none, some, Bool, true, false, leb, ltb,
  ◌==◌, ◌&&◌, if◌then◌else◌, length, take, drop,
}
use yolanda.Prelude.Int.{ℤ, pos, negsuc, sub_ℕ, leb_ℤ, minus_one}
use yolanda.Outcome.{Outcome, ok, fault, out_of_bounds, null_pointer, to_int, ◌>>=◌, ◌>>◌}
use yolanda.Memory.{Bytes, Realloc, load, store, memcpy}

abbrev pub init_buffer_size : ℕ
init_buffer_size = 65536

-- `data` is the block with its contents; a NULL `data` is the empty block.
pub record Buffer : Type 0 where
  pub bytes : Bytes
  pub read_index : ℕ
  pub write_index : ℕ
  pub total_size : ℕ

-- `room` is what `malloc(sizeof(struct buffer))` comes to, `block` what `malloc` of the data
-- returns: `none` is NULL, which the source does not test.
unfoldable pub buffer_new : Bool → Option Bytes → Option Buffer
buffer_new false block = none
buffer_new true none =
    some (record { bytes = []; read_index = 0; write_index = 0; total_size = init_buffer_size })
buffer_new true (some bytes) =
    some (record { bytes = bytes; read_index = 0; write_index = 0; total_size = init_buffer_size })

pub buffer_writeable_size : Buffer → ℤ
buffer_writeable_size b = sub_ℕ b.total_size b.write_index

unfoldable pub buffer_readable_size : Buffer → ℤ
buffer_readable_size b = sub_ℕ b.write_index b.read_index

pub buffer_front_spare_size : Buffer → ℕ
buffer_front_spare_size b = b.read_index

-- The loop of `make_room` that moves bytes to the front, one at a time and upwards:
-- `rounds` bytes are left to be moved, to i, i + 1, ….
pub move_down : ℕ → ℕ → ℕ → Bytes → Outcome Bytes
move_down zero i from bytes = ok bytes
move_down (suc rounds) i from bytes = do
  c ← load bytes (from + i)
  bytes' ← store bytes i c
  move_down rounds (i + 1) from bytes'

slide : Buffer → ℤ → Outcome Buffer
unfolding move_down
slide b (negsuc n) = fault out_of_bounds
slide b (pos readable) = do
  bytes' ← move_down readable 0 b.read_index b.bytes
  ok (record b { bytes = bytes'; read_index = 0; write_index = readable })

module _ (realloc : Realloc) where
  enlarge : Buffer → ℕ → Outcome Buffer
  enlarge b size = do
    total ← to_int (b.total_size + size)
    elim (realloc b.bytes total) [
      | none ↦ ok b
      | some tmp ↦ ok (record b { bytes = tmp; total_size = total })
    ]

  pub make_room : Buffer → ℕ → Outcome Buffer
  unfolding slide enlarge buffer_writeable_size buffer_readable_size buffer_front_spare_size
  make_room b size =
      if leb_ℤ (pos size) (buffer_writeable_size b)
      then ok b
      else if leb (size + b.write_index) (buffer_front_spare_size b + b.total_size)
      then slide b (buffer_readable_size b)
      else enlarge b size

  -- `memcpy(data + writeIndex, …, size); writeIndex += size`
  pub write_bytes : Buffer → Bytes → Outcome Buffer
  write_bytes b src = do
    bytes' ← memcpy b.bytes b.write_index src
    write_index' ← to_int (b.write_index + length src)
    ok (record b { bytes = bytes'; write_index = write_index' })

  -- `data` and `size` are one list; `none` is a NULL `data`.
  pub buffer_append : Buffer → Option Bytes → Outcome Buffer
  unfolding write_bytes
  buffer_append b none = ok b
  buffer_append b (some src) = do b' ← make_room b (length src); write_bytes b' src

  pub buffer_append_char : Buffer → ℕ → Outcome Buffer
  buffer_append_char b c = do
    b' ← make_room b 1
    bytes' ← store b'.bytes b'.write_index c
    ok (record b' { bytes = bytes'; write_index = b'.write_index + 1 })

  -- The list is the string without its final zero.
  unfoldable pub buffer_append_string : Buffer → Option Bytes → Outcome Buffer
  buffer_append_string b none = ok b
  buffer_append_string b (some string) = buffer_append b (some string)

  -- What `readv` comes to: `none` is -1, and a list is the bytes that it delivers, first into
  -- the writable part of the buffer and then into `additional_buffer`.
  pub buffer_socket_read : Buffer → Option Bytes → Outcome (ℤ × Buffer)
  unfolding buffer_writeable_size
  buffer_socket_read b none = ok (minus_one, b)
  buffer_socket_read b (some received) = elim (buffer_writeable_size b) [
    | negsuc n ↦ fault out_of_bounds
    | pos max_writable ↦
        if leb (length received) max_writable
        then (do
          bytes' ← memcpy b.bytes b.write_index received
          ok (
            pos (length received),
            record b { bytes = bytes'; write_index = b.write_index + length received },
          ))
        else do
          bytes' ← memcpy b.bytes b.write_index (take max_writable received)
          b' ←
              buffer_append (record b { bytes = bytes'; write_index = b.total_size })
                (some (drop max_writable received))
          ok (pos (length received), b')
  ]

pub buffer_read_char : Buffer → Outcome (ℕ × Buffer)
buffer_read_char b = do
  c ← load b.bytes b.read_index
  ok (c, record b { read_index = b.read_index + 1 })

abbrev pub cr : ℕ
cr = 13

abbrev pub lf : ℕ
lf = 10

-- `memmem(p, n, "\r\n", 2)` over the list of the n bytes, as an offset.
unfoldable pub find_crlf : Bytes → Option ℕ
find_crlf [] = none
find_crlf (c ∷ []) = none
find_crlf (c ∷ d ∷ rest) =
    let later = find_crlf (d ∷ rest) in
    if c == cr && d == lf then some 0 else elim later [ none ↦ none | some k ↦ some (k + 1) ]

-- The pointer is given as its offset from `data + readIndex`. A negative size would be read as an
-- enormous one.
pub buffer_find_crlf : Buffer → Outcome (Option ℕ)
unfolding buffer_readable_size
buffer_find_crlf b = elim (buffer_readable_size b) [
  | negsuc n ↦ fault out_of_bounds
  | pos n ↦
      if leb (b.read_index + n) (length b.bytes)
      then ok (find_crlf (take n (drop b.read_index b.bytes)))
      else fault out_of_bounds
]
