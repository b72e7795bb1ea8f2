-- ===== src/Read.antt =====
-- lib/read.c: reading whole messages and lines from a descriptor. The descriptor is the list of what
-- its calls of `read` or `recv` will come to.
pub mod Exact
pub mod Framing
pub mod Fragments
mod Tests
use yolanda.Memory.{Bytes}
use yolanda.Prelude.{
  ◌+◌, ◌-◌, ◌*◌, ◌∷◌, ◌++◌, ◌==◌, if◌then◌else◌, true, false, ℕ, List, zero, suc, length, ltb, leb,
  [], take, drop, ◌%◌, ◌^◌,
}

-- What a call comes to: bytes, of which it delivers at most as many as were asked for, the end of the
-- stream, an interruption (`EINTR`), or another error.
pub data Arrival : Type 0 where
  bytes : ℕ → Bytes → Arrival
  eof interrupted broken : Arrival

abbrev pub Stream : Type 0
Stream = List Arrival

-- `bytes c cs` is a nonempty piece, c first. A call for `room` bytes takes what fits, and leaves the
-- rest of the piece for the next call.
abbrev pub piece : ℕ → Bytes → Bytes
piece c cs = c ∷ cs

abbrev pub push_back : Bytes → Stream → Stream
push_back [] s = s
push_back (c ∷ cs) s = bytes c cs ∷ s

-- What reading came to: the value that is returned, the bytes stored, and the rest of the stream.
-- `size_t` results of -1 are `failed`.
pub data ReadResult : Type 0 where
  done : ℕ → Bytes → Stream → ReadResult
  failed : Bytes → Stream → ReadResult

pub prepend : Bytes → ReadResult → ReadResult
prepend cs (done n ds s) = done n (cs ++ ds) s
prepend cs (failed ds s) = failed (cs ++ ds) s

-- The loop of `readn`, with the bytes asked for at first and those still missing. Each round uses up
-- a call, or all that is missing; a stream that ends without `eof` is one that ends with it.
pub readn_loop : ℕ → ℕ → Stream → ReadResult
unfolding prepend
readn_loop size zero s = done size [] s
readn_loop size (suc missing) [] = done (size - suc missing) [] []
readn_loop size (suc missing) (eof ∷ s) = done (size - suc missing) [] s
readn_loop size (suc missing) (interrupted ∷ s) = readn_loop size (suc missing) s
readn_loop size (suc missing) (broken ∷ s) = failed [] s
readn_loop size (suc missing) (bytes c cs ∷ s) = elim (leb (suc missing) (length (piece c cs))) [
  | true ↦
      done size (take (suc missing) (piece c cs)) (push_back (drop (suc missing) (piece c cs)) s)
  | false ↦ prepend (piece c cs) (readn_loop size (suc missing - length (piece c cs)) s)
]

-- `length` is an `int`: the model is of one with 32 bits, and nothing is read if it is negative.
pub readn : ℕ → Stream → ReadResult
unfolding readn_loop
readn size s =
    let length = size % 2 ^ 32 in
    elim (ltb length (2 ^ 31)) [
      | true ↦ readn_loop size length s
      | false ↦ done ((size + 2 ^ 32 - length) % 2 ^ 64) [] s
    ]

-- `readline_2`: one byte at a time, each its own call. `room` is the `length` left, `count` the bytes
-- stored so far. The zero behind the line needs one byte more than the `length` that is counted.
readline_2_from : ℕ → ℕ → Stream → ReadResult
unfolding prepend
readline_2_from count zero s = failed [] s
readline_2_from count (suc room) (bytes c cs ∷ s) = elim (c == 10) [
  | true ↦ done (count + 1) (c ∷ []) (push_back cs s)
  | false ↦ prepend (c ∷ []) (readline_2_from (count + 1) room (push_back cs s))
]
readline_2_from count (suc room) (_ ∷ s) = failed [] s
readline_2_from count (suc room) [] = failed [] []

pub readline_2 : ℕ → Stream → ReadResult
unfolding readline_2_from
readline_2 room s = readline_2_from 0 room s

abbrev pub read_buffer_size : ℕ
read_buffer_size = 512

-- `readline`: `room` bytes may still be stored, and `chunk` is what is left of `read_buffer`. What is
-- left when the function returns is lost, since `nleft` is a local variable. An end of the stream
-- returns 0 whatever has been stored.
readline_from : ℕ → ℕ → Bytes → Stream → ReadResult
unfolding prepend
readline_from count zero chunk s = failed [] s
readline_from count (suc room) (c ∷ chunk) s = elim (c == 10) [
  | true ↦ done (count + 1) (c ∷ []) s
  | false ↦ prepend (c ∷ []) (readline_from (count + 1) room chunk s)
]
readline_from count (suc room) [] (bytes c cs ∷ s) = elim (c == 10) [
  | true ↦ done (count + 1) (c ∷ []) (push_back (drop (read_buffer_size - 1) cs) s)
  | false ↦ prepend (c ∷ []) (
      readline_from (count + 1) room (take (read_buffer_size - 1) cs)
        (push_back (drop (read_buffer_size - 1) cs) s))
]
readline_from count (suc room) [] (interrupted ∷ s) = readline_from count (suc room) [] s
readline_from count (suc room) [] (eof ∷ s) = done 0 [] s
readline_from count (suc room) [] (broken ∷ s) = failed [] s
readline_from count (suc room) [] [] = done 0 [] []

-- `--length > 0` on a `size_t`.
pub readline : ℕ → Stream → ReadResult
unfolding readline_from
readline length s = readline_from 0 ((length + 2 ^ 64 - 1) % 2 ^ 64) [] s

-- The stream after `recv` with `MSG_PEEK` and, if it showed a line feed, the `recv` that takes it.
skip_lf : Stream → Stream
skip_lf (bytes c cs ∷ s) = if c == 10 then push_back cs s else bytes c cs ∷ s
skip_lf (interrupted ∷ s) = s
skip_lf (broken ∷ s) = s
skip_lf (eof ∷ s) = eof ∷ s
skip_lf [] = []

-- `read_line`: a carriage return, with the line feed behind it if there is one, counts as a line feed.
read_line_from : ℕ → ℕ → Stream → ReadResult
unfolding prepend skip_lf
read_line_from count zero s = done count [] s
read_line_from count (suc room) (bytes c cs ∷ s) = elim (c == 13) [
  | true ↦ done (count + 1) (10 ∷ []) (skip_lf (push_back cs s))
  | false ↦ elim (c == 10) [
    | true ↦ done (count + 1) (10 ∷ []) (push_back cs s)
    | false ↦ prepend (c ∷ []) (read_line_from (count + 1) room (push_back cs s))
  ]
]
read_line_from count (suc room) (_ ∷ s) = done count [] s
read_line_from count (suc room) [] = done count [] []

-- The loop stores at `i < size - 1`.
pub read_line : ℕ → Stream → ReadResult
unfolding read_line_from
read_line size s = read_line_from 0 (size - 1) s

-- `ntohl` of four bytes in network order
unfoldable pub ntohl : Bytes → ℕ
ntohl (a ∷ b ∷ c ∷ d ∷ []) = ((a * 256 + b) * 256 + c) * 256 + d
ntohl _ = 0

-- `rc < 0 ? -1 : 0`, where `rc` is the `int` that a result is assigned to.
short_read : ReadResult → ReadResult
short_read (done n ds s) = done 0 ds s
short_read (failed ds s) = failed ds s

-- The record itself: its length has been compared with the buffer's.
read_record : ℕ → Stream → ReadResult
unfolding short_read
read_record size s = elim (readn size s) [
  | done n ds s' ↦ if n == size then done size ds s' else done 0 ds s'
  | failed ds s' ↦ failed ds s'
]

after_type : ℕ → ℕ → ReadResult → ReadResult
unfolding short_read read_record
after_type room size (failed ds s) = failed [] s
after_type room size (done n ds s) =
    if n == 4 then (if ltb room size then failed [] s else read_record size s) else done 0 [] s

after_length : ℕ → ReadResult → ReadResult
unfolding after_type
after_length room (failed ds s) = failed [] s
after_length room (done n ds s) =
    if n == 4 then after_type room (ntohl ds) (readn 4 s) else done 0 [] s

-- A message is its length, its type and its record, each of the first two in four bytes. The bytes
-- of the result are those stored in `buffer`.
pub read_message : ℕ → Stream → ReadResult
unfolding after_length
read_message room s = after_length room (readn 4 s)
