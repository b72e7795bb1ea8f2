-- ===== src/Read/Tests.antt =====
-- The theorem about `readn` at a stream in pieces, and runs of the line readers.
use yolanda.Read.Exact.{IsRead, readn-IsRead}
use yolanda.Read.{
  Stream, read_message, readline, readn, bytes, done, ntohl, eof, interrupted, readn_loop,
}
use yolanda.Prelude.{◌≡◌, ◌∷◌, refl, [], arith}

-- "ab", an interruption, "c\nd", the end.
abbrev sample : Stream
sample = bytes 97 (98 ∷ []) ∷ interrupted ∷ bytes 99 (10 ∷ 100 ∷ []) ∷ eof ∷ []

readn-IsRead_example : IsRead 4 sample (readn 4 sample)
readn-IsRead_example = readn-IsRead 4 sample (omega arith)

readn_run : readn 4 sample ≡ done 4 (97 ∷ 98 ∷ 99 ∷ 10 ∷ []) (bytes 100 [] ∷ eof ∷ [])
unfolding readn readn_loop
readn_run = refl

-- The byte behind the line is in `read_buffer` when `readline` returns, and is lost.
readline_run : readline 10 sample ≡ done 4 (97 ∷ 98 ∷ 99 ∷ 10 ∷ []) (eof ∷ [])
unfolding readline
readline_run = refl

read_message_run :
    read_message 10 (bytes 0 (0 ∷ 0 ∷ 2 ∷ []) ∷ bytes 0 (0 ∷ 0 ∷ 1 ∷ 7 ∷ 8 ∷ []) ∷ [])
    ≡ done 2 (7 ∷ 8 ∷ []) []
unfolding read_message readn ntohl
read_message_run = refl
