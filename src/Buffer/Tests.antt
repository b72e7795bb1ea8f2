-- ===== src/Buffer/Tests.antt =====
-- The theorems about the buffer at small buffers, and runs of its functions.
use yolanda.Buffer.View.{view, run_blocks-view}
use yolanda.Yolandapp.Buffer.Port.{
  Act, queue, take_char, volume, append_block, run_blocks, append_text,
}
use mathlib.Core.Quot
use yolanda.Buffer.Receive.{filled, buffer_socket_read-Appended}
use yolanda.Prelude.Int.{pos}
use yolanda.Buffer.Search.{Found, buffer_find_crlf-Found}
use yolanda.Buffer.Append.{
  Appended, Roomy, CanHold, buffer_append-Appended, make_room-Roomy, fits, grows,
}
use yolanda.Outcome.{ok}
use yolanda.Memory.Zeroed.{zeroed_laws}
use yolanda.Memory.{realloc_null, realloc_zeroed}
use yolanda.Buffer.Contents.{IsValid, contents}
use yolanda.Buffer.{
  Buffer, buffer_append, buffer_find_crlf, buffer_socket_read, find_crlf, make_room,
}
use yolanda.Prelude.{◌≡◌, ◌∷◌, refl, some, ℕ, Option, arith, [], List}

-- Eight bytes, of which the readable ones are 3, 4, 5.
abbrev sample : Buffer
sample = record {
  bytes = 1 ∷ 2 ∷ 3 ∷ 4 ∷ 5 ∷ 6 ∷ 7 ∷ 8 ∷ [];
  read_index = 2;
  write_index = 5;
  total_size = 8;
}

sample-IsValid : IsValid sample
sample-IsValid = omega arith

-- A line "A", its end, and the beginning of the next line.
abbrev line : Buffer
line = record { bytes = 65 ∷ 13 ∷ 10 ∷ 66 ∷ []; read_index = 0; write_index = 4; total_size = 4 }

line-IsValid : IsValid line
line-IsValid = omega arith

-- The readable bytes are moved to the front before the new ones are written.
append_slides :
    buffer_append realloc_null sample (some (9 ∷ 9 ∷ 9 ∷ 9 ∷ []))
    ≡ ok (record {
      bytes = 3 ∷ 4 ∷ 5 ∷ 9 ∷ 9 ∷ 9 ∷ 9 ∷ 8 ∷ [];
      read_index = 0;
      write_index = 7;
      total_size = 8;
    })
unfolding buffer_append make_room
append_slides = refl

make_room-Roomy_example :
    (b' : Buffer) × (make_room realloc_zeroed sample 6 ≡ ok b') × Roomy realloc_zeroed sample 6 b'
make_room-Roomy_example =
    make_room-Roomy realloc_zeroed sample 6 zeroed_laws sample-IsValid
      (grows (1 ∷ 2 ∷ 3 ∷ 4 ∷ 5 ∷ 6 ∷ 7 ∷ 8 ∷ 0 ∷ 0 ∷ 0 ∷ 0 ∷ 0 ∷ 0 ∷ []) refl (omega arith))

buffer_append-Appended_example :
    (b' : Buffer) × (buffer_append realloc_zeroed sample (some (9 ∷ 9 ∷ 9 ∷ 9 ∷ [])) ≡ ok b')
    × Appended sample (9 ∷ 9 ∷ 9 ∷ 9 ∷ []) b'
buffer_append-Appended_example =
    buffer_append-Appended realloc_zeroed sample (9 ∷ 9 ∷ 9 ∷ 9 ∷ []) zeroed_laws sample-IsValid
      (fits (omega arith))

buffer_socket_read-Appended_example :
    (b' : Buffer) × (buffer_socket_read realloc_zeroed sample (some (9 ∷ 8 ∷ 7 ∷ 6 ∷ []))
      ≡ ok (pos 4, b'))
    × Appended sample (9 ∷ 8 ∷ 7 ∷ 6 ∷ []) b'
buffer_socket_read-Appended_example =
    buffer_socket_read-Appended realloc_zeroed sample (9 ∷ 8 ∷ 7 ∷ 6 ∷ []) zeroed_laws
      sample-IsValid (λ _. rest)
  where
    rest : CanHold realloc_zeroed (filled sample (9 ∷ 8 ∷ 7 ∷ 6 ∷ [])) 1
    rest = fits (unfold filled in omega arith)

buffer_find_crlf-Found_example :
    (answer : Option ℕ) × (buffer_find_crlf line ≡ ok answer) × Found (contents line) answer
buffer_find_crlf-Found_example = buffer_find_crlf-Found line line-IsValid

find_line_end : buffer_find_crlf line ≡ ok (some 1)
unfolding buffer_find_crlf find_crlf
find_line_end = refl

-- The bytes 1 and 2 at the end of a block, and at the start of a larger one.
abbrev at_end : Buffer
at_end = record { bytes = 9 ∷ 1 ∷ 2 ∷ []; read_index = 1; write_index = 3; total_size = 3 }

abbrev at_start : Buffer
at_start = record { bytes = 1 ∷ 2 ∷ 7 ∷ 7 ∷ []; read_index = 0; write_index = 2; total_size = 4 }

at_end-IsValid : IsValid at_end
at_end-IsValid = record {
  block = refl;
  readable = omega arith;
  writable = omega arith;
  in_int = omega arith;
}

at_start-IsValid : IsValid at_start
at_start-IsValid = record {
  block = refl;
  readable = omega arith;
  writable = omega arith;
  in_int = omega arith;
}

abbrev acts : List Act
acts = take_char ∷ append_block (3 ∷ 4 ∷ []) ∷ append_text (5 ∷ []) ∷ take_char ∷ []

run_blocks-view_example :
    (b' c' : Buffer) × (run_blocks realloc_zeroed acts at_end ≡ ok (1 ∷ 2 ∷ [], b'))
    × (run_blocks realloc_zeroed acts at_start ≡ ok (1 ∷ 2 ∷ [], c'))
    × (view b' ≡ view c')
unfolding queue volume
run_blocks-view_example =
    run_blocks-view realloc_zeroed acts at_end at_start zeroed_laws (λ block n h. (_, refl))
      at_end-IsValid at_start-IsValid (Quot.sound refl) refl (omega arith) (omega arith)
