-- ===== src/Yolandapp/Tests.antt =====
-- The theorems on the port at small inputs.
use yolanda.Http.Parser.Lines.{header_text, request_text}
use yolanda.Http.Request.{request_done}
use yolanda.Memory.Zeroed.{zeroed_laws}
use yolanda.Memory.{realloc_zeroed}
use yolanda.Outcome.{ok}
use yolanda.EventLoop.Registry.{channel_at}
use yolanda.Prelude.Int.{pos}
use yolanda.Dispatcher.{Dispatcher}
use yolanda.Channel.{channel_new, connection}
use yolanda.Buffer.{Buffer}
use yolanda.Prelude.{
  ◌+◌, ◌-◌, ◌≡◌, ◌∷◌, refl, none, some, true, false, ℕ, List, Bool, arith, zero, suc, [], drop,
}
use yolanda.EventLoop.{
  EventLoop, event_loop_do_channel_event, event_loop_channel_buffer_nolock, is_in_same_thread,
  event_loop_handle_pending_channel, handle_elements, handle_element,
  event_loop_handle_pending_remove, handle_remove_at,
}
use yolanda.Buffer.Contents.{IsValid, contents}
use yolanda.Yolandapp.EventLoop.{PortLoop, do_channel_event, set_key}
use yolanda.Yolandapp.EventLoop.Port.{Alike, port}
use yolanda.Yolandapp.EventLoop.Sameness.{do_channel_event-same}
use yolanda.Yolandapp.Http.{parse_http_request, request_new}
use yolanda.Yolandapp.Http.Parsing.{first_value}
use yolanda.Yolandapp.Http.Whole.{parse_http_request-whole}
use yolanda.Http.Text.{find_byte}
use yolanda.Yolandapp.Buffer.{StringBuffer}
use yolanda.Yolandapp.Buffer.Append.{IsSound, held}
use yolanda.Yolandapp.Buffer.Port.{
  Act, append_block, append_text, take_char, run_blocks, run_strings, run_blocks-run_strings, queue,
  volume,
}

abbrev acts : List Act
acts = take_char ∷ append_block (3 ∷ 4 ∷ []) ∷ append_text (5 ∷ []) ∷ take_char ∷ []

abbrev block : Buffer
block = record { bytes = 9 ∷ 1 ∷ 2 ∷ []; read_index = 1; write_index = 3; total_size = 3 }

abbrev string : StringBuffer
string = record { chars = 1 ∷ 2 ∷ 8 ∷ 8 ∷ []; read_index = 0; write_index = 2 }

block-IsValid : IsValid block
block-IsValid = record {
  block = refl;
  readable = omega arith;
  writable = omega arith;
  in_int = omega arith;
}

string-IsSound : IsSound 100 string
string-IsSound = record { readable = omega arith; writable = omega arith; limit = omega arith }

run_blocks-run_strings_example :
    (b' : Buffer) × (s' : StringBuffer) × (run_blocks realloc_zeroed acts block
      ≡ ok (1 ∷ 2 ∷ [], b'))
    × (run_strings 100 acts string ≡ ok (1 ∷ 2 ∷ [], s'))
    × (contents b' ≡ 3 ∷ 4 ∷ 5 ∷ [])
    × (held 100 s' ≡ 3 ∷ 4 ∷ 5 ∷ [])
unfolding queue volume
run_blocks-run_strings_example =
    run_blocks-run_strings realloc_zeroed 100 acts block string zeroed_laws (λ block n h. (_, refl))
      (omega arith) block-IsValid string-IsSound refl refl (omega arith) (omega arith)

abbrev counting : Dispatcher ℕ
counting = record { add = λ c s. ok (s + 1); del = λ c s. ok (pos 0, s - 1); update = λ c s. ok s }

abbrev room : ℕ → Bool
room size = true

-- Descriptor 1 has the channel 4.
abbrev loop : EventLoop ℕ
loop = record {
  quit = false;
  dispatcher = 1;
  map = record { entries = none ∷ some 4 ∷ []; nentries = 2 };
  is_handle_pending = false;
  pending = [];
  owner_thread = 7;
  wakeups = 0;
  channels = λ p. channel_new (pos 1) 2 none none (connection 0);
}

abbrev ported_loop : PortLoop ℕ
ported_loop = port loop (set_key (λ fd. none) (pos 1) (some 4))

loop-Alike : Alike loop ported_loop
unfolding channel_new
loop-Alike = record {
  same = refl;
  table = record { counted = refl };
  low = λ p. omega arith;
  entries = same;
}
  where
    same : (fd : ℕ) → ported_loop.channel_map (pos fd) ≡ channel_at loop.map fd
    same zero = refl
    same (suc zero) = refl
    same (suc (suc fd)) = ground arith

do_channel_event-same_example :
    (m' : PortLoop ℕ) × (do_channel_event counting 7 true ported_loop 4 2 ≡ ok m')
    × Alike
        (record loop { dispatcher = 0; map = record { entries = none ∷ none ∷ []; nentries = 2 } })
        m'
unfolding channel_new event_loop_do_channel_event event_loop_channel_buffer_nolock is_in_same_thread
    event_loop_handle_pending_channel handle_elements handle_element
    event_loop_handle_pending_remove handle_remove_at
do_channel_event-same_example =
    do_channel_event-same counting room (λ size. refl) 7 true loop ported_loop 4 2 loop-Alike refl

-- "G / H\r\nA: 1\r\n\r\n" behind a byte that has been read, and a byte of the next request.
abbrev arrived : StringBuffer
arrived = record {
  chars = 0 ∷ request_text (71 ∷ []) (47 ∷ []) (72 ∷ []) ((65 ∷ [], 49 ∷ []) ∷ []) (71 ∷ []);
  read_index = 1;
  write_index = 18;
}

parse_http_request-whole_example :
    (s' : StringBuffer) × (parse_http_request 4 arrived request_new
      ≡ ok (
          some (
            1,
            s',
            record {
              version = 72 ∷ [];
              method = 71 ∷ [];
              url = 47 ∷ [];
              cur_state = request_done;
              headers = first_value ((65 ∷ [], 49 ∷ []) ∷ []);
            },
          )))
    × (drop s'.read_index s'.chars ≡ 71 ∷ [])
unfolding find_byte header_text
parse_http_request-whole_example =
    parse_http_request-whole arrived (71 ∷ []) (47 ∷ []) (72 ∷ []) ((65 ∷ [], 49 ∷ []) ∷ [])
      (71 ∷ []) refl refl refl refl refl (refl, refl, refl, tt) (omega arith) refl
