-- ===== src/Http/Parser/Headers.antt =====
-- The headers of a request are parsed line by line.
use yolanda.Outcome.{Outcome, ok, ◌>>=◌}
use yolanda.Memory.{Bytes}
use yolanda.Buffer.{Buffer, buffer_find_crlf, cr, lf, find_crlf}
use yolanda.Buffer.Contents.{IsValid, contents, length-contents}
use yolanda.Buffer.Search.{buffer_find_crlf-contents}
use yolanda.Http.Text.{find_byte, find_pair, strncpy_bytes, length-strncpy_bytes}
use yolanda.Http.Request.{
  HttpRequest, RequestHeader, http_request_add_header, request_headers, request_done, header_room,
}
use yolanda.Http.Parser.{
  advance, colon, space, copy_string, in_state, line_to, parse_header, parse_headers,
  parse_http_request, parse_round,
}
use yolanda.Http.Parser.Lines.{
  AreHeaders, header_text, find_byte-append_none, find_crlf-line, find_pair-key, drop-pair,
}
use yolanda.Prelude.Slices.{take-append_length, take-take, take-set_later, window-advance}
use yolanda.Prelude.{
  ◌+◌, ◌-◌, ◌<◌, ◌≤◌, ◌≡◌, ◌∙◌, ◌∷◌, ◌++◌, refl, sym, ap, ap₂, none, some, ℕ, List, arith, suc,
  length, get_elem?, [], drop, take, length-append, length-drop, set, get_elem?-set_self,
  append_assoc, append-nil,
}

-- Where the readable bytes begin with a line: it is found, and behind it is the rest.
pub record AtLine (b : Buffer) (line rest : Bytes) : Type 0 where
  pub found : buffer_find_crlf b ≡ ok (some (length line))
  pub before : line_to b (length line) ≡ line
  pub valid : IsValid (advance b (length line + 2))
  pub behind : contents (advance b (length line + 2)) ≡ rest

pub buffer_find_crlf-AtLine :
    (b : Buffer) (line rest : Bytes)
    → IsValid b
    → find_byte cr line ≡ none
    → contents b ≡ line ++ cr ∷ lf ∷ rest
    → AtLine b line rest
buffer_find_crlf-AtLine b line rest v h e =
    let len = length-contents b v in
    let fits : length line + 2 ≤ b.write_index - b.read_index =
      omega (arith, len, ap length e, length-append line (cr ∷ lf ∷ rest)) in
    record {
      found = buffer_find_crlf-contents b v ∙ ap ok (ap find_crlf e ∙ find_crlf-line line rest h);
      before =
          sym (
            take-take (length line) (b.write_index - b.read_index) (drop b.read_index b.bytes)
              (omega (arith, fits)))
          ∙ ap (take (length line)) e
          ∙ take-append_length (length line) line (cr ∷ lf ∷ rest) refl;
      valid = record {
        block = v.block;
        readable = omega (arith, fits, v.readable);
        writable = v.writable;
        in_int = v.in_int;
      };
      behind =
          window-advance b.read_index b.write_index (length line + 2) b.bytes (omega (arith, fits))
          ∙ ap (drop (length line + 2)) e
          ∙ drop-pair line cr lf rest;
    }

-- The block of a key or a value: its bytes, and a zero behind them.
pub record IsString (src block : Bytes) : Type 0 where
  pub bytes : take (length src) block ≡ strncpy_bytes src
  pub ended : get_elem? block (length src) ≡ some 0

-- The headers that are stored are copies of those that were sent.
abbrev pub AreCopies : List (Bytes × Bytes) → List RequestHeader → Type 0
AreCopies [] [] = Unit
AreCopies [] (stored ∷ rest) = ⊥
AreCopies ((key, value) ∷ hs) [] = ⊥
AreCopies ((key, value) ∷ hs) (stored ∷ rest) =
    IsString key stored.key × IsString value stored.value × AreCopies hs rest

module _ (malloc : ℕ → Bytes) (room : (n : ℕ) → n < length (malloc n)) where
  copy_string-IsString :
      (src : Bytes)
      → (block : Bytes) × (copy_string malloc src (length src) ≡ ok block) × IsString src block
  unfolding copy_string
  copy_string-IsString src =
      let text = strncpy_bytes src in
      let rest = drop (length text) (malloc (length src + 1)) in
      let n = length-strncpy_bytes src in
      let k = length-append text rest in
      let d = length-drop (length text) (malloc (length src + 1)) in
      let more = room (length src + 1) in
      (
        set (text ++ rest) (length src) 0,
        ground (arith, n, k, d, more),
        record {
          bytes =
              take-set_later (length src) (length src) (text ++ rest) 0 (omega arith)
              ∙ take-append_length (length src) text rest n;
          ended = get_elem?-set_self (text ++ rest) (length src) 0 (omega (arith, n, k, d, more));
        },
      )

  header_round :
      (b : Buffer) (r : HttpRequest) (key value rest k v : Bytes)
      → AtLine b (key ++ colon ∷ space ∷ value) rest
      → find_byte colon key ≡ none
      → copy_string malloc key (length key) ≡ ok k
      → copy_string malloc value (length value) ≡ ok v
      → length r.headers < header_room
      → parse_round malloc b r request_headers
        ≡ ok (
          advance b (length (key ++ colon ∷ space ∷ value) + 2),
          record r { headers = r.headers ++ record { key = k; value = v } ∷ [] },
        )
  unfolding parse_round parse_headers parse_header http_request_add_header
  header_round b r key value rest k v at plain ek ev few =
      let line = key ++ colon ∷ space ∷ value in
      let cut = take-append_length (length key) key (colon ∷ space ∷ value) refl in
      let tail = drop-pair key colon space value in
      let size : length line - length key - 2 ≡ length value =
        omega (arith, length-append key (colon ∷ space ∷ value)) in
      let next : Bytes → Bytes → Outcome (Buffer × HttpRequest) =
        λ k' v'. http_request_add_header r k' v' >>= λ r'. ok (advance b (length line + 2), r') in
      let stored : next k v
          ≡ ok (
            advance b (length line + 2),
            record r { headers = r.headers ++ record { key = k; value = v } ∷ [] },
          ) =
        ground (arith, few) in
      let pair = find_pair-key colon space key value plain in
      ap (λ o. o >>= λ crlf. parse_headers malloc crlf b r) at.found
      ∙ ap (λ l. parse_header malloc (find_pair colon space l) l b r) at.before
      ∙ ap (λ o. parse_header malloc o line b r) pair
      ∙ ap
          (λ z. copy_string malloc z (length key) >>= λ k'.
            copy_string malloc (drop (length key + 2) line) (length line - length key - 2)
            >>= next k')
          cut
      ∙ ap
          (λ o. o >>= λ k'.
            copy_string malloc (drop (length key + 2) line) (length line - length key - 2)
            >>= next k')
          ek
      ∙ ap₂ (λ z n. copy_string malloc z n >>= next k) tail size
      ∙ ap (λ o. o >>= next k) ev
      ∙ stored

  last_round :
      (b : Buffer) (r : HttpRequest) (rest : Bytes)
      → AtLine b [] rest
      → parse_round malloc b r request_headers ≡ ok (advance b 2, in_state r request_done)
  unfolding parse_round parse_headers parse_header find_pair
  last_round b r rest at =
      ap (λ o. o >>= λ crlf. parse_headers malloc crlf b r) at.found
      ∙ ap (λ l. parse_header malloc (find_pair colon space l) l b r) at.before

  pub headers-parsed :
      (hs : List (Bytes × Bytes)) (b : Buffer) (r : HttpRequest) (tail : Bytes)
      → AreHeaders hs
      → IsValid b
      → length r.headers + length hs ≤ header_room
      → contents b ≡ header_text hs ++ cr ∷ lf ∷ tail
      → (b' : Buffer) × (stored : List RequestHeader) × (parse_http_request malloc
            (suc (suc (length hs)))
            b
            (record r { current_state = request_headers })
          ≡ ok (
              some
                (1, b', record r { current_state = request_done; headers = r.headers ++ stored })))
        × AreCopies hs stored
        × IsValid b'
        × (contents b' ≡ tail)
  unfolding parse_http_request parse_round parse_headers parse_header header_text find_byte
      find_pair
  headers-parsed [] b r tail h v few e =
      let at = buffer_find_crlf-AtLine b [] tail v refl e in
      (
        advance b 2,
        [],
        ap (λ o. o >>= λ z. parse_http_request malloc 1 z.0 z.1)
              (last_round b (record r { current_state = request_headers }) tail at)
            ∙ ap
                (λ xs.
                  ok (
                    some (1, advance b 2, record r { current_state = request_done; headers = xs })))
                (sym (append-nil r.headers)),
        tt,
        at.valid,
        at.behind,
      )
  headers-parsed ((key, value) ∷ hs) b r tail (nk, nv, nc, h) v few e =
      let line = key ++ colon ∷ space ∷ value in
      let rest = header_text hs ++ cr ∷ lf ∷ tail in
      let plain = find_byte-append_none cr key (colon ∷ space ∷ value) nk (ground (arith, nv)) in
      let e' = e ∙ append_assoc line (cr ∷ lf ∷ header_text hs) (cr ∷ lf ∷ tail) in
      let at = buffer_find_crlf-AtLine b line rest v plain e' in
      let (kb, ek, ik) = copy_string-IsString key in
      let (vb, ev, iv) = copy_string-IsString value in
      let header : RequestHeader = record { key = kb; value = vb } in
      let (b', stored, run, copies, v', left) =
        headers-parsed hs (advance b (length line + 2))
          (record r { headers = r.headers ++ header ∷ [] }) tail h at.valid
          (omega (arith, few, length-append r.headers (header ∷ []))) at.behind in
      (
        b',
        header ∷ stored,
        ap (λ o. o >>= λ z. parse_http_request malloc (suc (suc (length hs))) z.0 z.1)
              (header_round b (record r { current_state = request_headers }) key value rest kb vb at
                nc ek ev (omega (arith, few)))
            ∙ run
            ∙ ap (λ xs. ok (some (1, b', record r { current_state = request_done; headers = xs })))
                (append_assoc r.headers (header ∷ []) stored),
        (ik, iv, copies),
        v',
        left,
      )
