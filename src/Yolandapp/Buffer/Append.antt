-- ===== src/Yolandapp/Buffer/Append.antt =====
-- What the operations of the string buffer do to the queue of its readable bytes.
use yolanda.Prelude.Slices.{take-of_ge, drop-append_le, take-append_le}
use yolanda.Memory.{Bytes, memcpy}
use yolanda.Prelude.{
  ◌+◌, ◌-◌, ◌^◌, ◌≤◌, ◌<◌, ◌≡◌, ◌∙◌, refl, ap, ℕ, arith, length, take, drop, ◌*◌, ◌∷◌, ◌++◌, sym,
  inl, inr, some, le-cases, [], append-nil, length-append, replicate, length-replicate, length-take,
  length-drop,
}
use yolanda.Buffer.Append.{written, length-written, window-written, window-spliced}
use yolanda.Buffer.Slide.{move_down_lem}
use yolanda.Outcome.{ok, ◌>>=◌}
use yolanda.Yolandapp.Buffer.{
  StringBuffer, make_room, append_data, append_string, resize, insert, writeable, readable, spare,
  sub_size,
}

module _ (max_size : ℕ) where
  pub record IsSound (s : StringBuffer) : Type 0 where
    pub readable : s.read_index ≤ s.write_index
    pub writable : s.write_index ≤ length s.chars
    pub limit : length s.chars ≤ max_size

  abbrev pub held : StringBuffer → Bytes
  held s = take (s.write_index - s.read_index) (drop s.read_index s.chars)

  -- What `make_room s size` promises.
  pub record Prepared (s : StringBuffer) (size : ℕ) (s' : StringBuffer) : Type 0 where
    pub sound : IsSound s'
    pub bytes : held s' ≡ held s
    pub room : s'.write_index + size ≤ length s'.chars
    pub grows : (length s.chars ≤ length s'.chars) × (length s'.chars ≤ length s.chars + size)

  make_room-ample :
      (s : StringBuffer) (size : ℕ)
      → max_size < 2 ^ 63
      → IsSound s
      → s.write_index + size < length s.chars
      → (s' : StringBuffer) × (make_room max_size s size ≡ ok s') × Prepared s size s'
  unfolding make_room writeable
  make_room-ample s size small v h =
      (s, ground arith, record { sound = v; bytes = refl; room = omega arith; grows = omega arith })

  make_room-moved :
      (s : StringBuffer) (size : ℕ)
      → max_size < 2 ^ 63
      → IsSound s
      → length s.chars ≤ s.write_index + size
      → s.write_index + size ≤ s.read_index + length s.chars
      → (s' : StringBuffer) × (make_room max_size s size ≡ ok s') × Prepared s size s'
  unfolding make_room writeable readable spare
  make_room-moved s size small v h k =
      let n : sub_size s.write_index s.read_index ≡ s.write_index - s.read_index = omega arith in
      let (chars', run, len, moved) =
        move_down_lem (s.write_index - s.read_index) s.read_index s.chars (omega arith) in
      (
        record { chars = chars'; read_index = 0; write_index = s.write_index - s.read_index },
        ground (arith, run, n),
        record {
          sound = omega arith;
          bytes = ap (λ k. take k chars') {y = s.write_index - s.read_index} (omega arith) ∙ moved;
          room = omega arith;
          grows = omega arith;
        },
      )

  resize-longer :
      (string : Bytes) (size : ℕ)
      → length string + size ≤ max_size
      → resize max_size string (length string + size) ≡ ok (string ++ replicate size 0)
  unfolding resize
  resize-longer string size h =
      let n : length string + size - length string ≡ size = omega arith in
      ground (arith, n, take-of_ge (length string + size) string (omega arith))

  make_room-resized :
      (s : StringBuffer) (size : ℕ)
      → max_size < 2 ^ 63
      → IsSound s
      → s.read_index + length s.chars < s.write_index + size
      → length s.chars + size ≤ max_size
      → (s' : StringBuffer) × (make_room max_size s size ≡ ok s') × Prepared s size s'
  unfolding make_room writeable spare
  make_room-resized s size small v h k =
      let len : length (s.chars ++ replicate size 0) ≡ length s.chars + size =
        omega (arith, length-append s.chars (replicate size 0), length-replicate {A = ℕ} size 0) in
      (
        record s { chars = s.chars ++ replicate size 0 },
        ground (arith, resize-longer s.chars size k),
        record {
          sound = omega (arith, len);
          bytes =
              ap (take (s.write_index - s.read_index))
                (drop-append_le s.read_index s.chars _ (omega arith))
              ∙ take-append_le (s.write_index - s.read_index) (drop s.read_index s.chars) _
                  (omega (arith, length-drop s.read_index s.chars));
          room = omega (arith, len);
          grows = omega (arith, len);
        },
      )

  -- `make_room` on a sound buffer that may grow by `size`.
  make_room-Prepared :
      (s : StringBuffer) (size : ℕ)
      → max_size < 2 ^ 63
      → IsSound s
      → length s.chars + size ≤ max_size
      → (s' : StringBuffer) × (make_room max_size s size ≡ ok s') × Prepared s size s'
  make_room-Prepared s size small v k = elim (le-cases (length s.chars) (s.write_index + size)) [
    | inr ample ↦ make_room-ample s size small v ample
    | inl tight ↦ elim (le-cases (s.write_index + size) (s.read_index + length s.chars)) [
      | inl fits ↦ make_room-moved s size small v tight fits
      | inr full ↦ make_room-resized s size small v full k
    ]
  ]

  -- What an operation that appends `src` promises.
  pub record Extended (s : StringBuffer) (src : Bytes) (s' : StringBuffer) : Type 0 where
    pub sound : IsSound s'
    pub bytes : held s' ≡ held s ++ src

  -- On a sound buffer that may grow by the bytes, below a limit of 2^63, `append` of a block puts
  -- exactly these bytes behind the readable ones, leaves the buffer sound, and makes the string
  -- longer by the bytes at most.
  pub append_data-Extended :
      (s : StringBuffer) (src : Bytes)
      → max_size < 2 ^ 63
      → IsSound s
      → length s.chars + length src ≤ max_size
      → (s' : StringBuffer) × (append_data max_size s (some src) ≡ ok s')
        × Extended s src s'
        × (length s'.chars ≤ length s.chars + length src)
  unfolding append_data written
  append_data-Extended s src small v k =
      let (s₁, made, p) = make_room-Prepared s (length src) small v k in
      let len = length-written s₁.chars src s₁.write_index p.room in
      (
        record s₁ {
          chars = written s₁.chars s₁.write_index src;
          write_index = s₁.write_index + length src;
        },
        ap
              (λ m. m >>= λ s'. memcpy s'.chars s'.write_index src >>= λ chars'.
                ok (record s' { chars = chars'; write_index = s'.write_index + length src }))
              made
            ∙ ground (arith, p.room),
        record {
          sound = omega (arith, len, p.sound.readable, p.sound.limit, p.room);
          bytes =
              window-written s₁.chars src s₁.read_index s₁.write_index p.sound.readable p.room
              ∙ ap (λ xs. xs ++ src) p.bytes;
        },
        omega (arith, len, p.grows),
      )

  length-insert :
      (string more : Bytes) (at : ℕ)
      → at ≤ length string
      → length (take at string ++ (more ++ drop at string)) ≡ length string + length more
  length-insert string more at h = omega (
    arith,
    length-append (take at string) (more ++ drop at string),
    length-append more (drop at string),
    length-take at string,
    length-drop at string,
  )

  inserted :
      (s : StringBuffer) (src : Bytes)
      → s.write_index ≤ length s.chars
      → length s.chars + length src ≤ max_size
      → insert max_size s.chars s.write_index src
        ≡ ok (take s.write_index s.chars ++ (src ++ drop s.write_index s.chars))
  unfolding insert
  inserted s src h k = ground arith

  -- On a sound buffer that may grow by twice the bytes, below a limit of 2^63, `append` of a string
  -- puts exactly these bytes behind the readable ones and leaves the buffer sound; and it makes the
  -- string longer by the bytes at least, however much room there is, and by twice as much at most.
  pub append_string-Extended :
      (s : StringBuffer) (src : Bytes)
      → max_size < 2 ^ 63
      → IsSound s
      → length s.chars + 2 * length src ≤ max_size
      → (s' : StringBuffer) × (append_string max_size s src ≡ ok s')
        × Extended s src s'
        × (length s.chars + length src ≤ length s'.chars)
        × (length s'.chars ≤ length s.chars + 2 * length src)
  unfolding append_string
  append_string-Extended s [] small v k =
      (s, refl, record { sound = v; bytes = sym (append-nil (held s)) }, omega arith, omega arith)
  append_string-Extended s (c ∷ cs) small v k =
      let src = c ∷ cs in
      let (s₁, made, p) = make_room-Prepared s (length src) small v (omega arith) in
      let len = length-insert s₁.chars src s₁.write_index p.sound.writable in
      let grows = p.grows in
      (
        record s₁ {
          chars = take s₁.write_index s₁.chars ++ (src ++ drop s₁.write_index s₁.chars);
          write_index = s₁.write_index + length src;
        },
        ap
              (λ m. m >>= λ s'. insert max_size s'.chars s'.write_index src >>= λ chars'.
                ok (record s' { chars = chars'; write_index = s'.write_index + length src }))
              made
            ∙ ap
                (λ m. m >>= λ chars'.
                  ok (record s₁ { chars = chars'; write_index = s₁.write_index + length src }))
                (inserted s₁ src p.sound.writable (omega arith)),
        record {
          sound = omega (arith, len, p.sound.readable, p.sound.writable);
          bytes =
              window-spliced s₁.chars src (drop s₁.write_index s₁.chars) s₁.read_index
                s₁.write_index p.sound.readable p.sound.writable
              ∙ ap (λ xs. xs ++ src) p.bytes;
        },
        omega (arith, len),
        omega (arith, len),
      )
