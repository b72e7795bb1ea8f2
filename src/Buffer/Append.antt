-- ===== src/Buffer/Append.antt =====
-- Making room and writing: the queue of bytes grows at its end, and nothing else changes.
use yolanda.Buffer.Slide.{move_down_lem}
use yolanda.Prelude.{
  ℕ, ◌+◌, ◌-◌, ◌≤◌, ◌≡◌, refl, ap, ◌∙◌, ◌++◌, arith, length, take, drop, length-append, length-take,
  length-drop, some, le-cases, sym, ◌<◌, inl, inr, none, ◌∷◌, [],
}
use yolanda.Prelude.Slices.{
  drop-append_le, take-append_length, take-append_ge, drop-take, take-append-drop, take-append_le,
  set-eq,
}
use yolanda.Outcome.{ok, int_max, fault, ◌>>=◌, int_overflow, out_of_bounds, Outcome}
use yolanda.Memory.{Bytes, Realloc, ReallocLaws, store}
use yolanda.Buffer.{Buffer, write_bytes, make_room, buffer_append, buffer_append_char}
use yolanda.Buffer.Contents.{IsValid, contents, sizes}

-- Writing `src` at the write index of a buffer that has the room.
unfoldable pub written : Bytes → ℕ → Bytes → Bytes
written block w src = take w block ++ (src ++ drop (w + length src) block)

pub length-written :
    (block src : Bytes) (w : ℕ)
    → w + length src ≤ length block
    → length (written block w src) ≡ length block
unfolding written
length-written block src w h = omega (
  arith,
  length-append (take w block) (src ++ drop (w + length src) block),
  length-append src (drop (w + length src) block),
  length-take w block,
  length-drop (w + length src) block,
)

-- Whatever follows `src`, it stands behind the window of the bytes from r to w.
pub window-spliced :
    (block src tail : Bytes) (r w : ℕ)
    → r ≤ w
    → w ≤ length block
    → take (w + length src - r) (drop r (take w block ++ (src ++ tail)))
      ≡ take (w - r) (drop r block) ++ src
window-spliced block src tail r w hr hw =
    ap (take (w + length src - r)) (drop-append_le r (take w block) _ (omega (arith, len)))
    ∙ ap (λ xs. take (w + length src - r) (xs ++ (src ++ tail))) (drop-take r w block hr)
    ∙ take-append_ge (w + length src - r) old _ (omega (arith, len_old))
    ∙ ap (◌++◌ old)
        (take-append_length (w + length src - r - length old) src _ (omega (arith, len_old)))
  where
    old : Bytes
    old = take (w - r) (drop r block)

    len : length (take w block) ≡ w
    len = omega (arith, length-take w block)

    len_old : length old ≡ w - r
    len_old = omega (arith, length-take (w - r) (drop r block), length-drop r block)

pub window-written :
    (block src : Bytes) (r w : ℕ)
    → r ≤ w
    → w + length src ≤ length block
    → take (w + length src - r) (drop r (written block w src)) ≡ take (w - r) (drop r block) ++ src
unfolding written
window-written block src r w hr hw =
    window-spliced block src (drop (w + length src) block) r w hr (omega arith)

-- What an operation that appends `src` promises of the buffer that it leaves.
pub record Appended (b : Buffer) (src : Bytes) (b' : Buffer) : Type 0 where
  pub valid : IsValid b'
  pub bytes : contents b' ≡ contents b ++ src

module _ (realloc : Realloc) where
  pub write_bytes-Appended :
      (b : Buffer) (src : Bytes)
      → IsValid b
      → b.write_index + length src ≤ b.total_size
      → (b' : Buffer) × (write_bytes realloc b src ≡ ok b')
        × Appended b src b'
        × (b'.total_size ≡ b.total_size)
  unfolding write_bytes written
  write_bytes-Appended b src v h = (
    record b {
      bytes = written b.bytes b.write_index src;
      write_index = b.write_index + length src;
    },
    ground arith,
    record {
      valid = omega (arith, length-written b.bytes src b.write_index);
      bytes =
          window-written b.bytes src b.read_index b.write_index v.readable (omega (arith, v.block));
    },
    refl,
  )

  -- What `make_room b size` promises.
  pub record Roomy (b : Buffer) (size : ℕ) (b' : Buffer) : Type 0 where
    pub valid : IsValid b'
    pub bytes : contents b' ≡ contents b
    pub room : b'.write_index + size ≤ b'.total_size
    pub grows : (b.total_size ≤ b'.total_size) × (b'.total_size ≤ b.total_size + size)

  -- `size` more bytes fit after the readable ones, or the allocator has a block that is as much
  -- larger, of a size that an `int` can hold.
  pub data CanHold (b : Buffer) (size : ℕ) : Type 0 where
    fits : size + b.write_index ≤ b.read_index + b.total_size → CanHold b size
    grows :
        (new : Bytes)
        → realloc b.bytes (b.total_size + size) ≡ some new
        → b.total_size + size ≤ int_max
        → CanHold b size

  make_room-stay :
      (b : Buffer) (size : ℕ)
      → IsValid b
      → size + b.write_index ≤ b.total_size
      → (b' : Buffer) × (make_room realloc b size ≡ ok b') × Roomy b size b'
  unfolding make_room
  make_room-stay b size v h =
      (b, ground arith, record { valid = v; bytes = refl; room = omega arith; grows = omega arith })

  make_room-slide :
      (b : Buffer) (size : ℕ)
      → IsValid b
      → b.total_size < size + b.write_index
      → size + b.write_index ≤ b.read_index + b.total_size
      → (b' : Buffer) × (make_room realloc b size ≡ ok b') × Roomy b size b'
  unfolding make_room
  make_room-slide b size v h k =
      let (bytes', run, len, moved) =
        move_down_lem (b.write_index - b.read_index) b.read_index b.bytes (omega arith) in
      (
        record b { bytes = bytes'; read_index = 0; write_index = b.write_index - b.read_index },
        ground (arith, sizes b v),
        record {
          valid = omega arith;
          bytes = ap (λ k. take k bytes') {y = b.write_index - b.read_index} (omega arith) ∙ moved;
          room = omega arith;
          grows = omega arith;
        },
      )

  make_room-grow :
      (b : Buffer) (size : ℕ) (new : Bytes)
      → ReallocLaws realloc
      → IsValid b
      → b.read_index + b.total_size < size + b.write_index
      → realloc b.bytes (b.total_size + size) ≡ some new
      → b.total_size + size ≤ int_max
      → (b' : Buffer) × (make_room realloc b size ≡ ok b') × Roomy b size b'
  unfolding make_room
  make_room-grow b size new laws v h e k = (
    record b { bytes = new; total_size = b.total_size + size },
    ground arith,
    record {
      valid = omega (arith, laws.size b.bytes (b.total_size + size) new e);
      bytes = same;
      room = omega arith;
      grows = omega arith;
    },
  )
    where
      kept : take (length b.bytes) new ≡ b.bytes
      kept = laws.keeps b.bytes (b.total_size + size) new (omega (arith, v.block)) e

      same :
          take (b.write_index - b.read_index) (drop b.read_index new)
          ≡ take (b.write_index - b.read_index) (drop b.read_index b.bytes)
      same =
          ap (λ xs. take (b.write_index - b.read_index) (drop b.read_index xs))
            (sym (take-append-drop (length b.bytes) new)
              ∙ ap (λ xs. xs ++ drop (length b.bytes) new) kept)
          ∙ ap (take (b.write_index - b.read_index))
              (drop-append_le b.read_index b.bytes _ (omega arith))
          ∙ take-append_le (b.write_index - b.read_index) (drop b.read_index b.bytes) _
              (omega (arith, length-drop b.read_index b.bytes))

  -- `make_room` on a valid buffer that can hold `size` more bytes leaves the same bytes in it, with
  -- `size` free bytes behind them; the block grows by `size` at most and never shrinks.
  pub make_room-Roomy :
      (b : Buffer) (size : ℕ)
      → ReallocLaws realloc
      → IsValid b
      → CanHold b size
      → (b' : Buffer) × (make_room realloc b size ≡ ok b') × Roomy b size b'
  make_room-Roomy b size laws v can = elim (le-cases (size + b.write_index) b.total_size) [
    | inl room ↦ make_room-stay b size v room
    | inr less ↦ elim (le-cases (size + b.write_index) (b.read_index + b.total_size)) [
      | inl k ↦ make_room-slide b size v less k
      | inr k ↦ grown k can
    ]
  ]
    where
      grown :
          b.read_index + b.total_size < size + b.write_index
          → CanHold b size
          → (b' : Buffer) × (make_room realloc b size ≡ ok b') × Roomy b size b'
      grown k (fits h) = absurd (omega arith)
      grown k (grows new e h) = make_room-grow b size new laws v k e h

  pub buffer_append-bounded :
      (b : Buffer) (src : Bytes)
      → ReallocLaws realloc
      → IsValid b
      → CanHold b (length src)
      → (b' : Buffer) × (buffer_append realloc b (some src) ≡ ok b')
        × Appended b src b'
        × (b'.total_size ≤ b.total_size + length src)
  unfolding buffer_append
  buffer_append-bounded b src laws v can =
      let (b₁, made, roomy) = make_room-Roomy b (length src) laws v can in
      let (b₂, wrote, a, size) = write_bytes-Appended b₁ src roomy.valid roomy.room in
      let grows = roomy.grows in
      (
        b₂,
        ap (λ m. m >>= λ b'. write_bytes realloc b' src) made ∙ wrote,
        record { valid = a.valid; bytes = a.bytes ∙ ap (λ xs. xs ++ src) roomy.bytes },
        omega arith,
      )

  -- Appending to a valid buffer that can hold the bytes succeeds, leaves a valid buffer, and puts
  -- exactly those bytes behind the ones that were there.
  pub buffer_append-Appended :
      (b : Buffer) (src : Bytes)
      → ReallocLaws realloc
      → IsValid b
      → CanHold b (length src)
      → (b' : Buffer) × (buffer_append realloc b (some src) ≡ ok b') × Appended b src b'
  buffer_append-Appended b src laws v can =
      let (b', run, a, bound) = buffer_append-bounded b src laws v can in (b', run, a)

  pub buffer_append_char-bounded :
      (b : Buffer) (c : ℕ)
      → ReallocLaws realloc
      → IsValid b
      → CanHold b 1
      → (b' : Buffer) × (buffer_append_char realloc b c ≡ ok b')
        × Appended b (c ∷ []) b'
        × (b'.total_size ≤ b.total_size + 1)
  unfolding buffer_append_char write_bytes
  buffer_append_char-bounded b c laws v can =
      let (b₁, made, roomy) = make_room-Roomy b 1 laws v can in
      let (b₂, wrote, a, size) = write_bytes-Appended b₁ (c ∷ []) roomy.valid roomy.room in
      (
        b₂,
        ap (λ m. m >>= λ b'. write_char b' c) made ∙ write_char-eq b₁ c roomy ∙ wrote,
        record { valid = a.valid; bytes = a.bytes ∙ ap (λ xs. xs ++ c ∷ []) roomy.bytes },
        omega (arith, roomy.grows),
      )
    where
      write_char : Buffer → ℕ → Outcome Buffer
      write_char b' c' = do
        bytes' ← store b'.bytes b'.write_index c'
        ok (record b' { bytes = bytes'; write_index = b'.write_index + 1 })

      write_char-eq :
          (b₁ : Buffer) (c : ℕ) → Roomy b 1 b₁ → write_char b₁ c ≡ write_bytes realloc b₁ (c ∷ [])
      write_char-eq b₁ c r = ground (arith, r.valid, r.room, set-eq b₁.write_index b₁.bytes c)

  -- The same for a single character.
  pub buffer_append_char-Appended :
      (b : Buffer) (c : ℕ)
      → ReallocLaws realloc
      → IsValid b
      → CanHold b 1
      → (b' : Buffer) × (buffer_append_char realloc b c ≡ ok b') × Appended b (c ∷ []) b'
  buffer_append_char-Appended b c laws v can =
      let (b', run, a, bound) = buffer_append_char-bounded b c laws v can in (b', run, a)

  -- If the bytes do not fit behind a valid buffer's readable ones, an `int` can hold the larger
  -- size, and the allocator has no block of it, `make_room` returns without room and `memcpy`
  -- writes outside of the block.
  pub buffer_append_unmade :
      (b : Buffer) (src : Bytes)
      → IsValid b
      → b.read_index + b.total_size < length src + b.write_index
      → b.total_size + length src ≤ int_max
      → realloc b.bytes (b.total_size + length src) ≡ none
      → buffer_append realloc b (some src) ≡ fault out_of_bounds
  unfolding buffer_append write_bytes make_room
  buffer_append_unmade b src v h k e = ground arith

  -- A buffer that would outgrow `int` overflows in the sum that is passed to `realloc`.
  pub buffer_append_overflow :
      (b : Buffer) (src : Bytes)
      → IsValid b
      → b.read_index + b.total_size < length src + b.write_index
      → int_max < b.total_size + length src
      → buffer_append realloc b (some src) ≡ fault int_overflow
  unfolding buffer_append make_room
  buffer_append_overflow b src v h k = ground arith
