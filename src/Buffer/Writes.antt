-- ===== src/Buffer/Writes.antt =====
-- Sequences of appends to one buffer, with an allocator that has room up to the limit of an `int`.
use yolanda.Buffer.Append.{Appended, make_room-Roomy, grows, write_bytes-Appended}
use yolanda.Buffer.Contents.{IsValid, contents}
use yolanda.Outcome.{ok, Outcome, int_max, ◌>>=◌}
use yolanda.Memory.{Realloc, Bytes, ReallocLaws}
use yolanda.Buffer.{Buffer, buffer_append, write_bytes}
use yolanda.Prelude.{
  ◌+◌, ◌≤◌, ◌≡◌, ◌∙◌, ◌++◌, refl, sym, ap, some, ℕ, arith, length, [], append-nil, length-append,
  append_assoc,
}

-- A run of `f` appends `text` to any valid buffer whose size leaves room for it in an `int`, and the
-- buffer grows by at most the size of `text`.
abbrev pub Writes : (Buffer → Outcome Buffer) → Bytes → Type 0
Writes f text =
    (b : Buffer)
    → IsValid b
    → b.total_size + length text ≤ int_max
    → (b' : Buffer) × (f b ≡ ok b')
      × Appended b text b'
      × (b'.total_size ≤ b.total_size + length text)

-- Between successes `realloc` has a block of every size that an `int` can hold.
abbrev pub IsPlenty : Realloc → Type 0
IsPlenty realloc =
    (block : Bytes) (n : ℕ) → n ≤ int_max → (new : Bytes) × (realloc block n ≡ some new)

pub Writes-then :
    (f g : Buffer → Outcome Buffer) (s t : Bytes)
    → Writes f s
    → Writes g t
    → Writes (λ b. f b >>= g) (s ++ t)
Writes-then f g s t wf wg b v h =
    let n = length-append s t in
    let (b₁, e₁, a₁, k₁) = wf b v (omega (arith, n)) in
    let (b₂, e₂, a₂, k₂) = wg b₁ a₁.valid (omega (arith, n)) in
    (
      b₂,
      ap (λ m. m >>= g) e₁ ∙ e₂,
      record {
        valid = a₂.valid;
        bytes = a₂.bytes ∙ ap (λ xs. xs ++ t) a₁.bytes ∙ append_assoc (contents b) s t;
      },
      omega (arith, n),
    )

pub Writes-same :
    (f g : Buffer → Outcome Buffer) (t : Bytes)
    → ((b : Buffer) → f b ≡ g b)
    → Writes g t
    → Writes f t
Writes-same f g t same w b v h = let (b', e, a, k) = w b v h in (b', same b ∙ e, a, k)

pub Writes-nothing : Writes (λ b. ok b) []
Writes-nothing b v h =
    (b, refl, record { valid = v; bytes = sym (append-nil (contents b)) }, omega arith)

module _ (realloc : Realloc) (laws : ReallocLaws realloc) (plenty : IsPlenty realloc) where
  pub buffer_append-Writes : (src : Bytes) → Writes (λ b. buffer_append realloc b (some src)) src
  unfolding buffer_append
  buffer_append-Writes src b v h =
      let (new, e) = plenty b.bytes (b.total_size + length src) h in
      let (b₁, made, roomy) = make_room-Roomy realloc b (length src) laws v (grows new e h) in
      let (b₂, wrote, a, size) = write_bytes-Appended realloc b₁ src roomy.valid roomy.room in
      (
        b₂,
        ap (λ m. m >>= λ b'. write_bytes realloc b' src) made ∙ wrote,
        record { valid = a.valid; bytes = a.bytes ∙ ap (λ xs. xs ++ src) roomy.bytes },
        omega (arith, size, roomy.grows),
      )
