-- ===== src/Yolandapp/Buffer/Port.antt =====
-- The blocks of lib/buffer.c and the strings of yolandapp/buffer.cpp are the same queue.
use yolanda.Outcome.{Outcome, ok, ◌>>=◌, int_max}
use yolanda.Memory.{Bytes, Realloc, ReallocLaws}
use yolanda.Prelude.{
  ◌+◌, ◌∷◌, ◌++◌, none, some, ℕ, List, Option, length, [], ◌≤◌, ◌≡◌, ◌∙◌, refl, ap, inl, inr, arith,
  ◌-◌, ◌<◌, sym, le-cases, take, drop, ◌*◌, ◌^◌,
}
use yolanda.Buffer.{Buffer, buffer_append, buffer_append_string, buffer_read_char}
use yolanda.Buffer.Append.{buffer_append-bounded, grows, Appended}
use yolanda.Buffer.Contents.{IsValid, contents, window-cons, buffer_read_char-advances}
use yolanda.Yolandapp.Buffer.{StringBuffer, append_data, append_string, read_char, char_at}
use yolanda.Yolandapp.Buffer.Append.{IsSound, held, append_data-Extended, append_string-Extended}

pub data Act : Type 0 where
  append_block : Bytes → Act
  append_text : Bytes → Act
  take_char : Act

unfoldable pub before : ℕ → Option (Bytes × Bytes) → Option (Bytes × Bytes)
before c none = none
before c (some (taken, rest)) = some (c ∷ taken, rest)

-- What the acts do to a queue: the characters taken and what is left, unless one is taken from an
-- empty queue.
unfoldable pub queue : List Act → Bytes → Option (Bytes × Bytes)
unfolding before
queue [] q = some ([], q)
queue (append_block src ∷ acts) q = queue acts (q ++ src)
queue (append_text src ∷ acts) q = queue acts (q ++ src)
queue (take_char ∷ acts) [] = none
queue (take_char ∷ acts) (c ∷ q) = before c (queue acts q)

-- The bytes that are appended.
unfoldable pub volume : List Act → ℕ
volume [] = 0
volume (append_block src ∷ acts) = length src + volume acts
volume (append_text src ∷ acts) = length src + volume acts
volume (take_char ∷ acts) = volume acts

-- The acts by the functions of lib/buffer.c.
pub run_blocks : Realloc → List Act → Buffer → Outcome (Bytes × Buffer)
run_blocks realloc [] b = ok ([], b)
run_blocks realloc (append_block src ∷ acts) b = do
  b' ← buffer_append realloc b (some src)
  run_blocks realloc acts b'
run_blocks realloc (append_text src ∷ acts) b = do
  b' ← buffer_append_string realloc b (some src)
  run_blocks realloc acts b'
run_blocks realloc (take_char ∷ acts) b = do
  (c, b₁) ← buffer_read_char b
  (taken, b₂) ← run_blocks realloc acts b₁
  ok (c ∷ taken, b₂)

-- The acts by the functions of yolandapp/buffer.cpp.
pub run_strings : ℕ → List Act → StringBuffer → Outcome (Bytes × StringBuffer)
run_strings max_size [] s = ok ([], s)
run_strings max_size (append_block src ∷ acts) s = do
  s' ← append_data max_size s (some src)
  run_strings max_size acts s'
run_strings max_size (append_text src ∷ acts) s = do
  s' ← append_string max_size s src
  run_strings max_size acts s'
run_strings max_size (take_char ∷ acts) s = do
  (c, s₁) ← read_char s
  (taken, s₂) ← run_strings max_size acts s₁
  ok (c ∷ taken, s₂)

queue-take :
    (acts : List Act) (q : Bytes) {taken rest : Bytes}
    → queue (take_char ∷ acts) q ≡ some (taken, rest)
    → (c : ℕ) × (q' taken' : Bytes) × (q ≡ c ∷ q')
      × (queue acts q' ≡ some (taken', rest))
      × (taken ≡ c ∷ taken')
unfolding queue before
queue-take acts [] e = cc
queue-take acts (c ∷ q) e =
    let (taken', got, out) = after (queue acts q) e in (c, q, taken', refl, got, out)
  where
    after :
        {c : ℕ} {taken rest : Bytes} (o : Option (Bytes × Bytes))
        → before c o ≡ some (taken, rest)
        → (taken' : Bytes) × (o ≡ some (taken', rest)) × (taken ≡ c ∷ taken')
    after none h = cc
    after (some (t, r)) h = (t, cc, cc)

cons-front :
    {xs : Bytes} {c d : ℕ} {ys zs : Bytes} → xs ≡ c ∷ ys → xs ≡ d ∷ zs → (c ≡ d) × (ys ≡ zs)
cons-front p q = (cc, cc)

window_some : (r w : ℕ) (xs : Bytes) {c : ℕ} {q : Bytes} → take (w - r) xs ≡ c ∷ q → r < w
window_some r w xs e = elim (le-cases w r) [
  | inr h ↦ h
  | inl h ↦
      let gone : w - r ≡ 0 = omega arith in let nothing = ap (λ k. take k xs) (sym gone) ∙ e in cc
]

queue-nil :
    (q : Bytes) {taken rest : Bytes} → queue [] q ≡ some (taken, rest) → (taken ≡ []) × (q ≡ rest)
unfolding queue
queue-nil q e = (cc, cc)

module _ (realloc : Realloc) (laws : ReallocLaws realloc)
    (has : (block : Bytes) (n : ℕ)
      → n ≤ int_max
      → (new : Bytes) × (realloc block n ≡ some new)) where
  append-has :
      (b : Buffer) (src : Bytes)
      → IsValid b
      → b.total_size + length src ≤ int_max
      → (b' : Buffer) × (buffer_append realloc b (some src) ≡ ok b')
        × Appended b src b'
        × (b'.total_size ≤ b.total_size + length src)
  append-has b src v h =
      let (new, made) = has b.bytes (b.total_size + length src) h in
      buffer_append-bounded realloc b src laws v (grows new made h)

  -- By the functions of lib/buffer.c.
  pub blocks-queue :
      (acts : List Act) (b : Buffer) {taken rest : Bytes}
      → IsValid b
      → queue acts (contents b) ≡ some (taken, rest)
      → b.total_size + volume acts ≤ int_max
      → (b' : Buffer) × (run_blocks realloc acts b ≡ ok (taken, b')) × (contents b' ≡ rest)
  unfolding queue volume run_blocks buffer_append_string
  blocks-queue [] b v e h =
      let (nothing, same) = queue-nil (contents b) e in (b, ap (λ t. ok (t, b)) (sym nothing), same)
  blocks-queue (append_block src ∷ acts) b v e h =
      let (b₁, run, a, bound) = append-has b src v (omega arith) in
      let (b₂, runs, same) =
        blocks-queue acts b₁ a.valid (ap (queue acts) a.bytes ∙ e) (omega arith) in
      (b₂, ap (λ m. m >>= run_blocks realloc acts) run ∙ runs, same)
  blocks-queue (append_text src ∷ acts) b v e h =
      let (b₁, run, a, bound) = append-has b src v (omega arith) in
      let (b₂, runs, same) =
        blocks-queue acts b₁ a.valid (ap (queue acts) a.bytes ∙ e) (omega arith) in
      (b₂, ap (λ m. m >>= run_blocks realloc acts) run ∙ runs, same)
  blocks-queue (take_char ∷ acts) b v e h =
      let (c, q', taken', eq, e', out) = queue-take acts (contents b) e in
      let ahead = window_some b.read_index b.write_index (drop b.read_index b.bytes) eq in
      let (d, run, front) = buffer_read_char-advances b v ahead in
      let (p, r) = cons-front eq front in
      let (b₂, runs, same) =
        blocks-queue acts (record b { read_index = b.read_index + 1 }) (omega (arith, ahead))
          (ap (queue acts) (sym r) ∙ e') h in
      (b₂, ground (arith, run, runs, p, out), same)

read_char-advances :
    (max_size : ℕ) (s : StringBuffer)
    → IsSound max_size s
    → s.read_index < s.write_index
    → (c : ℕ) × (read_char s ≡ ok (c, record s { read_index = s.read_index + 1 }))
      × (held max_size s ≡ c ∷ held max_size (record s { read_index = s.read_index + 1 }))
unfolding read_char char_at
read_char-advances max_size s v h =
    let (c, e, q) = window-cons s.chars s.read_index s.write_index h v.writable in
    (c, ground (arith, e), q)

-- By the functions of yolandapp/buffer.cpp.
pub strings-queue :
    (max_size : ℕ)
    → max_size < 2 ^ 63
    → (acts : List Act) (s : StringBuffer) {taken rest : Bytes} → IsSound max_size s
    → queue acts (held max_size s) ≡ some (taken, rest)
    → length s.chars + 2 * volume acts ≤ max_size
    → (s' : StringBuffer) × (run_strings max_size acts s ≡ ok (taken, s'))
      × (held max_size s' ≡ rest)
unfolding queue volume run_strings
strings-queue max_size small [] s v e h =
    let (nothing, same) = queue-nil (held max_size s) e in
    (s, ap (λ t. ok (t, s)) (sym nothing), same)
strings-queue max_size small (append_block src ∷ acts) s v e h =
    let (s₁, run, a, bound) = append_data-Extended max_size s src small v (omega arith) in
    let (s₂, runs, same) =
      strings-queue max_size small acts s₁ a.sound (ap (queue acts) a.bytes ∙ e) (omega arith) in
    (s₂, ap (λ m. m >>= run_strings max_size acts) run ∙ runs, same)
strings-queue max_size small (append_text src ∷ acts) s v e h =
    let (s₁, run, a, longer, bound) = append_string-Extended max_size s src small v (omega arith) in
    let (s₂, runs, same) =
      strings-queue max_size small acts s₁ a.sound (ap (queue acts) a.bytes ∙ e) (omega arith) in
    (s₂, ap (λ m. m >>= run_strings max_size acts) run ∙ runs, same)
strings-queue max_size small (take_char ∷ acts) s v e h =
    let (c, q', taken', eq, e', out) = queue-take acts (held max_size s) e in
    let ahead = window_some s.read_index s.write_index (drop s.read_index s.chars) eq in
    let (d, run, front) = read_char-advances max_size s v ahead in
    let (p, r) = cons-front eq front in
    let (s₂, runs, same) =
      strings-queue max_size small acts (record s { read_index = s.read_index + 1 })
        (omega (arith, ahead)) (ap (queue acts) (sym r) ∙ e') h in
    (s₂, ground (arith, run, runs, p, out), same)

-- Whatever is appended, as a block or as text, and taken a character at a time from a queue that is
-- not empty: a block of lib/buffer.c and a string of yolandapp/buffer.cpp that hold the same bytes
-- give the same characters and hold the same bytes afterwards, those of a queue. `realloc` has every
-- block that an `int` can measure, the limit of a string is below 2^63, and what is appended keeps
-- the block within an `int` and, counted twice, the string within its limit.
pub run_blocks-run_strings :
    (realloc : Realloc) (max_size : ℕ) (acts : List Act) (b : Buffer) (s : StringBuffer)
    {taken rest : Bytes}
    → ReallocLaws realloc
    → ((block : Bytes) (n : ℕ) → n ≤ int_max → (new : Bytes) × (realloc block n ≡ some new))
    → max_size < 2 ^ 63
    → IsValid b
    → IsSound max_size s
    → contents b ≡ held max_size s
    → queue acts (contents b) ≡ some (taken, rest)
    → b.total_size + volume acts ≤ int_max
    → length s.chars + 2 * volume acts ≤ max_size
    → (b' : Buffer) × (s' : StringBuffer) × (run_blocks realloc acts b ≡ ok (taken, b'))
      × (run_strings max_size acts s ≡ ok (taken, s'))
      × (contents b' ≡ rest)
      × (held max_size s' ≡ rest)
run_blocks-run_strings realloc max_size acts b s laws has small v w same e h k =
    let (b', runs, left) = blocks-queue realloc laws has acts b v e h in
    let (s', runs', left') =
      strings-queue max_size small acts s w (ap (queue acts) (sym same) ∙ e) k in
    (b', s', runs, runs', left, left')
