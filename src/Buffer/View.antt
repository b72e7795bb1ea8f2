-- ===== src/Buffer/View.antt =====
-- The abstract view of a buffer of lib/buffer.c: the bytes it holds, with its indices and what else is
-- in its block forgotten.
use yolanda.Outcome.{int_max, ok}
use yolanda.Buffer.Contents.{contents, IsValid}
use yolanda.Memory.{Bytes, Realloc, ReallocLaws}
use yolanda.Buffer.{Buffer}
use yolanda.Prelude.{◌+◌, ◌≤◌, ◌≡◌, ◌∙◌, sym, ap, some, ℕ, List}
use mathlib.Core.Quot
use mathlib.Core.Quot.{Quot}
use yolanda.Yolandapp.Buffer.Port.{Act, queue, volume, run_blocks, blocks-queue}

-- Two buffers hold the same bytes.
abbrev pub SameContents : Buffer → Buffer → Type 0
SameContents b c = contents b ≡ contents c

abbrev pub View : Type 0
View = Quot SameContents

abbrev pub view : Buffer → View
view b = Quot.mk b

-- What a view tells.
shown : View → Bytes
shown = Quot.lift (hlevel) contents (λ b c h. h)

contents-view : (b c : Buffer) → view b ≡ view c → contents b ≡ contents c
unfolding shown
contents-view b c h = ap shown h

-- Two valid buffers with the same view cannot be told apart by what is appended and taken, wherever
-- their bytes lie in their blocks: the acts give the same characters of both, and leave them with the
-- same view. No character is taken from an empty queue, `realloc` has every block that an `int` can
-- measure, and what is appended keeps both blocks within an `int`.
pub run_blocks-view :
    (realloc : Realloc) (acts : List Act) (b c : Buffer) {taken rest : Bytes}
    → ReallocLaws realloc
    → ((block : Bytes) (n : ℕ) → n ≤ int_max → (new : Bytes) × (realloc block n ≡ some new))
    → IsValid b
    → IsValid c
    → view b ≡ view c
    → queue acts (contents b) ≡ some (taken, rest)
    → b.total_size + volume acts ≤ int_max
    → c.total_size + volume acts ≤ int_max
    → (b' c' : Buffer) × (run_blocks realloc acts b ≡ ok (taken, b'))
      × (run_blocks realloc acts c ≡ ok (taken, c'))
      × (view b' ≡ view c')
run_blocks-view realloc acts b c laws has v w same e h k =
    let (b', runs, left) = blocks-queue realloc laws has acts b v e h in
    let (c', runs', left') =
      blocks-queue realloc laws has acts c w (ap (queue acts) (sym (contents-view b c same)) ∙ e)
        k in
    (b', c', runs, runs', Quot.sound (left ∙ sym left'))
