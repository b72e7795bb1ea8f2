-- ===== src/Buffer/Slide.antt =====
-- The loop of `make_room` that moves the readable bytes to the front of the block.
use yolanda.Prelude.{
  ℕ, zero, suc, ◌+◌, ◌≤◌, ◌<◌, ◌≡◌, refl, sym, ap, ◌∙◌, ◌++◌, ◌∷◌, [], some, arith, length,
  get_elem?, set, take, drop, length-set, length-drop, subst, get_elem?-of_lt, get_elem?-set_self,
}
use yolanda.Prelude.Slices.{get_elem?-drop, take-suc, take-set, drop-set, drop-drop}
use yolanda.Outcome.{ok}
use yolanda.Memory.{Bytes}
use yolanda.Buffer.{move_down}

-- One round: position i receives the byte of position `from + i`.
move_down-step :
    (rounds i from : ℕ) (bytes : Bytes) (c : ℕ)
    → get_elem? bytes (from + i) ≡ some c
    → i < length bytes
    → move_down (suc rounds) i from bytes ≡ move_down rounds (i + 1) from (set bytes i c)
unfolding move_down
move_down-step rounds i from bytes c e h = ground arith

-- `block` is the block before the loop: the first i bytes are in place, and from i on nothing has
-- been written.
record Moved (block : Bytes) (from i : ℕ) (bytes : Bytes) : Type 0 where
  size : length bytes ≡ length block
  done : take i bytes ≡ take i (drop from block)
  rest : drop i bytes ≡ drop i block

read_untouched :
    (block : Bytes) (from i : ℕ) (bytes : Bytes)
    → Moved block from i bytes
    → get_elem? bytes (from + i) ≡ get_elem? (drop from block) i
read_untouched block from i bytes m =
    let at : from + i ≡ i + from = omega arith in
    ap (get_elem? bytes) at
    ∙ sym (get_elem?-drop from i bytes)
    ∙ ap (λ xs. get_elem? xs from) m.rest
    ∙ get_elem?-drop from i block
    ∙ ap (get_elem? block) (sym at)
    ∙ sym (get_elem?-drop i from block)

move_down-Moved :
    (block : Bytes) (from i : ℕ) (bytes : Bytes) (c : ℕ)
    → Moved block from i bytes
    → get_elem? (drop from block) i ≡ some c
    → i < length block
    → Moved block from (suc i) (set bytes i c)
move_down-Moved block from i bytes c m e h = record {
  size = length-set bytes i c ∙ m.size;
  done =
      take-suc i (set bytes i c) c (get_elem?-set_self bytes i c (omega (arith, m.size)))
      ∙ ap (λ xs. xs ++ c ∷ []) (take-set i bytes c ∙ m.done)
      ∙ sym (take-suc i (drop from block) c e);
  rest = drop-set i bytes c ∙ shift;
}
  where
    shift : drop (suc i) bytes ≡ drop (suc i) block
    shift =
        ap (λ k. drop k bytes) {x = suc i} {y = i + 1} (omega arith)
        ∙ sym (drop-drop 1 i bytes)
        ∙ ap (drop 1) m.rest
        ∙ drop-drop 1 i block
        ∙ ap (λ k. drop k block) {y = suc i} (omega arith)

Moved-at :
    (block : Bytes) (from i j : ℕ) (bytes : Bytes)
    → i ≡ j
    → Moved block from i bytes
    → Moved block from j bytes
Moved-at block from i j bytes e = subst (λ k. Moved block from k bytes) e

move_down-loop :
    (rounds i from : ℕ) (block bytes : Bytes)
    → Moved block from i bytes
    → from + i + rounds ≤ length block
    → (bytes' : Bytes) × (move_down rounds i from bytes ≡ ok bytes')
      × Moved block from (i + rounds) bytes'
unfolding move_down
move_down-loop zero i from block bytes m h =
    (bytes, refl, Moved-at block from i (i + 0) bytes (omega arith) m)
move_down-loop (suc rounds) i from block bytes m h =
    let (c, e) = get_elem?-of_lt (drop from block) i (omega (arith, length-drop from block)) in
    let (bytes', run, m') =
      move_down-loop rounds (i + 1) from block (set bytes i c)
        (Moved-at block from (suc i) (i + 1) (set bytes i c) (omega arith)
          (move_down-Moved block from i bytes c m e (omega arith)))
        (omega arith) in
    (
      bytes',
      move_down-step rounds i from bytes c (read_untouched block from i bytes m ∙ e)
            (omega (arith, m.size))
          ∙ run,
      Moved-at block from (i + 1 + rounds) (i + suc rounds) bytes' (omega arith) m',
    )

-- The whole loop brings the `n` bytes from `from` on to the front, and the block keeps its size.
pub move_down_lem :
    (n from : ℕ) (block : Bytes)
    → from + n ≤ length block
    → (bytes' : Bytes) × (move_down n 0 from block ≡ ok bytes')
      × (length bytes' ≡ length block)
      × (take n bytes' ≡ take n (drop from block))
move_down_lem n from block h =
    let (bytes', run, m) =
      move_down-loop n 0 from block block (record { size = refl; done = refl; rest = refl })
        (omega arith) in
    let m' = Moved-at block from (0 + n) n bytes' (omega arith) m in (bytes', run, m'.size, m'.done)
