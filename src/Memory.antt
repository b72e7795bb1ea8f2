-- ===== src/Memory.antt =====
-- Blocks of memory: what `malloc` and `realloc` return, and reads and writes inside a block.
-- A block is the list of its bytes, and its length is the room that it has.
pub mod Zeroed
use yolanda.Prelude.{
  ℕ, ◌+◌, ◌≤◌, ◌≡◌, List, ◌++◌, Option, none, some, arith, ltb, leb, if◌then◌else◌, length,
  get_elem?, set, take, drop, replicate,
}
use yolanda.Outcome.{Outcome, ok, fault, out_of_bounds}

abbrev pub Bytes : Type 0
Bytes = List ℕ

-- `p[i]` as a value
abbrev pub load : Bytes → ℕ → Outcome ℕ
load block i = elim (get_elem? block i) [ none ↦ fault out_of_bounds | some c ↦ ok c ]

-- `p[i] = c`
abbrev pub store : Bytes → ℕ → ℕ → Outcome Bytes
store block i c = if ltb i (length block) then ok (set block i c) else fault out_of_bounds

-- `memcpy(p + at, src, n)`, where `src` is the list of the n bytes
abbrev pub memcpy : Bytes → ℕ → Bytes → Outcome Bytes
memcpy block at src =
    if leb (at + length src) (length block)
    then ok (take at block ++ (src ++ drop (at + length src) block))
    else fault out_of_bounds

-- `realloc(p, n)`: `none` is NULL. The allocator is not part of the program.
abbrev pub Realloc : Type 0
Realloc = Bytes → ℕ → Option Bytes

-- What the C standard says of a block that `realloc` returns: it has n bytes, and begins with the
-- old ones (for a block that grows).
pub record ReallocLaws (realloc : Realloc) : Type 0 where
  pub size : (block : Bytes) (n : ℕ) (new : Bytes) → realloc block n ≡ some new → length new ≡ n
  pub keeps :
      (block : Bytes) (n : ℕ) (new : Bytes)
      → length block ≤ n
      → realloc block n ≡ some new
      → take (length block) new ≡ block

-- An allocator that always has room and fills new bytes with zeros.
abbrev pub realloc_zeroed : Realloc
realloc_zeroed block n = some (take n (block ++ replicate n 0))

-- An allocator that has no room.
abbrev pub realloc_null : Realloc
realloc_null block n = none

pub memcpy-ok :
    (block : Bytes) (at : ℕ) (src : Bytes)
    → at + length src ≤ length block
    → memcpy block at src ≡ ok (take at block ++ (src ++ drop (at + length src) block))
memcpy-ok block at src h = ground arith
