-- ===== src/Memory/Zeroed.antt =====
-- The allocator that fills new bytes with zeros keeps the promise of `realloc`.
use yolanda.Prelude.Slices.{take-append_ge, take-append_length}
use yolanda.Memory.{ReallocLaws, realloc_zeroed, Bytes}
use yolanda.Prelude.{
  ◌≤◌, ◌≡◌, ◌∙◌, ◌++◌, refl, sym, ap, some, ℕ, arith, length, length-take, replicate, length-append,
  length-replicate, take,
}

pub zeroed_laws : ReallocLaws realloc_zeroed
zeroed_laws = record { size = grown; keeps = kept }
  where
    grown :
        (block : Bytes) (n : ℕ) (new : Bytes) → realloc_zeroed block n ≡ some new → length new ≡ n
    grown block n new e = ground (
      arith,
      length-take n (block ++ replicate n 0),
      length-append block (replicate n 0),
      length-replicate {A = ℕ} n 0,
    )

    taken :
        (block : Bytes) (n : ℕ) (new : Bytes)
        → realloc_zeroed block n ≡ some new
        → take n (block ++ replicate n 0) ≡ new
    taken block n new e = cc

    kept :
        (block : Bytes) (n : ℕ) (new : Bytes)
        → length block ≤ n
        → realloc_zeroed block n ≡ some new
        → take (length block) new ≡ block
    kept block n new h e =
        ap (take (length block)) (sym (taken block n new e))
        ∙ ap (take (length block)) (take-append_ge n block (replicate n 0) h)
        ∙ take-append_length (length block) block _ refl
