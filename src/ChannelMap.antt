-- ===== src/ChannelMap.antt =====
-- lib/channel_map.h and lib/channel_map.c: the table of channels, by file descriptor.
pub mod Growth
mod Tests
use yolanda.Prelude.Int.{ℤ, pos, minus_one}
use yolanda.Outcome.{Outcome, fault, int_overflow, to_int, ◌>>=◌, ok}
use yolanda.Prelude.{
  List, [], ℕ, Bool, Option, ◌∷◌, some, leb, none, suc, ◌*◌, ◌==◌, zero, ◌++◌, if◌then◌else◌,
  replicate, ◌-◌,
}

-- An entry is a pointer, `none` the null pointer. `entries` is the block; `nentries` its length as
-- the source counts it.
pub record ChannelMap (A : Type 0) : Type 0 where
  pub entries : List (Option A)
  pub nentries : ℕ

-- `while (nentries <= slot) nentries <<= 1;` on fuel. A shift that leaves `int` overflows.
pub doubled : ℕ → ℕ → ℕ → Outcome ℕ
doubled zero n slot = fault int_overflow
doubled (suc fuel) n slot =
    let rest = to_int (n * 2) >>= λ n'. doubled fuel n' slot in if leb n slot then rest else ok n

-- The rounds given: a shift overflows after 31 of them.
abbrev pub doubling_rounds : ℕ
doubling_rounds = 32

module _ {A : Type 0} where
  pub map_init : ChannelMap A
  map_init = record { entries = []; nentries = 0 }

  -- `room` says whether `realloc` has a block of that many bytes. The new entries are set to zero,
  -- so of the new block only the length matters.
  pub map_make_space : (ℕ → Bool) → ChannelMap A → ℕ → ℕ → Outcome (ℤ × ChannelMap A)
  map_make_space room map slot msize =
      if leb map.nentries slot
      then (do
        nentries ← doubled doubling_rounds (if map.nentries == 0 then 32 else map.nentries) slot
        size ← to_int (nentries * msize)
        if room size
            then ok (
              pos 0,
              record {
                entries = map.entries ++ replicate (nentries - map.nentries) none;
                nentries = nentries;
              },
            )
            else ok (minus_one, map))
      else ok (pos 0, map)

  -- Every entry is freed, and the table is empty again.
  pub map_clear : ChannelMap A → List A × ChannelMap A
  map_clear map = (freed map.entries, record { entries = []; nentries = 0 })
    where
      freed : List (Option A) → List A
      freed [] = []
      freed (none ∷ es) = freed es
      freed (some a ∷ es) = a ∷ freed es
