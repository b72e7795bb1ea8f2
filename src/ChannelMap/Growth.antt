-- ===== src/ChannelMap/Growth.antt =====
-- `map_make_space`: how far the table grows, and that growing keeps what is in it.
use yolanda.Prelude.Int.{minus_one, pos}
use yolanda.Outcome.{int_max, ok}
use yolanda.Prelude.{
  length, ℕ, ◌<◌, ◌≡◌, ◌≤◌, get_elem?, ◌*◌, some, ◌^◌, none, suc, arith, ◌⊎◌, inl, le-cases, ◌∙◌,
  inr, ◌+◌, ◌-◌, ◌++◌, refl, ap₂, true, false, Bool, zero, length-append, replicate,
  length-replicate, get_elem?-append_left, get_elem?-append_right, ◌==◌, if◌then◌else◌, ap,
}
use yolanda.ChannelMap.{ChannelMap, doubled, map_make_space, doubling_rounds}
use native.Mathlib.Nat.{pow-suc}

-- One round of the doubling loop.
doubled-more :
    (fuel n slot : ℕ)
    → n ≤ slot
    → n * 2 ≤ int_max
    → doubled (suc fuel) n slot ≡ doubled fuel (n * 2) slot
unfolding doubled
doubled-more fuel n slot h k = ground arith

-- With enough rounds the loop ends above the slot, and at most at twice the slot if it ran at all.
pub doubled_lem :
    (fuel n slot : ℕ)
    → 0 < n
    → slot < n * 2 ^ fuel
    → slot * 2 ≤ int_max
    → (n' : ℕ) × (doubled (suc fuel) n slot ≡ ok n')
      × (slot < n')
      × (n ≤ n')
      × ((n' ≤ n) ⊎ (n' ≤ slot * 2))
unfolding doubled
doubled_lem zero n slot h k l = (n, ground arith, omega arith, omega arith, inl (omega arith))
doubled_lem (suc fuel) n slot h k l = elim (le-cases n slot) [
  | inl more ↦
      let (n', run, above, grown, bound) =
        doubled_lem fuel (n * 2) slot (omega arith)
          (omega (arith, ap (λ k. n * k) (pow-suc 2 fuel))) l in
      (
        n',
        doubled-more (suc fuel) n slot more (omega arith) ∙ run,
        above,
        omega arith,
        inr (omega arith),
      )
  | inr done ↦ (n, ground arith, done, omega arith, inl (omega arith))
]

-- A table whose count is the length of its block.
pub record IsTable {A : Type 0} (map : ChannelMap A) : Type 0 where
  pub counted : length map.entries ≡ map.nentries

-- The table after it has grown to reach `slot`: old entries stay, and new ones are null.
pub record Grown {A : Type 0} (map : ChannelMap A) (slot : ℕ) (map' : ChannelMap A) : Type 0 where
  pub table : IsTable map'
  pub reaches : slot < map'.nentries
  pub kept : (fd : ℕ) → fd < map.nentries → get_elem? map'.entries fd ≡ get_elem? map.entries fd
  pub fresh :
      (fd : ℕ) → map.nentries ≤ fd → fd < map'.nentries → get_elem? map'.entries fd ≡ some none

module _ {ℓ} {A : Type ℓ} where
  get_elem?-replicate : (n i : ℕ) (a : A) → i < n → get_elem? (replicate n a) i ≡ some a
  get_elem?-replicate zero i a h = absurd (omega arith)
  get_elem?-replicate (suc n) zero a h = refl
  get_elem?-replicate (suc n) (suc i) a h = get_elem?-replicate n i a (omega arith)

module _ {A : Type 0} (map : ChannelMap A) (t : IsTable map) where
  extended : ℕ → ChannelMap A
  extended n = record { entries = map.entries ++ replicate (n - map.nentries) none; nentries = n }

  extended-Grown : (n slot : ℕ) → map.nentries ≤ n → slot < n → Grown map slot (extended n)
  unfolding extended
  extended-Grown n slot h k = record {
    table = record {
      counted =
          length-append map.entries _
          ∙ ap₂ ◌+◌ t.counted (length-replicate (n - map.nentries) none)
          ∙ omega arith;
    };
    reaches = k;
    kept = λ fd lt. get_elem?-append_left map.entries _ fd (omega (arith, t.counted));
    fresh = λ fd ge lt.
        get_elem?-append_right map.entries _ fd (omega (arith, t.counted))
        ∙ get_elem?-replicate (n - map.nentries) (fd - length map.entries) none
            (omega (arith, t.counted));
  }

  abbrev start : ℕ
  start = if map.nentries == 0 then 32 else map.nentries

  rounds :
      (slot : ℕ)
      → slot < 134217728
      → (n : ℕ) × (doubled doubling_rounds start slot ≡ ok n)
        × (slot < n)
        × (start ≤ n)
        × ((n ≤ start) ⊎ (n ≤ slot * 2))
  rounds slot k = doubled_lem 31 start slot (ground arith) (ground arith) (omega arith)

  -- For a slot behind the table and below 2^27 and pointers of 8 bytes nothing overflows: if
  -- `realloc` has room the table reaches the slot, keeps its entries, has null in the new ones, and
  -- is at most 32 plus twice the slot long.
  pub map_make_space-Grown :
      (room : ℕ → Bool) (slot : ℕ)
      → map.nentries ≤ slot
      → slot < 134217728
      → ((size : ℕ) → room size ≡ true)
      → (map' : ChannelMap A) × (map_make_space room map slot 8 ≡ ok (pos 0, map'))
        × Grown map slot map'
        × (map'.nentries ≤ 32 + slot * 2)
  unfolding map_make_space extended
  map_make_space-Grown room slot h k free =
      let (n, run, above, grown, bound) = rounds slot k in
      (
        extended n,
        ground (arith, run, free (n * 8)),
        extended-Grown n slot (ground arith) above,
        ground arith,
      )

  -- Without room nothing changes, and the call returns -1.
  pub map_make_space_full :
      (room : ℕ → Bool) (slot : ℕ)
      → map.nentries ≤ slot
      → slot < 134217728
      → ((size : ℕ) → room size ≡ false)
      → map_make_space room map slot 8 ≡ ok (minus_one, map)
  unfolding map_make_space
  map_make_space_full room slot h k full =
      let (n, run, above, grown, bound) = rounds slot k in ground (arith, run, full (n * 8))
