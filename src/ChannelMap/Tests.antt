-- ===== src/ChannelMap/Tests.antt =====
-- The theorem about the growth of the table at a small table, and a run of the doubling loop.
use yolanda.ChannelMap.Growth.{Grown, map_make_space-Grown}
use yolanda.Prelude.Int.{pos}
use yolanda.Outcome.{ok}
use yolanda.ChannelMap.{ChannelMap, doubled, doubling_rounds, map_make_space}
use yolanda.Prelude.{◌+◌, ◌*◌, ◌≤◌, ◌≡◌, ◌∷◌, refl, none, some, true, ℕ, arith, []}

abbrev small : ChannelMap ℕ
small = record { entries = none ∷ some 7 ∷ []; nentries = 2 }

map_make_space-Grown_example :
    (map' : ChannelMap ℕ) × (map_make_space (λ size. true) small 5 8 ≡ ok (pos 0, map'))
    × Grown small 5 map'
    × (map'.nentries ≤ 32 + 5 * 2)
map_make_space-Grown_example =
    map_make_space-Grown small (record { counted = refl }) (λ size. true) 5 (omega arith)
      (omega arith) (λ size. refl)

doubled_run : doubled doubling_rounds 32 100 ≡ ok 128
unfolding doubled
doubled_run = refl
