-- ===== src/EventLoop/Registry/Reach.antt =====
-- The table of channels, grown so that it has a descriptor.
use yolanda.ChannelMap.{ChannelMap}
use yolanda.ChannelMap.Growth.{IsTable, Grown, map_make_space-Grown}
use yolanda.EventLoop.{EventLoop, reach}
use yolanda.EventLoop.Registry.{channel_at}
use yolanda.Outcome.{ok}
use yolanda.Prelude.{
  ◌<◌, ◌≡◌, refl, some, true, ℕ, Bool, arith, suc, le-cases, get_elem?-of_ge, inl, inr,
}

-- The table, grown if it has to be.
pub record Reached {D : Type 0} (l : EventLoop D) (fd : ℕ) (map : ChannelMap ℕ) : Type 0 where
  pub table : IsTable map
  pub within : fd < map.nentries
  pub same : (q : ℕ) → channel_at map q ≡ channel_at l.map q

module _ {D : Type 0} (room : ℕ → Bool) where
  pub reach_lem :
      (l : EventLoop D) (fd : ℕ)
      → IsTable l.map
      → fd < 134217728
      → ((size : ℕ) → room size ≡ true)
      → (map : ChannelMap ℕ) × (reach room l.map fd ≡ ok (some map)) × Reached l fd map
  unfolding reach
  reach_lem l fd t h free = elim (le-cases l.map.nentries fd) [
    | inl short ↦
        let (map, made, g, _) = map_make_space-Grown l.map t room fd short h free in
        (
          map,
          ground arith,
          record { table = g.table; within = g.reaches; same = λ q. grown map g q },
        )
    | inr long ↦ (l.map, ground arith, record { table = t; within = long; same = λ q. refl })
  ]
    where
      grown :
          (map : ChannelMap ℕ)
          → Grown l.map fd map
          → (q : ℕ) → channel_at map q ≡ channel_at l.map q
      grown map g q = elim (le-cases (suc q) l.map.nentries) [
        | inl old ↦ ground (arith, g.kept q old)
        | inr new ↦ elim (le-cases (suc q) map.nentries) [
          | inl fresh ↦ ground (
            arith,
            g.fresh q (omega arith) fresh,
            get_elem?-of_ge l.map.entries q (omega (arith, t.counted)),
          )
          | inr beyond ↦ ground (
            arith,
            get_elem?-of_ge map.entries q (omega (arith, g.table.counted)),
            get_elem?-of_ge l.map.entries q (omega (arith, t.counted)),
          )
        ]
      ]
