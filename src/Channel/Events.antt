-- ===== src/Channel/Events.antt =====
-- The bits of a channel's event mask. A mask combines the four constants of channel.h, so it is
-- below 16, and the laws of the bit operations are checked at each mask.
use yolanda.Channel.{not_event_write}
use Prim.Native.Nat.{bit_and, bit_or}
use yolanda.Prelude.{
  holds_below, ℕ, Bool, ◌<◌, not, ◌==◌, ◌≡◌, ◌≢◌, arith, holds_below-lt, ◌&&◌, leb, true, refl,
}

-- The masks that the four constants can make.
abbrev pub IsMask : ℕ → Type 0
IsMask events = events < 16

abbrev reads_as : ℕ → ℕ → Bool
reads_as events bit = not (bit_and events bit == 0)

enable_table :
    holds_below
      (λ e.
        reads_as (bit_or e 4) 4 && leb (bit_or e 4) 15 && (bit_and (bit_or e 4) 2 == bit_and e 2))
      16
    ≡ true
unfolding holds_below
enable_table = refl

disable_table :
    holds_below
      (λ e.
        (bit_and (bit_and e not_event_write) 4 == 0)
        && leb (bit_and e not_event_write) 15
        && (bit_and (bit_and e not_event_write) 2 == bit_and e 2))
      16
    ≡ true
unfolding holds_below
disable_table = refl

-- Setting the write bit sets it, and keeps the read bit.
pub or_write :
    (e : ℕ)
    → IsMask e
    → (bit_and (bit_or e 4) 4 ≢ 0) × (bit_and (bit_or e 4) 2 ≡ bit_and e 2) × IsMask (bit_or e 4)
or_write e h = ground (arith, holds_below-lt _ 16 e enable_table h)

-- Clearing the write bit clears it, and keeps the read bit.
pub and_not_write :
    (e : ℕ)
    → IsMask e
    → (bit_and (bit_and e not_event_write) 4 ≡ 0)
      × (bit_and (bit_and e not_event_write) 2 ≡ bit_and e 2)
      × IsMask (bit_and e not_event_write)
and_not_write e h = ground (arith, holds_below-lt _ 16 e disable_table h)
