-- ===== src/EpollServer/Skipping.antt =====
-- The events that come after that of a client.
use yolanda.Prelude.Int.{leb_ℤ, pos, minus_one}
use yolanda.Outcome.{ok}
use yolanda.Memory.{Bytes}
use yolanda.Prelude.{
  ◌+◌, ◌≡◌, ◌≢◌, ◌∙◌, ◌∷◌, ◌++◌, refl, sym, ap, some, true, ℕ, List, arith, suc, length, [], map,
  append_assoc, append-nil, false, Bool,
}
use yolanda.EpollServer.{
  Reported, client, Deed, writes, closes, LastRead, would_block, read_error, end_of_stream, Vars,
  serve_events, serve_one, server_round, read_all, echo_block,
}
use yolanda.Rot13.{rot13_char}

-- What a client is due.
unfoldable pub client_deeds : ℕ → List (Bytes × Bool) → LastRead → List Deed
client_deeds fd [] would_block = []
client_deeds fd [] read_error = []
client_deeds fd [] end_of_stream = closes fd ∷ []
client_deeds fd ((block, works) ∷ blocks) last =
    writes fd (map rot13_char block) ∷ client_deeds fd blocks last

-- Each block is sent back without an error.
abbrev pub AllWritten : List (Bytes × Bool) → Type 0
AllWritten [] = Unit {0}
AllWritten ((block, false) ∷ blocks) = ⊥
AllWritten ((block, true) ∷ blocks) = AllWritten blocks

-- After the reads of a client it has what it is due, and n is not above zero.
record Served (fd : ℕ) (blocks : List (Bytes × Bool)) (last : LastRead) (v v' : Vars) : Type 0 where
  deeds : v'.deeds ≡ v.deeds ++ client_deeds fd blocks last
  ends : leb_ℤ v'.n (pos (v'.i + 1)) ≡ true

read_all-Served :
    (fd : ℕ) (blocks : List (Bytes × Bool)) (last : LastRead) (v : Vars)
    → last ≢ read_error
    → AllWritten blocks
    → (v' : Vars) × (read_all fd blocks last v ≡ ok v') × Served fd blocks last v v'
unfolding read_all client_deeds echo_block
read_all-Served fd ((block, false) ∷ blocks) last v h w = absurd w
read_all-Served fd ((block, true) ∷ blocks) last v h w =
    let (v', run, s) = read_all-Served fd blocks last (echo_block fd block v) h w in
    (
      v',
      run,
      record {
        deeds =
            s.deeds
            ∙ append_assoc v.deeds (writes fd (map rot13_char block) ∷ [])
                (client_deeds fd blocks last);
        ends = s.ends;
      },
    )
read_all-Served fd [] would_block v h w = (
  record v { n = minus_one },
  refl,
  record { deeds = sym (append-nil v.deeds); ends = ground arith },
)
read_all-Served fd [] read_error v h w = absurd (h refl)
read_all-Served fd [] end_of_stream v h w = (
  record v { n = pos 0; deeds = v.deeds ++ closes fd ∷ [] },
  refl,
  record { deeds = refl; ends = ground arith },
)

-- When the first event of a round is that of a client of which no read fails, and to which every write
-- works, it is served, and the round is over: nothing is done for the other events, whatever they are.
pub server_round-skips :
    (fd : ℕ) (blocks : List (Bytes × Bool)) (last : LastRead) (later : List Reported)
    → last ≢ read_error
    → AllWritten blocks
    → server_round (client fd blocks last ∷ later) ≡ ok (some (client_deeds fd blocks last))
unfolding server_round serve_events serve_one
server_round-skips fd blocks last later h w =
    let events = client fd blocks last ∷ later in
    let v : Vars = record { n = pos (length events); i = 0; deeds = [] } in
    let (v', run, s) = read_all-Served fd blocks last v h w in
    ap (λ k. serve_events k events v) {y = suc (suc (length later))} (omega arith)
    ∙ ground (arith, run, s.ends)
    ∙ ap (λ ds. ok (some ds)) s.deeds
