-- ===== src/Greeting/Answers.antt =====
-- What the servers answer to a text.
use yolanda.Prelude.Slices.{drop-cons, set-append_length}
use yolanda.Outcome.{ok, fault, ◌>>=◌, out_of_bounds}
use yolanda.Fgets.{IsText}
use yolanda.Memory.{Bytes, memcpy}
use yolanda.Greeting.{
  answer, greet, receive, string_in, udp_run, Server, udp_round, hi, maxline, cleared_reply,
  data_round, stream_round, write_reply,
}
use yolanda.Prelude.{
  ◌+◌, ◌≤◌, ◌<◌, ◌≡◌, ◌∷◌, ◌++◌, refl, ap, some, List, arith, zero, suc, length, [], drop, map, ◌∙◌,
  inl, inr, le-cases, get_elem?-of_lt, length-append, length-drop, set, sym, ap₂, append-nil,
  append_assoc, ◌-◌, true, ℕ, replicate, length-replicate,
}

string_in-text : (s rest : Bytes) → IsText s → string_in (s ++ 0 ∷ rest) ≡ ok s
unfolding string_in
string_in-text [] rest t = refl
string_in-text (zero ∷ cs) rest t = absurd t
string_in-text (suc c ∷ cs) rest t = ap (λ o. o >>= λ s. ok (suc c ∷ s)) (string_in-text cs rest t)

pub greet-text :
    (s rest : Bytes) → IsText s → length s < 4092 → greet (s ++ 0 ∷ rest) ≡ ok (hi ++ s)
unfolding greet
greet-text s rest t h = let read = string_in-text s rest t in ground (arith, read, h)

greet-long :
    (s rest : Bytes) → IsText s → 4092 ≤ length s → greet (s ++ 0 ∷ rest) ≡ fault out_of_bounds
unfolding greet
greet-long s rest t h = let read = string_in-text s rest t in ground (arith, read, h)

-- `memcpy` to the start of an array.
pub memcpy_start :
    (src block : Bytes)
    → length src ≤ length block
    → memcpy block 0 src ≡ ok (src ++ drop (length src) block)
memcpy_start src block h = ground (arith, h)

pub receive-text :
    (t block : Bytes)
    → length t < length block
    → receive t block ≡ ok (t ++ 0 ∷ drop (suc (length t)) block)
unfolding receive
receive-text t block h =
    let (v, found) = get_elem?-of_lt block (length t) h in
    let split = drop-cons (length t) block v found in
    let copied = memcpy_start t block (omega (arith, h)) in
    let long = length-append t (drop (length t) block) in
    let room : length t < length (t ++ drop (length t) block) =
      omega (arith, long, h, length-drop (length t) block) in
    let put : set (t ++ drop (length t) block) (length t) 0 ≡ t ++ 0 ∷ drop (suc (length t)) block =
      ap (λ xs. set (t ++ xs) (length t) 0) split
      ∙ set-append_length t v (drop (suc (length t)) block) 0 in
    ground (arith, copied, room, put)

receive-full : (t block : Bytes) → length t ≡ length block → receive t block ≡ fault out_of_bounds
unfolding receive
receive-full t block h =
    let copied = memcpy_start t block (omega (arith, h)) in
    let long = length-append t (drop (length t) block) in
    let past : length (t ++ drop (length t) block) ≤ length t =
      omega (arith, long, h, length-drop (length t) block) in
    ground (arith, copied, past)

-- A text that is longer does not fit into `send_line` or, at 4096 bytes, with its zero into `message`.
pub answer-long :
    (t : Bytes) (s : Server)
    → IsText t
    → length s.message ≡ maxline
    → 4092 ≤ length t
    → length t ≤ maxline
    → answer t s ≡ fault out_of_bounds
unfolding answer
answer-long t s text size long short = elim (le-cases maxline (length t)) [
  | inl full ↦
      let received = receive-full t s.message (omega (arith, full, short, size)) in
      ground (arith, received)
  | inr room ↦
      let received = receive-text t s.message (omega (arith, room, size)) in
      let over = greet-long t (drop (suc (length t)) s.message) text long in
      ground (arith, received, over)
]

-- The texts that the arrivals are.
abbrev pub Short : List Bytes → Type 0
Short [] = Unit {0}
Short (t ∷ ts) = IsText t × (length t < 4092) × Short ts

-- The server over datagrams answers texts of fewer than 4092 bytes one by one, each with what it says
-- behind "Hi, ", and counts them.
pub udp_run-greeted :
    (ts : List Bytes) (s : Server)
    → Short ts
    → length s.message ≡ maxline
    → (message' : Bytes) × (udp_run (map some ts) s
        ≡ ok (record {
          message = message';
          count = s.count + length ts;
          sent = s.sent ++ map (◌++◌ hi) ts;
        }))
unfolding udp_run udp_round answer
udp_run-greeted [] s short size = (
  s.message,
  ap₂ (λ k ys. ok (record s { count = k; sent = ys })) {x = s.count} (omega arith)
      (sym (append-nil s.sent)),
)
udp_run-greeted (t ∷ ts) s (text, room, more) size =
    let received = receive-text t s.message (omega (arith, room, size)) in
    let rest = drop (suc (length t)) s.message in
    let greeted = greet-text t rest text room in
    let s₁ : Server = record {
      message = t ++ 0 ∷ rest;
      count = s.count + 1;
      sent = s.sent ++ (hi ++ t) ∷ [];
    } in
    let answered : answer t s ≡ ok s₁ = ground (arith, received, greeted) in
    let (message', run) = udp_run-greeted ts s₁ more (
      length-append t (0 ∷ rest)
      ∙ omega (arith, room, size, length-drop (suc (length t)) s.message)) in
    let counts : s₁.count + length ts ≡ s.count + length (t ∷ ts) = omega arith in
    let sends = append_assoc s.sent ((hi ++ t) ∷ []) (map (◌++◌ hi) ts) in
    (
      message',
      ap (λ o. o >>= udp_run (map some ts)) answered
          ∙ run
          ∙ ap₂ (λ k ys. ok (record { message = message'; count = k; sent = ys })) counts sends,
    )

drop-replicate : (n i : ℕ) → i < n → drop i (replicate {A = ℕ} n 0) ≡ 0 ∷ replicate (n - i - 1) 0
drop-replicate zero i h = absurd (omega arith)
drop-replicate (suc n) zero h = ap (λ k. 0 ∷ replicate k 0) {y = suc n - 0 - 1} (omega arith)
drop-replicate (suc n) (suc i) h =
    drop-replicate n i (omega arith) ∙ ap (λ k. 0 ∷ replicate k 0) {x = n - i - 1} (omega arith)

cleared_reply_lem :
    (c : ℕ) (cs : Bytes)
    → IsText (c ∷ cs)
    → length (c ∷ cs) < 4092
    → cleared_reply (some (c ∷ cs)) ≡ ok (some (hi ++ c ∷ cs))
unfolding cleared_reply
cleared_reply_lem c cs t h =
    let rest = replicate {A = ℕ} (maxline - length (c ∷ cs) - 1) 0 in
    let size = length-replicate {A = ℕ} maxline 0 in
    let copied = memcpy_start (c ∷ cs) (replicate maxline 0) (omega (arith, size, h)) in
    let zeros = drop-replicate maxline (length (c ∷ cs)) (omega (arith, h)) in
    let filled = copied ∙ ap (λ z. ok ((c ∷ cs) ++ z)) zeros in
    let greeted = greet-text (c ∷ cs) rest t h in ground (arith, filled, greeted)

-- The stream server answers a text with MAXLINE bytes, whatever its length, and the data server with as
-- many as the text needs.
pub rounds_lem :
    (c : ℕ) (cs : Bytes)
    → IsText (c ∷ cs)
    → length (c ∷ cs) < 4092
    → (data_round (some (c ∷ cs)) true ≡ ok (some (hi ++ c ∷ cs)))
      × (stream_round (some (c ∷ cs)) true
          ≡ ok (some ((hi ++ c ∷ cs) ++ replicate (maxline - length (hi ++ c ∷ cs)) 0)))
unfolding data_round stream_round write_reply
rounds_lem c cs t h =
    let replied = cleared_reply_lem c cs t h in (ground (arith, replied), ground (arith, replied))
