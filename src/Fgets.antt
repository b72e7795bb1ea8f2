-- ===== src/Fgets.antt =====
-- Reading text by lines with `fgets`, as chap-16/streamclient.c and mid-homework/telnet-server.c do.
use yolanda.Memory.{Bytes}
use yolanda.Yolandapp.Http.{c_str}
use yolanda.Prelude.{
  ◌≡◌, ◌≤◌, ◌<◌, ◌∷◌, ◌++◌, ◌==◌, if◌then◌else◌, true, false, refl, ap, ℕ, Bool, arith, zero, suc,
  length, [], drop,
}

-- `fgets` into a buffer with room for that many characters and a zero: what it stores, and what is left.
unfoldable pub fgets : ℕ → Bytes → Bytes × Bytes
fgets zero text = ([], text)
fgets (suc room) [] = ([], [])
fgets (suc room) (c ∷ cs) =
    let more = fgets room cs in if c == 10 then (c ∷ [], cs) else (c ∷ more.0, more.1)

-- A text has no zero in it.
abbrev pub IsText : Bytes → Type 0
IsText [] = Unit
IsText (zero ∷ cs) = ⊥
IsText (suc c ∷ cs) = IsText cs

pub c_str-IsText : (cs : Bytes) → IsText cs → c_str cs ≡ cs
unfolding c_str
c_str-IsText [] t = refl
c_str-IsText (zero ∷ cs) t = absurd t
c_str-IsText (suc c ∷ cs) t = ap (◌∷◌ (suc c)) (c_str-IsText cs t)

-- What `fgets` takes from a text.
pub record Taken (room : ℕ) (text : Bytes) (z : Bytes × Bytes) : Type 0 where
  pub whole : z.0 ++ z.1 ≡ text
  pub fits : length (z.0) ≤ room
  pub taken : IsText (z.0)
  pub left : IsText (z.1)

pub fgets-Taken : (room : ℕ) (text : Bytes) → IsText text → Taken room text (fgets room text)
unfolding fgets
fgets-Taken zero text t = record { whole = refl; fits = omega arith; taken = tt; left = t }
fgets-Taken (suc room) [] t = record { whole = refl; fits = omega arith; taken = tt; left = tt }
fgets-Taken (suc room) (zero ∷ cs) t = absurd t
fgets-Taken (suc room) (suc c ∷ cs) t = taken (suc c == 10) (fgets-Taken room cs t)
  where
    taken :
        (b : Bool)
        → Taken room cs (fgets room cs)
        → Taken
            (suc room)
            (suc c ∷ cs)
            (if b then (suc c ∷ [], cs) else (suc c ∷ (fgets room cs).0, (fgets room cs).1))
    taken true i = record { whole = refl; fits = omega arith; taken = tt; left = t }
    taken false i = record {
      whole = ap (◌∷◌ (suc c)) i.whole;
      fits = omega (arith, i.fits);
      taken = i.taken;
      left = i.left;
    }

pub fgets-takes : (room c : ℕ) (cs : Bytes) → 0 < length ((fgets (suc room) (c ∷ cs)).0)
unfolding fgets
fgets-takes room c cs = taken (c == 10)
  where
    taken :
        (b : Bool)
        → 0
          < length (
              (if◌then◌else◌ {A = Bytes × Bytes} b
                (c ∷ [], cs)
                (c ∷ (fgets room cs).0, (fgets room cs).1)).0)
    taken true = omega arith
    taken false = omega arith

pub append-IsText : (xs ys : Bytes) → IsText xs → IsText ys → IsText (xs ++ ys)
append-IsText [] ys t j = j
append-IsText (zero ∷ xs) ys t j = absurd t
append-IsText (suc c ∷ xs) ys t j = append-IsText xs ys t j

pub drop-IsText : (n : ℕ) (s : Bytes) → IsText s → IsText (drop n s)
drop-IsText zero s h = h
drop-IsText (suc n) [] h = tt
drop-IsText (suc n) (zero ∷ cs) h = absurd h
drop-IsText (suc n) (suc c ∷ cs) h = drop-IsText n cs h
