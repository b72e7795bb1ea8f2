-- ===== src/Prelude/Slices.antt =====
-- How `take`, `drop` and `++` interact: the laws by which a window of a block is read and written.
use Prim.Native.Nat.{ℕ, zero, suc, ◌+◌, ◌-◌, ◌≤◌, ◌<◌}
use mathlib.Core.Path.{◌≡◌, refl, sym, ap, ap₂, ◌∙◌}
use mathlib.Core.List.{List, [], ◌∷◌, ◌++◌}
use mathlib.Core.Option.{some}
use native.Mathlib.Omega.{arith}
use yolanda.Prelude.Lists.{length, get_elem?, set, take, drop, get_elem?-set_self, length-drop}

module _ {ℓ} {A : Type ℓ} where
  pub take-append-drop : (n : ℕ) (xs : List A) → take n xs ++ drop n xs ≡ xs
  take-append-drop zero xs = refl
  take-append-drop (suc n) [] = refl
  take-append-drop (suc n) (x ∷ xs) = ap (◌∷◌ x) (take-append-drop n xs)

  pub drop-append_le :
      (n : ℕ) (xs ys : List A) → n ≤ length xs → drop n (xs ++ ys) ≡ drop n xs ++ ys
  drop-append_le zero xs ys h = refl
  drop-append_le (suc n) [] ys h = absurd (omega arith)
  drop-append_le (suc n) (x ∷ xs) ys h = drop-append_le n xs ys (omega arith)

  pub take-append_le : (n : ℕ) (xs ys : List A) → n ≤ length xs → take n (xs ++ ys) ≡ take n xs
  take-append_le zero xs ys h = refl
  take-append_le (suc n) [] ys h = absurd (omega arith)
  take-append_le (suc n) (x ∷ xs) ys h = ap (◌∷◌ x) (take-append_le n xs ys (omega arith))

  pub drop-append_ge :
      (n : ℕ) (xs ys : List A) → length xs ≤ n → drop n (xs ++ ys) ≡ drop (n - length xs) ys
  drop-append_ge n [] ys h = ap (λ k. drop k ys) (omega arith)
  drop-append_ge zero (x ∷ xs) ys h = absurd (omega arith)
  drop-append_ge (suc n) (x ∷ xs) ys h =
      drop-append_ge n xs ys (omega arith) ∙ ap (λ k. drop k ys) (omega arith)

  pub take-append_ge :
      (n : ℕ) (xs ys : List A) → length xs ≤ n → take n (xs ++ ys) ≡ xs ++ take (n - length xs) ys
  take-append_ge n [] ys h = ap (λ k. take k ys) (omega arith)
  take-append_ge zero (x ∷ xs) ys h = absurd (omega arith)
  take-append_ge (suc n) (x ∷ xs) ys h =
      ap (◌∷◌ x) (take-append_ge n xs ys (omega arith) ∙ ap (λ k. xs ++ take k ys) (omega arith))

  pub take-of_ge : (n : ℕ) (xs : List A) → length xs ≤ n → take n xs ≡ xs
  take-of_ge zero [] h = refl
  take-of_ge zero (x ∷ xs) h = absurd (omega arith)
  take-of_ge (suc n) [] h = refl
  take-of_ge (suc n) (x ∷ xs) h = ap (◌∷◌ x) (take-of_ge n xs (omega arith))

  pub take-of_length : (n : ℕ) (xs : List A) → length xs ≡ n → take n xs ≡ xs
  take-of_length zero [] h = refl
  take-of_length zero (x ∷ xs) h = absurd (omega arith)
  take-of_length (suc n) [] h = refl
  take-of_length (suc n) (x ∷ xs) h = ap (◌∷◌ x) (take-of_length n xs (omega arith))

  pub take-append_length : (n : ℕ) (xs ys : List A) → length xs ≡ n → take n (xs ++ ys) ≡ xs
  take-append_length n xs ys h = take-append_le n xs ys (omega arith) ∙ take-of_length n xs h

  pub drop-append_length : (n : ℕ) (xs ys : List A) → length xs ≡ n → drop n (xs ++ ys) ≡ ys
  drop-append_length n xs ys h =
      drop-append_ge n xs ys (omega arith) ∙ ap (λ k. drop k ys) {y = 0} (omega arith)

  pub drop-take : (r n : ℕ) (xs : List A) → r ≤ n → drop r (take n xs) ≡ take (n - r) (drop r xs)
  drop-take zero n xs h = ap (λ k. take k xs) (omega arith)
  drop-take (suc r) zero xs h = absurd (omega arith)
  drop-take (suc r) (suc n) [] h = take-nil (suc n - suc r)
    where
      take-nil : (m : ℕ) → ◌≡◌ {A = List A} [] (take m [])
      take-nil zero = refl
      take-nil (suc m) = refl
  drop-take (suc r) (suc n) (x ∷ xs) h =
      drop-take r n xs (omega arith) ∙ ap (λ k. take k (drop r xs)) (omega arith)

  drop-nil : (n : ℕ) → ◌≡◌ {A = List A} [] (drop n [])
  drop-nil zero = refl
  drop-nil (suc n) = refl

  pub drop-drop : (m n : ℕ) (xs : List A) → drop m (drop n xs) ≡ drop (n + m) xs
  drop-drop m zero xs = ap (λ k. drop k xs) (omega arith)
  drop-drop zero (suc n) [] = drop-nil (suc n + 0)
  drop-drop (suc m) (suc n) [] = drop-nil (suc n + suc m)
  drop-drop m (suc n) (x ∷ xs) =
      drop-drop m n xs ∙ ap (λ k. drop k (x ∷ xs)) {x = suc (n + m)} (omega arith)

  pub get_elem?-drop : (i n : ℕ) (xs : List A) → get_elem? (drop n xs) i ≡ get_elem? xs (n + i)
  get_elem?-drop i zero xs = ap (get_elem? xs) (omega arith)
  get_elem?-drop i (suc n) [] = refl
  get_elem?-drop i (suc n) (x ∷ xs) =
      get_elem?-drop i n xs ∙ ap (get_elem? (x ∷ xs)) {x = suc (n + i)} (omega arith)

  pub take-suc :
      (i : ℕ) (xs : List A) (v : A)
      → get_elem? xs i ≡ some v
      → take (suc i) xs ≡ take i xs ++ (v ∷ [])
  take-suc i [] v h = cc
  take-suc zero (x ∷ xs) v h = ground arith
  take-suc (suc i) (x ∷ xs) v h = ap (◌∷◌ x) (take-suc i xs v h)

  pub drop-cons :
      (i : ℕ) (xs : List A) (v : A) → get_elem? xs i ≡ some v → drop i xs ≡ v ∷ drop (suc i) xs
  drop-cons i [] v h = cc
  drop-cons zero (x ∷ xs) v h = ground arith
  drop-cons (suc i) (x ∷ xs) v h = drop-cons i xs v h

  pub take-set : (i : ℕ) (xs : List A) (v : A) → take i (set xs i v) ≡ take i xs
  take-set i [] v = refl
  take-set zero (x ∷ xs) v = refl
  take-set (suc i) (x ∷ xs) v = ap (◌∷◌ x) (take-set i xs v)

  pub take-set_later : (i j : ℕ) (xs : List A) (v : A) → i ≤ j → take i (set xs j v) ≡ take i xs
  take-set_later zero j xs v h = refl
  take-set_later (suc i) j [] v h = refl
  take-set_later (suc i) zero (x ∷ xs) v h = absurd (omega arith)
  take-set_later (suc i) (suc j) (x ∷ xs) v h = ap (◌∷◌ x) (take-set_later i j xs v (omega arith))

  pub drop-set : (i : ℕ) (xs : List A) (v : A) → drop (suc i) (set xs i v) ≡ drop (suc i) xs
  drop-set i [] v = refl
  drop-set zero (x ∷ xs) v = refl
  drop-set (suc i) (x ∷ xs) v = drop-set i xs v

  -- The element behind the first ones.
  pub get_elem?-append_length :
      (xs : List A) (y : A) (ys : List A) → get_elem? (xs ++ y ∷ ys) (length xs) ≡ some y
  get_elem?-append_length [] y ys = refl
  get_elem?-append_length (x ∷ xs) y ys = get_elem?-append_length xs y ys

  pub set-append_length :
      (xs : List A) (y : A) (ys : List A) (v : A) → set (xs ++ y ∷ ys) (length xs) v ≡ xs ++ v ∷ ys
  set-append_length [] y ys v = refl
  set-append_length (x ∷ xs) y ys v = ap (◌∷◌ x) (set-append_length xs y ys v)

  pub set-eq :
      (i : ℕ) (xs : List A) (v : A)
      → i + 1 ≤ length xs
      → set xs i v ≡ take i xs ++ (v ∷ drop (i + 1) xs)
  set-eq i [] v h = absurd (omega arith)
  set-eq zero (x ∷ xs) v h = ap (λ k. v ∷ drop k (x ∷ xs)) {x = 1} {y = 0 + 1} (omega arith)
  set-eq (suc i) (x ∷ xs) v h = ap (◌∷◌ x) (
      set-eq i xs v (omega arith)
      ∙ ap (λ k. take i xs ++ (v ∷ drop k (x ∷ xs))) {x = suc (i + 1)} (omega arith))

  pub drop-set_later :
      (r i : ℕ) (xs : List A) (v : A) → r ≤ i → drop r (set xs i v) ≡ set (drop r xs) (i - r) v
  drop-set_later zero i xs v h = ap (λ k. set xs k v) (omega arith)
  drop-set_later (suc r) i [] v h = refl
  drop-set_later (suc r) zero (x ∷ xs) v h = absurd (omega arith)
  drop-set_later (suc r) (suc i) (x ∷ xs) v h =
      drop-set_later r i xs v (omega arith) ∙ ap (λ k. set (drop r xs) k v) (omega arith)

  -- Writing the first element behind a window extends the window by it.
  pub window-set_next :
      (r w : ℕ) (xs : List A) (v : A)
      → r ≤ w
      → w < length xs
      → take (w + 1 - r) (drop r (set xs w v)) ≡ take (w - r) (drop r xs) ++ (v ∷ [])
  window-set_next r w xs v h k =
      ap₂ take {x = w + 1 - r} {y = suc (w - r)} (omega arith) (drop-set_later r w xs v h)
      ∙ take-suc (w - r) (set (drop r xs) (w - r) v) v
          (get_elem?-set_self (drop r xs) (w - r) v (omega (arith, length-drop r xs)))
      ∙ ap (λ ys. ys ++ (v ∷ [])) (take-set (w - r) (drop r xs) v)

  pub take-take : (m n : ℕ) (xs : List A) → m ≤ n → take m (take n xs) ≡ take m xs
  take-take zero n xs h = refl
  take-take (suc m) zero xs h = absurd (omega arith)
  take-take (suc m) (suc n) [] h = refl
  take-take (suc m) (suc n) (x ∷ xs) h = ap (◌∷◌ x) (take-take m n xs (omega arith))

  -- Moving the start of a window on by n drops n elements from it.
  pub window-advance :
      (r w n : ℕ) (xs : List A)
      → n ≤ w - r
      → take (w - (r + n)) (drop (r + n) xs) ≡ drop n (take (w - r) (drop r xs))
  window-advance r w n xs h =
      ap₂ take {x = w - (r + n)} (omega arith) (sym (drop-drop n r xs))
      ∙ sym (drop-take n (w - r) (drop r xs) h)
