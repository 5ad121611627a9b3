-- ===== src/Prelude/Lists.antt =====
-- Lists measured and indexed by native numbers, under the library's names.
use Prim.Native.Nat.{ℕ, zero, suc, ◌+◌, ◌-◌, ◌≤◌, min}
use mathlib.Core.Path.{◌≡◌, refl, ap, ◌∙◌}
use mathlib.Core.List.{List, [], ◌∷◌, ◌++◌}
use mathlib.Core.Option.{Option, none, some}
use native.Mathlib.Omega.{arith}

module _ {ℓ} {A : Type ℓ} where
  abbrev pub length : List A → ℕ
  length [] = 0
  length (x ∷ xs) = suc (length xs)

  abbrev pub get_elem? : List A → ℕ → Option A
  get_elem? [] i = none
  get_elem? (x ∷ xs) zero = some x
  get_elem? (x ∷ xs) (suc i) = get_elem? xs i

  abbrev pub take : ℕ → List A → List A
  take zero xs = []
  take (suc n) [] = []
  take (suc n) (x ∷ xs) = x ∷ take n xs

  abbrev pub drop : ℕ → List A → List A
  drop zero xs = xs
  drop (suc n) [] = []
  drop (suc n) (x ∷ xs) = drop n xs

  abbrev pub replicate : ℕ → A → List A
  replicate zero a = []
  replicate (suc n) a = a ∷ replicate n a

module _ {ℓ} {A : Type ℓ} where
  pub length-append : (xs ys : List A) → length (xs ++ ys) ≡ length xs + length ys
  length-append [] ys = omega arith
  length-append (x ∷ xs) ys = omega (arith, length-append xs ys)

  pub length-take : (n : ℕ) (xs : List A) → length (take n xs) ≡ min n (length xs)
  length-take zero xs = omega arith
  length-take (suc n) [] = omega arith
  length-take (suc n) (x ∷ xs) = omega (arith, length-take n xs)

  pub length-drop : (n : ℕ) (xs : List A) → length (drop n xs) ≡ length xs - n
  length-drop zero xs = omega arith
  length-drop (suc n) [] = omega arith
  length-drop (suc n) (x ∷ xs) = omega (arith, length-drop n xs)

  pub length-replicate : (n : ℕ) (a : A) → length (replicate n a) ≡ n
  length-replicate zero a = refl
  length-replicate (suc n) a = ap suc (length-replicate n a)

  pub take-append-drop : (n : ℕ) (xs : List A) → take n xs ++ drop n xs ≡ xs
  take-append-drop zero xs = refl
  take-append-drop (suc n) [] = refl
  take-append-drop (suc n) (x ∷ xs) = rw (take-append-drop n xs)

  -- A cut at the seam of two lists.
  pub take-append : (n : ℕ) (xs ys : List A) → n ≡ length xs → take n (xs ++ ys) ≡ xs
  take-append zero [] ys e = refl
  take-append (suc n) [] ys e = absurd (omega arith)
  take-append zero (x ∷ xs) ys e = absurd (omega arith)
  take-append (suc n) (x ∷ xs) ys e = ap (λ t. x ∷ t) (take-append n xs ys (omega arith))

  pub drop-append : (n : ℕ) (xs ys : List A) → n ≡ length xs → drop n (xs ++ ys) ≡ ys
  drop-append zero [] ys e = refl
  drop-append (suc n) [] ys e = absurd (omega arith)
  drop-append zero (x ∷ xs) ys e = absurd (omega arith)
  drop-append (suc n) (x ∷ xs) ys e = drop-append n xs ys (omega arith)

  pub get_elem?-append :
      (i : ℕ) (xs : List A) (y : A) (ys : List A)
      → i ≡ length xs
      → get_elem? (xs ++ y ∷ ys) i ≡ some y
  get_elem?-append zero [] y ys e = refl
  get_elem?-append (suc i) [] y ys e = absurd (omega arith)
  get_elem?-append zero (x ∷ xs) y ys e = absurd (omega arith)
  get_elem?-append (suc i) (x ∷ xs) y ys e = get_elem?-append i xs y ys (omega arith)

  pub take_all : (n : ℕ) (xs : List A) → length xs ≤ n → take n xs ≡ xs
  take_all zero [] h = refl
  take_all (suc n) [] h = refl
  take_all zero (x ∷ xs) h = absurd (omega arith)
  take_all (suc n) (x ∷ xs) h = ap (λ t. x ∷ t) (take_all n xs (omega arith))

  -- Reads behind a prefix.
  pub get_elem?-shift :
      (i k : ℕ) (xs ys : List A) → i ≡ length xs + k → get_elem? (xs ++ ys) i ≡ get_elem? ys k
  get_elem?-shift i k [] ys e = ap (get_elem? ys) (omega arith)
  get_elem?-shift zero k (x ∷ xs) ys e = absurd (omega arith)
  get_elem?-shift (suc i) k (x ∷ xs) ys e = get_elem?-shift i k xs ys (omega arith)

  pub drop-shift : (i k : ℕ) (xs ys : List A) → i ≡ length xs + k → drop i (xs ++ ys) ≡ drop k ys
  drop-shift i k [] ys e = ap (λ j. drop j ys) (omega arith)
  drop-shift zero k (x ∷ xs) ys e = absurd (omega arith)
  drop-shift (suc i) k (x ∷ xs) ys e = drop-shift i k xs ys (omega arith)

  -- A prefix that crosses the seam of two lists.
  pub take-cross :
      (n : ℕ) (xs ys : List A) → take n (xs ++ ys) ≡ take n xs ++ take (n - length (take n xs)) ys
  take-cross zero [] ys = refl
  take-cross zero (x ∷ xs) ys = refl
  take-cross (suc n) [] ys = ap (λ k. take k ys) {x = suc n} {y = suc n - 0} (omega arith)
  take-cross (suc n) (x ∷ xs) ys =
      ap (λ t. x ∷ t)
        (take-cross n xs ys
          ∙ ap (λ k. take n xs ++ take k ys) {x = n - length (take n xs)}
              {y = suc n - suc (length (take n xs))} (omega arith))

  pub drop-cross :
      (n : ℕ) (xs ys : List A) → drop n (xs ++ ys) ≡ drop n xs ++ drop (n - length (take n xs)) ys
  drop-cross zero [] ys = refl
  drop-cross zero (x ∷ xs) ys = refl
  drop-cross (suc n) [] ys = ap (λ k. drop k ys) {x = suc n} {y = suc n - 0} (omega arith)
  drop-cross (suc n) (x ∷ xs) ys =
      drop-cross n xs ys
      ∙ ap (λ k. drop n xs ++ drop k ys) {x = n - length (take n xs)}
          {y = suc n - suc (length (take n xs))} (omega arith)

  pub nil_of_length : (xs : List A) → length xs ≡ 0 → xs ≡ []
  nil_of_length [] h = refl
  nil_of_length (x ∷ xs) h = absurd (omega arith)

  pub get_elem?-some :
      (i : ℕ) (xs : List A) → suc i ≤ length xs → (x : A) × (get_elem? xs i ≡ some x)
  get_elem?-some i [] h = absurd (omega arith)
  get_elem?-some zero (x ∷ xs) h = (x, refl)
  get_elem?-some (suc i) (x ∷ xs) h = get_elem?-some i xs (omega arith)
