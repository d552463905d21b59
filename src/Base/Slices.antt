-- ===== src/Base/Slices.antt =====
-- Prefixes, suffixes and blocks of copied cells.
use Prim.Native.Nat.{ℕ, zero, suc, ◌+◌, ◌-◌, ◌≤◌, ◌<◌, min}
use mathlib.Core.Path.{◌≡◌, refl, ap}
use mathlib.Core.List.{List, [], ◌∷◌, ◌++◌}
use native.Mathlib.Omega.{arith}
use eq_data_patcher.Base.Lists.{length, get_elem?, get_or, set}

module _ {ℓ} {A : Type ℓ} where
  abbrev pub take : ℕ → List A → List A
  take zero xs = []
  take (suc n) [] = []
  take (suc n) (x ∷ xs) = x ∷ take n xs

  abbrev pub drop : ℕ → List A → List A
  drop zero xs = xs
  drop (suc n) [] = []
  drop (suc n) (x ∷ xs) = drop n xs

  abbrev pub replicate : ℕ → A → List A
  replicate zero a = []
  replicate (suc n) a = a ∷ replicate n a

  -- `memcpy` of the cells `vs` to index `i`: what falls outside is not written.
  abbrev pub splice : List A → ℕ → List A → List A
  splice [] i vs = []
  splice (x ∷ xs) zero [] = x ∷ xs
  splice (x ∷ xs) zero (v ∷ vs) = v ∷ splice xs zero vs
  splice (x ∷ xs) (suc i) vs = x ∷ splice xs i vs

  pub length-splice : (xs : List A) (i : ℕ) (vs : List A) → length (splice xs i vs) ≡ length xs
  length-splice [] i vs = refl
  length-splice (x ∷ xs) zero [] = refl
  length-splice (x ∷ xs) zero (v ∷ vs) = ap suc (length-splice xs zero vs)
  length-splice (x ∷ xs) (suc i) vs = ap suc (length-splice xs i vs)

  pub take-append-drop : (n : ℕ) (xs : List A) → take n xs ++ drop n xs ≡ xs
  take-append-drop zero xs = refl
  take-append-drop (suc n) [] = refl
  take-append-drop (suc n) (x ∷ xs) = ap (◌∷◌ x) (take-append-drop n xs)

  pub length-take : (n : ℕ) (xs : List A) → length (take n xs) ≡ min n (length xs)
  length-take zero xs = omega arith
  length-take (suc n) [] = omega arith
  length-take (suc n) (x ∷ xs) = omega (arith, length-take n xs)

  pub length-drop : (n : ℕ) (xs : List A) → length (drop n xs) ≡ length xs - n
  length-drop zero xs = omega arith
  length-drop (suc n) [] = omega arith
  length-drop (suc n) (x ∷ xs) = omega (arith, length-drop n xs)

  pub length-replicate : (n : ℕ) (a : A) → length (replicate n a) ≡ n
  length-replicate zero a = refl
  length-replicate (suc n) a = ap suc (length-replicate n a)

  pub take-append : (n : ℕ) (xs ys : List A) → n ≤ length xs → take n (xs ++ ys) ≡ take n xs
  take-append zero xs ys h = refl
  take-append (suc n) [] ys h = absurd (omega arith)
  take-append (suc n) (x ∷ xs) ys h = ap (◌∷◌ x) (take-append n xs ys (omega arith))

  pub take_all : (n : ℕ) (xs : List A) → length xs ≤ n → take n xs ≡ xs
  take_all zero [] h = refl
  take_all zero (x ∷ xs) h = absurd (omega arith)
  take_all (suc n) [] h = refl
  take_all (suc n) (x ∷ xs) h = ap (◌∷◌ x) (take_all n xs (omega arith))

  pub take-take : (m n : ℕ) (xs : List A) → m ≤ n → take m (take n xs) ≡ take m xs
  take-take zero n xs h = refl
  take-take (suc m) zero xs h = absurd (omega arith)
  take-take (suc m) (suc n) [] h = refl
  take-take (suc m) (suc n) (x ∷ xs) h = ap (◌∷◌ x) (take-take m n xs (omega arith))

  pub get_or-take :
      (n : ℕ) (xs : List A) (i : ℕ) (d : A) → i < n → get_or (take n xs) i d ≡ get_or xs i d
  get_or-take zero xs i d h = absurd (omega arith)
  get_or-take (suc n) [] i d h = refl
  get_or-take (suc n) (x ∷ xs) zero d h = refl
  get_or-take (suc n) (x ∷ xs) (suc i) d h = get_or-take n xs i d (omega arith)

  pub get_elem?-take :
      (n : ℕ) (xs : List A) (i : ℕ) → i < n → get_elem? (take n xs) i ≡ get_elem? xs i
  get_elem?-take zero xs i h = absurd (omega arith)
  get_elem?-take (suc n) [] i h = refl
  get_elem?-take (suc n) (x ∷ xs) zero h = refl
  get_elem?-take (suc n) (x ∷ xs) (suc i) h = get_elem?-take n xs i (omega arith)

  pub take-set : (n : ℕ) (xs : List A) (i : ℕ) (v : A) → take n (set xs i v) ≡ set (take n xs) i v
  take-set zero xs i v = refl
  take-set (suc n) [] i v = refl
  take-set (suc n) (x ∷ xs) zero v = refl
  take-set (suc n) (x ∷ xs) (suc i) v = ap (◌∷◌ x) (take-set n xs i v)

  pub set_past : (xs : List A) (i : ℕ) (v : A) → length xs ≤ i → set xs i v ≡ xs
  set_past [] i v h = refl
  set_past (x ∷ xs) zero v h = absurd (omega arith)
  set_past (x ∷ xs) (suc i) v h = ap (◌∷◌ x) (set_past xs i v (omega arith))

  -- Writing the cell behind a prefix extends it.
  pub take-suc-set :
      (n : ℕ) (xs : List A) (v : A)
      → n < length xs
      → take (suc n) (set xs n v) ≡ take n xs ++ v ∷ []
  take-suc-set n [] v h = absurd (omega arith)
  take-suc-set zero (x ∷ xs) v h = refl
  take-suc-set (suc n) (x ∷ xs) v h = ap (◌∷◌ x) (take-suc-set n xs v (omega arith))

  -- So does writing a block behind it.
  pub take-splice :
      (n : ℕ) (xs vs : List A) (m : ℕ)
      → m ≡ n + length vs
      → m ≤ length xs
      → take m (splice xs n vs) ≡ take n xs ++ vs
  take-splice zero [] [] m e h = let e' : m ≡ 0 = omega arith in rw e'
  take-splice zero [] (v ∷ vs) m e h = absurd (omega arith)
  take-splice zero (x ∷ xs) [] m e h = let e' : m ≡ 0 = omega arith in rw e'
  take-splice zero (x ∷ xs) (v ∷ vs) zero e h = absurd (omega arith)
  take-splice zero (x ∷ xs) (v ∷ vs) (suc m) e h =
      ap (◌∷◌ v) (take-splice zero xs vs m (omega arith) (omega arith))
  take-splice (suc n) [] vs m e h = absurd (omega arith)
  take-splice (suc n) (x ∷ xs) vs zero e h = absurd (omega arith)
  take-splice (suc n) (x ∷ xs) vs (suc m) e h =
      ap (◌∷◌ x) (take-splice n xs vs m (omega arith) (omega arith))

  pub take-splice_before : (n : ℕ) (xs vs : List A) → take n (splice xs n vs) ≡ take n xs
  take-splice_before zero xs vs = refl
  take-splice_before (suc n) [] vs = refl
  take-splice_before (suc n) (x ∷ xs) vs = ap (◌∷◌ x) (take-splice_before n xs vs)
