-- ===== src/Bytes.antt =====
-- 32-bit numbers in memory and in files, as the C structs of src/pfs.c and src/bin.c store them on a
-- little-endian machine. A read past the end of a block, which C leaves open, gives 0 here.
use eq_data_patcher.Base.{
  ℕ, zero, suc, ◌+◌, ◌*◌, ◌/◌, ◌%◌, ◌^◌, ◌<◌, ◌≡◌, refl, ap, arith, List, [], ◌∷◌, ◌++◌, length,
  get_or, take, drop, if◌then◌else◌, append_assoc, append-nil, inl, inr, sym, ◌⊎◌, Bool-cases, ◌==◌,
  ◌∙◌, take-append-drop,
}
use eq_data_patcher.Err.{Err, none_err, file_operation}

-- The bytes of a `uint32_t`.
abbrev pub le32 : ℕ → List ℕ
le32 n = n % 256 ∷ n / 256 % 256 ∷ n / 65536 % 256 ∷ n / 16777216 % 256 ∷ []

-- `*(uint32_t*)(data + p)`
unfoldable pub read32 : List ℕ → ℕ → ℕ
read32 bytes p =
    get_or bytes p 0
    + get_or bytes (p + 1) 0 * 256
    + get_or bytes (p + 2) 0 * 65536
    + get_or bytes (p + 3) 0 * 16777216

-- A chain of `fwrite`s: the code, and what stands in the file afterwards. `writes k n` is how many
-- of its `n` bytes the one with number `k` writes; one that writes fewer ends the chain.
unfoldable pub write_all : (ℕ → ℕ → ℕ) → ℕ → List (List ℕ) → List ℕ → Err × List ℕ
write_all writes k [] file = (none_err, file)
write_all writes k (block ∷ blocks) file =
    let rest = write_all writes (k + 1) blocks (file ++ block) in
    let written = writes k (length block) in
    if written == length block then rest else (file_operation, file ++ take written block)

-- The blocks one behind the other.
abbrev pub joined : List (List ℕ) → List ℕ
joined [] = []
joined (block ∷ blocks) = block ++ joined blocks

-- All of the image, or a front of it.
abbrev pub Written : List ℕ → Err × List ℕ → Type 0
Written image r =
    let (rc, file) = r in
    ((rc ≡ none_err) × (file ≡ image))
    ⊎ ((rc ≡ file_operation) × ((back : List ℕ) × (file ++ back ≡ image)))

pub write_all_lem :
    (writes : ℕ → ℕ → ℕ) (k : ℕ) (blocks : List (List ℕ)) (file : List ℕ)
    → Written (file ++ joined blocks) (write_all writes k blocks file)
unfolding write_all
write_all_lem writes k [] file = inl (refl, sym (append-nil file))
write_all_lem writes k (block ∷ blocks) file =
    elim (Bool-cases (writes k (length block) == length block)) [
      | inr fails ↦
          let n = writes k (length block) in
          rw fails (
            inr (
              refl,
              (
                drop n block ++ joined blocks,
                append_assoc file (take n block) (drop n block ++ joined blocks)
                    ∙ ap (◌++◌ file) (
                        sym (append_assoc (take n block) (drop n block) (joined blocks))
                        ∙ ap (λ t. t ++ joined blocks) (take-append-drop n block)),
              ),
            ))
      | inl works ↦
          rw (works, sym (append_assoc file block (joined blocks)))
            (write_all_lem writes (k + 1) blocks (file ++ block))
    ]

module _ {A : Type 0} where
  pub get_or-append :
      (xs ys : List A) (i k : ℕ) (d : A) → k ≡ length xs + i → get_or (xs ++ ys) k d ≡ get_or ys i d
  get_or-append [] ys i k d e = ap (λ j. get_or ys j d) {y = i} (omega arith)
  get_or-append (x ∷ xs) ys i zero d e = absurd (omega arith)
  get_or-append (x ∷ xs) ys i (suc k) d e = get_or-append xs ys i k d (omega arith)

  pub drop-append : (xs ys : List A) (i k : ℕ) → k ≡ length xs + i → drop k (xs ++ ys) ≡ drop i ys
  drop-append [] ys i k e = ap (λ j. drop j ys) {y = i} (omega arith)
  drop-append (x ∷ xs) ys i zero e = absurd (omega arith)
  drop-append (x ∷ xs) ys i (suc k) e = drop-append xs ys i k (omega arith)

  pub take-append_exact : (xs ys : List A) → take (length xs) (xs ++ ys) ≡ xs
  take-append_exact [] ys = refl
  take-append_exact (x ∷ xs) ys = ap (◌∷◌ x) (take-append_exact xs ys)

  pub get_or-drop :
      (p : ℕ) (xs : List A) (i k : ℕ) (d : A) → k ≡ p + i → get_or (drop p xs) i d ≡ get_or xs k d
  get_or-drop zero xs i k d e = ap (λ j. get_or xs j d) {y = k} (omega arith)
  get_or-drop (suc p) [] i k d e = refl
  get_or-drop (suc p) (x ∷ xs) i zero d e = absurd (omega arith)
  get_or-drop (suc p) (x ∷ xs) i (suc k) d e = get_or-drop p xs i k d (omega arith)

  drop_nil : (k : ℕ) → ◌≡◌ {A = List A} [] (drop k [])
  drop_nil zero = refl
  drop_nil (suc k) = refl

  pub drop-drop : (p i k : ℕ) (xs : List A) → k ≡ p + i → drop i (drop p xs) ≡ drop k xs
  drop-drop zero i k xs e = ap (λ j. drop j xs) {y = k} (omega arith)
  drop-drop (suc p) zero k [] e = drop_nil k
  drop-drop (suc p) (suc i) k [] e = drop_nil k
  drop-drop (suc p) i zero (x ∷ xs) e = absurd (omega arith)
  drop-drop (suc p) i (suc k) (x ∷ xs) e = drop-drop p i k xs (omega arith)

pub read32-append :
    (xs ys : List ℕ) (i k : ℕ) → k ≡ length xs + i → read32 (xs ++ ys) k ≡ read32 ys i
unfolding read32
read32-append xs ys i k e = omega (
  arith,
  get_or-append xs ys i k 0 e,
  get_or-append xs ys (i + 1) (k + 1) 0 (omega arith),
  get_or-append xs ys (i + 2) (k + 2) 0 (omega arith),
  get_or-append xs ys (i + 3) (k + 3) 0 (omega arith),
)

pub read32-drop : (p : ℕ) (xs : List ℕ) (i k : ℕ) → k ≡ p + i → read32 (drop p xs) i ≡ read32 xs k
unfolding read32
read32-drop p xs i k e = omega (
  arith,
  get_or-drop p xs i k 0 e,
  get_or-drop p xs (i + 1) (k + 1) 0 (omega arith),
  get_or-drop p xs (i + 2) (k + 2) 0 (omega arith),
  get_or-drop p xs (i + 3) (k + 3) 0 (omega arith),
)

-- What was stored is read back.
pub read32-le32 : (n : ℕ) (ys : List ℕ) → n < 2 ^ 32 → read32 (le32 n ++ ys) 0 ≡ n
unfolding read32
read32-le32 n ys small = omega arith

-- So is the second of two numbers.
pub read32-second : (m n : ℕ) (ys : List ℕ) → n < 2 ^ 32 → read32 (le32 m ++ le32 n ++ ys) 4 ≡ n
unfolding read32
read32-second m n ys small = omega arith
