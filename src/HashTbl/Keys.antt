-- ===== src/HashTbl/Keys.antt =====
-- The keys of src/edp_hash_tbl.c's tables: which entries have the key that a caller passes.
use eq_data_patcher.Base.{
  ◌⊎◌, ◌≢◌, ℕ, ◌≤◌, ◌≡◌, ◌≢◌, ◌∙◌, sym, refl, ap, inl, inr, arith, Bool, false, true, ◌&&◌, ◌==◌,
  ==_iff, List, [], ◌∷◌, length, length-take, take, Bool-cases, set,
}
use eq_data_patcher.HashTbl.{
  EntKey, raw, copy, Key, int_key, str_key, Entry, next_invalid, key_is_zero, key_is_int,
  same_bytes, c_str, same_flag, same_head, begins_key, ent_at, ent_insert, set_next,
}
use eq_data_patcher.HashTbl.Place.{is_key, put_at}
use eq_data_patcher.HashTbl.Api.{begins}
use eq_data_patcher.HashTbl.Lookup.{IsWhole, c_str_twice, equals_key-eq-begins_key}
use eq_data_patcher.HashTbl.Fresh.{IsStorable, same_bytes_refl}
use eq_data_patcher.HashTbl.Chain.Block.{write_at}

-- The key as an entry holds it.
abbrev pub key_of : Key → EntKey
key_of (int_key n) = raw n
key_of (str_key text len) = copy (take len text)

-- An entry with the key is not taken for an empty one: the key is a text, or the number or the
-- hash is not 0.
abbrev pub IsKey : Key → ℕ → Type 0
IsKey key hash = (key_is_zero (key_of key) && hash == 0) ≡ false

-- The text has as many bytes as the length says, and no null byte is among them.
abbrev pub IsText : Key → Type 0
IsText (int_key n) = n ≡ n
IsText (str_key text len) = (len ≤ length text) × (c_str (take len text) ≡ take len text)

pub IsStorable-IsText :
    (grant : ℕ → Bool) (key : Key) → IsStorable grant key → IsWhole key → IsText key
IsStorable-IsText grant (int_key n) s w = refl
IsStorable-IsText grant (str_key text len) s w = (s.0, sym (ap c_str w) ∙ c_str_twice text ∙ w)

c_str_le : (t : List ℕ) → length (c_str t) ≤ length t
c_str_le [] = omega arith
c_str_le (c ∷ cs) = elim (Bool-cases (c == 0)) [
  | inl ends ↦ rw ends (omega arith)
  | inr more ↦ rw more (omega (arith, c_str_le cs))
]

-- A text that is as long up to its null byte has none.
c_str_full : (t : List ℕ) → length (c_str t) ≡ length t → c_str t ≡ t
c_str_full [] h = refl
c_str_full (c ∷ cs) h = elim (Bool-cases (c == 0)) [
  | inl ends ↦ absurd (omega (arith, rw ends at h))
  | inr more ↦ rw more (ap (◌∷◌ c) (c_str_full cs (omega (arith, rw more at h))))
]

same_bytes-eq : (s t : List ℕ) → same_bytes s t ≡ true → s ≡ t
unfolding same_bytes
same_bytes-eq [] [] h = refl
same_bytes-eq [] (y ∷ t) h = ground (arith, h)
same_bytes-eq (x ∷ s) [] h = ground (arith, h)
same_bytes-eq (x ∷ s) (y ∷ t) h = elim (Bool-cases (x == y)) [
  | inl same ↦
      let rest = rw same at h in
      ap (λ z. z ∷ s) ((==_iff x y).0 same) ∙ ap (◌∷◌ y) (same_bytes-eq s t rest)
  | inr other ↦ ground (arith, rw other at h)
]

same_bytes-refuted : (s t : List ℕ) → same_bytes s t ≡ false → s ≢ t
same_bytes-refuted s t h q = ground (arith, h, ap (same_bytes s) (sym q) ∙ same_bytes_refl s)

-- To split on whether two texts are one.
pub same_bytes-cases : (s t : List ℕ) → (s ≡ t) ⊎ (s ≢ t)
same_bytes-cases s t = elim (Bool-cases (same_bytes s t)) [
  | inl same ↦ inl (same_bytes-eq s t same)
  | inr other ↦ inr (same_bytes-refuted s t other)
]

and_parts : (a b : Bool) → (a && b) ≡ true → (a ≡ true) × (b ≡ true)
and_parts true b h = (refl, h)
and_parts false b h = ground (arith, h)

same_flag_eq : (a b : Bool) → same_flag a b ≡ true → a ≡ b
same_flag_eq true true h = refl
same_flag_eq true false h = ground (arith, h)
same_flag_eq false true h = ground (arith, h)
same_flag_eq false false h = refl

same_flag_refl : (a : Bool) → same_flag a a ≡ true
same_flag_refl true = refl
same_flag_refl false = refl

begins_key-eq : (k : EntKey) (key : Key) → IsText key → begins_key k key ≡ true → k ≡ key_of key
unfolding begins_key
begins_key-eq (raw n) (int_key k) w h = ap raw ((==_iff n k).0 h)
begins_key-eq (raw n) (str_key t len) w h = ground (arith, h)
begins_key-eq (copy s) (int_key k) w h = ground (arith, h)
begins_key-eq (copy s) (str_key t len) (within, clean) h =
    let (a, b) = and_parts (length s == len) (same_bytes (c_str s) (c_str (take len t))) h in
    let same : c_str s ≡ take len t = same_bytes-eq (c_str s) (c_str (take len t)) b ∙ clean in
    let size : length s ≡ len = (==_iff (length s) len).0 a in
    let full = c_str_full s (ap length same ∙ omega (arith, length-take len t, within, size)) in
    ap copy (sym full ∙ same)

begins_key_of : (key : Key) → IsText key → begins_key (key_of key) key ≡ true
unfolding begins_key
begins_key_of (int_key n) w = (==_iff n n).1 refl
begins_key_of (str_key t len) w =
    let same : length (take len t) ≡ len = omega (arith, length-take len t, w.0) in
    rw (same, (==_iff len len).1 refl) (same_bytes_refl (c_str (take len t)))

module _ {V : Type 0} where
  -- The entry has that hash and key.
  abbrev pub Matches : Entry V → Key → ℕ → Type 0
  Matches e key hash = (e.hash ≡ hash) × (e.key ≡ key_of key) × (e.is_int ≡ key_is_int key)

  -- What `ent_insert` writes, linked to none.
  abbrev pub fresh : Key → V → ℕ → Entry V
  fresh key value hash = record {
    key = key_of key;
    hash = hash;
    next = next_invalid;
    is_int = key_is_int key;
    value = value;
  }

module _ {V : Type 0} (blank : V) where
  pub begins-Matches :
      (key : Key) (hash : ℕ) (e : Entry V)
      → IsText key
      → begins blank key hash e ≡ true
      → Matches e key hash
  begins-Matches key hash e text h =
      let (head, k) = and_parts (same_head e key hash) (begins_key e.key key) h in
      let (a, b) = and_parts (e.hash == hash) (same_flag e.is_int (key_is_int key)) head in
      (
        (==_iff e.hash hash).0 a,
        begins_key-eq e.key key text k,
        same_flag_eq e.is_int (key_is_int key) b,
      )

  pub Matches-begins :
      (key : Key) (hash : ℕ) (e : Entry V)
      → IsText key
      → Matches e key hash
      → begins blank key hash e ≡ true
  Matches-begins key hash e w (a, b, c) =
      rw (a, b, c)
        (rw ((==_iff hash hash).1 refl, same_flag_refl (key_is_int key)) (begins_key_of key w))

  -- For a whole text the two tests agree.
  pub is_key-eq-begins :
      (key : Key) (hash : ℕ) (e : Entry V)
      → IsWhole key
      → is_key key hash e ≡ begins blank key hash e
  is_key-eq-begins key hash e whole =
      ap (◌&&◌ (same_head e key hash)) (equals_key-eq-begins_key e.key key whole)

module _ {V : Type 0} (grant : ℕ → Bool) (blank : V) where
  ent_insert-fresh :
      (e : Entry V) (key : Key) (value : V) (hash : ℕ)
      → IsStorable grant key
      → (ent_insert grant e key value hash).1 ≡ set_next e.next (fresh key value hash)
  unfolding ent_insert
  ent_insert-fresh e (int_key n) value hash s = refl
  ent_insert-fresh e (str_key text len) value hash s = rw s.1 refl

  pub put_at-fresh :
      (slots : List (Entry V)) (i : ℕ) (key : Key) (value : V) (hash : ℕ)
      → IsStorable grant key
      → put_at grant blank slots i key value hash ≡ write_at blank slots i (fresh key value hash)
  put_at-fresh slots i key value hash s =
      ap (set slots i) (ent_insert-fresh (ent_at blank slots i) key value hash s)
