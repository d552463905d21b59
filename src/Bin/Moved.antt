-- ===== src/Bin/Moved.antt =====
-- src/bin.c, the loop of `bin_create` that moves the offsets.
use eq_data_patcher.Base.{
  ℕ, zero, suc, ◌+◌, ◌≤◌, ◌<◌, ◌≡◌, ◌∙◌, sym, ap, refl, arith, Bool, none, some, List, [], ◌∷◌,
  ◌++◌, append_assoc, append-nil, get_elem?, set, length, length-set, length-append, take-set,
}
use eq_data_patcher.Array
use eq_data_patcher.Array.{Array}
use eq_data_patcher.Array.Inv.{IsValid, items}
use eq_data_patcher.Array.Items.{get_raw-items}
use eq_data_patcher.Bin.{BinSubHeader, correct}
use eq_data_patcher.Bin.Leads.{moved, all_moved}

module _ {A : Type 0} where
  get_elem?-middle :
      (xs ys : List A) (x : A) (i : ℕ) → i ≡ length xs → get_elem? (xs ++ x ∷ ys) i ≡ some x
  get_elem?-middle [] ys x zero e = refl
  get_elem?-middle [] ys x (suc i) e = absurd (omega arith)
  get_elem?-middle (y ∷ xs) ys x zero e = absurd (omega arith)
  get_elem?-middle (y ∷ xs) ys x (suc i) e = get_elem?-middle xs ys x i (omega arith)

  get_elem?-past : (xs : List A) (i : ℕ) → length xs ≤ i → get_elem? xs i ≡ none
  get_elem?-past [] i e = refl
  get_elem?-past (y ∷ xs) zero e = absurd (omega arith)
  get_elem?-past (y ∷ xs) (suc i) e = get_elem?-past xs i (omega arith)

  set-middle :
      (xs ys : List A) (x v : A) (i : ℕ) → i ≡ length xs → set (xs ++ x ∷ ys) i v ≡ xs ++ v ∷ ys
  set-middle [] ys x v zero e = refl
  set-middle [] ys x v (suc i) e = absurd (omega arith)
  set-middle (y ∷ xs) ys x v zero e = absurd (omega arith)
  set-middle (y ∷ xs) ys x v (suc i) e = ap (◌∷◌ y) (set-middle xs ys x v i (omega arith))

pub correct_lem :
    (grant : ℕ → Bool) (junk : ℕ) (fresh : BinSubHeader) (rounds i noff doff : ℕ)
    (heads : Array BinSubHeader) (done todo : List BinSubHeader)
    → IsValid heads
    → items heads ≡ done ++ todo
    → i ≡ length done
    → length todo < rounds
    → let heads' = correct grant junk fresh rounds i noff doff heads in
      (items heads' ≡ done ++ all_moved noff doff todo) × (heads'.count ≡ heads.count)
unfolding correct
correct_lem grant junk fresh zero i noff doff heads done todo v same at enough =
    absurd (omega arith)
correct_lem grant junk fresh (suc rounds) i noff doff heads done [] v same at enough =
    let past : Array.get_raw heads i ≡ none =
      get_raw-items i v
      ∙ ap (λ t. get_elem? t i) (same ∙ append-nil done)
      ∙ get_elem?-past done i (omega arith) in
    rw (correct, past) (same, refl)
correct_lem grant junk fresh (suc rounds) i noff doff heads done (h ∷ todo) v same at enough =
    let here : Array.get_raw heads i ≡ some h =
      get_raw-items i v ∙ ap (λ t. get_elem? t i) same ∙ get_elem?-middle done todo h i at in
    let h' = moved noff doff h in
    let heads' : Array BinSubHeader = record heads { slots = set heads.slots i h' } in
    let v' : IsValid heads' = record {
      cells = length-set heads.slots i h' ∙ v.cells;
      fits = v.fits;
      sized = v.sized;
      small = v.small;
    } in
    let same' : items heads' ≡ (done ++ h' ∷ []) ++ todo =
      take-set heads.count heads.slots i h'
      ∙ ap (λ t. set t i h') same
      ∙ set-middle done todo h h' i at
      ∙ sym (append_assoc done (h' ∷ []) todo) in
    let (its, n) =
      correct_lem grant junk fresh rounds (i + 1) noff doff heads' (done ++ h' ∷ []) todo v' same'
        (omega (arith, length-append done (h' ∷ []))) (omega arith) in
    rw (correct, here) (its ∙ append_assoc done (h' ∷ []) (all_moved noff doff todo), n)
