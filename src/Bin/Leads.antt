-- ===== src/Bin/Leads.antt =====
-- The lines of a patch set of src/bin.c and the data that they lead to.
use eq_data_patcher.Base.{
  ℕ, zero, suc, ◌+◌, ◌*◌, ◌^◌, ◌≤◌, ◌<◌, ◌≡◌, ◌∙◌, ap, refl, arith, List, [], ◌∷◌, ◌++◌, length,
  length-append, length-drop, take, drop, take-append, add32,
}
use eq_data_patcher.Bin.{BinSubHeader, sub_header_bytes}
use eq_data_patcher.Bytes.{drop-append}

-- A line has the length of some data, and its offset is where they stand.
pub record LeadsTo (blob : List ℕ) (h : BinSubHeader) (d : List ℕ) : Type 0 where
  pub size : h.data_length ≡ length d
  pub inside : h.data_offset + length d ≤ length blob
  pub there : take (length d) (drop h.data_offset blob) ≡ d

-- As many lines as there are data, each leading to its own.
abbrev pub Leads : List ℕ → List BinSubHeader → List (List ℕ) → Type 0
Leads blob [] [] = Unit {0}
Leads blob (h ∷ hs) (d ∷ ds) = LeadsTo blob h d × Leads blob hs ds
Leads blob [] (d ∷ ds) = ⊥
Leads blob (h ∷ hs) [] = ⊥

drop_append_inside : (xs ys : List ℕ) (n : ℕ) → n ≤ length xs → drop n (xs ++ ys) ≡ drop n xs ++ ys
drop_append_inside xs ys zero h = refl
drop_append_inside [] ys (suc n) h = absurd (omega arith)
drop_append_inside (x ∷ xs) ys (suc n) h = drop_append_inside xs ys n (omega arith)

LeadsTo-more :
    (blob more : List ℕ) (h : BinSubHeader) (d : List ℕ)
    → LeadsTo blob h d
    → LeadsTo (blob ++ more) h d
LeadsTo-more blob more h d l = record {
  size = l.size;
  inside = omega (arith, l.inside, length-append blob more);
  there =
      ap (take (length d)) (drop_append_inside blob more h.data_offset (omega (arith, l.inside)))
      ∙ take-append (length d) (drop h.data_offset blob) more
          (omega (arith, l.inside, length-drop h.data_offset blob))
      ∙ l.there;
}

pub Leads-more :
    (blob more : List ℕ) (hs : List BinSubHeader) (ds : List (List ℕ))
    → Leads blob hs ds
    → Leads (blob ++ more) hs ds
Leads-more blob more [] [] l = tt
Leads-more blob more [] (d ∷ ds) l = elim l [ ]
Leads-more blob more (h ∷ hs) [] l = elim l [ ]
Leads-more blob more (h ∷ hs) (d ∷ ds) (l, ls) =
    (LeadsTo-more blob more h d l, Leads-more blob more hs ds ls)

pub Leads-snoc :
    (blob : List ℕ) (hs : List BinSubHeader) (ds : List (List ℕ)) (h : BinSubHeader) (d : List ℕ)
    → Leads blob hs ds
    → LeadsTo blob h d
    → Leads blob (hs ++ h ∷ []) (ds ++ d ∷ [])
Leads-snoc blob [] [] h d l k = (k, tt)
Leads-snoc blob [] (y ∷ ds) h d l k = elim l [ ]
Leads-snoc blob (x ∷ hs) [] h d l k = elim l [ ]
Leads-snoc blob (x ∷ hs) (y ∷ ds) h d (l, ls) k = (l, Leads-snoc blob hs ds h d ls k)

-- The offsets moved.
abbrev pub moved : ℕ → ℕ → BinSubHeader → BinSubHeader
moved noff doff h = record h {
  name_offset = add32 h.name_offset noff;
  data_offset = add32 h.data_offset doff;
}

abbrev pub all_moved : ℕ → ℕ → List BinSubHeader → List BinSubHeader
all_moved noff doff [] = []
all_moved noff doff (h ∷ hs) = moved noff doff h ∷ all_moved noff doff hs

-- Behind a front, the offsets moved by its length lead to the same data.
pub Leads-moved :
    (front blob : List ℕ) (noff doff : ℕ) (hs : List BinSubHeader) (ds : List (List ℕ))
    → doff ≡ length front
    → length front + length blob < 2 ^ 32
    → Leads blob hs ds
    → Leads (front ++ blob) (all_moved noff doff hs) ds
Leads-moved front blob noff doff [] [] e small l = tt
Leads-moved front blob noff doff [] (d ∷ ds) e small l = elim l [ ]
Leads-moved front blob noff doff (h ∷ hs) [] e small l = elim l [ ]
Leads-moved front blob noff doff (h ∷ hs) (d ∷ ds) e small (l, ls) =
    let k : add32 h.data_offset doff ≡ length front + h.data_offset = omega (arith, l.inside) in
    (
      record {
        size = l.size;
        inside = omega (arith, l.inside, k, length-append front blob);
        there = ap (take (length d)) (drop-append front blob h.data_offset _ k) ∙ l.there;
      },
      Leads-moved front blob noff doff hs ds e small ls,
    )

pub length-all_moved :
    (noff doff : ℕ) (hs : List BinSubHeader) → length (all_moved noff doff hs) ≡ length hs
length-all_moved noff doff [] = refl
length-all_moved noff doff (h ∷ hs) = omega (arith, length-all_moved noff doff hs)

pub length-sub_header_bytes :
    (hs : List BinSubHeader) → length (sub_header_bytes hs) ≡ 16 * length hs
length-sub_header_bytes [] = omega arith
length-sub_header_bytes (h ∷ hs) = omega (arith, length-sub_header_bytes hs)
