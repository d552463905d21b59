-- ===== src/Bin/Laid.antt =====
-- src/bin.c, the loop of `bin_create` over the files: what is gathered.
use eq_data_patcher.Base.{
  ℕ, ◌+◌, ◌*◌, ◌^◌, ◌≤◌, ◌<◌, ◌≡◌, ◌≢◌, ◌∙◌, ◌⊎◌, inl, inr, sym, ap, arith, Bool, Option, none,
  some, List, [], ◌∷◌, ◌++◌, length, length-append, length-take, take, take_all, add32, ◌==◌,
  Bool-cases, ◌||◌,
}
use eq_data_patcher.Array
use eq_data_patcher.Array.{Array, min_capacity}
use eq_data_patcher.Array.Append.{Appended, append_lem, append-elem_size}
use eq_data_patcher.Array.Grow.{Pushed, push_back_lem, Snug, push_back-Snug}
use eq_data_patcher.Array.Inv.{IsValid, items, length-items}
use eq_data_patcher.Bin.{
  BinSubHeader, bin_sub_header_size, Gathered, append_or_oom, gather_file, starts_with,
  manifest_prefix,
}
use eq_data_patcher.Bin.Leads.{LeadsTo, Leads, Leads-more, Leads-snoc}
use eq_data_patcher.Bytes.{drop-append}
use eq_data_patcher.Err.{Err, none_err, out_of_memory}
use eq_data_patcher.Sstr.{SimpleBuffer, strlen, sstr_length, sstr_data}

-- The bytes of a file that was read.
abbrev pub data_of : SimpleBuffer → List ℕ
data_of file = take (sstr_length file) (sstr_data file)

-- What was gathered of files with the data `ds`.
pub record IsLaid (g : Gathered) (ds : List (List ℕ)) : Type 0 where
  pub heads_valid : IsValid g.sub_headers
  pub names_valid : IsValid g.names
  pub files_valid : IsValid g.files
  pub heads_size : g.sub_headers.elem_size ≡ bin_sub_header_size
  pub names_size : g.names.elem_size ≡ 1
  pub files_size : g.files.elem_size ≡ 1
  pub snug : g.sub_headers.capacity ≤ g.sub_headers.count * 2 + min_capacity
  pub next_offset : g.doff ≡ g.files.count
  pub leads : Leads (items g.files) (items g.sub_headers) ds

-- The bytes that are needed so far, with those that the lines' array may take to grow.
abbrev pub weight : Gathered → ℕ
weight g = 512 + g.sub_headers.count * 64 + g.names.count + g.files.count

strlen_le : (text : List ℕ) → strlen text ≤ length text
unfolding strlen
strlen_le [] = omega arith
strlen_le (c ∷ text) = elim (Bool-cases (c == 0)) [
  | inl null ↦ rw null (omega arith)
  | inr other ↦ rw other (omega (arith, strlen_le text))
]

-- With no error, the data are laid; or there is an error. No file is read behind its block.
abbrev pub Ends : List (List ℕ) → Option (Err × Gathered) → Type 0
Ends ds none = ⊥
Ends ds (some r) =
    let (rc, g) = r in ((rc ≡ none_err) × IsLaid g ds × (weight g < 2 ^ 32)) ⊎ (rc ≢ none_err)

module _ (grant : ℕ → Bool) (junk : ℕ) (fresh : BinSubHeader) where
  -- One array of bytes is appended to, and what follows is told what it is then.
  append_lem_or_oom :
      (all : List (List ℕ)) (g : Gathered) (ar : Array ℕ) (values : List ℕ)
      (rest : Array ℕ → Option (Err × Gathered))
      → IsValid ar
      → ar.elem_size ≡ 1
      → ar.count + length values < 2 ^ 32
      → ((ar' : Array ℕ)
          → IsValid ar'
          → ar'.elem_size ≡ 1
          → ar'.count ≡ ar.count + length values
          → items ar' ≡ items ar ++ values
          → Ends all (rest ar'))
      → Ends all (append_or_oom grant junk fresh rest g (Array.append grant junk ar values))
  append_lem_or_oom all g ar values rest v one room next =
      let fits : ar.elem_size * (ar.count + length values) < 2 ^ 32 = rw one (omega arith) in
      by_result (Array.append grant junk ar values) (append-elem_size grant junk ar values ∙ one)
        (append_lem grant junk values v fits)
    where
      by_result :
          (r : Err × Array ℕ)
          → r.1.elem_size ≡ 1
          → Appended grant junk ar values r
          → Ends all (append_or_oom grant junk fresh rest g r)
      by_result (none_err, ar') size (w, inl (e, same)) =
          next ar' w size
            (omega (
              arith,
              length-items w,
              length-items v,
              ap length same,
              length-append (items ar) values,
            ))
            same
      by_result (none_err, ar') size (w, inr (wrong, same, refused)) = cc
      by_result (_, ar') size a = inr (λ e. ground (arith, e))

  -- The line that a file gets.
  abbrev line : Gathered → List ℕ → SimpleBuffer → BinSubHeader
  line g name file = record {
    name_length = strlen name;
    name_offset = g.noff;
    data_length = sstr_length file;
    data_offset = g.doff;
  }

  -- What is gathered with one more file.
  abbrev with_file :
      Gathered → List ℕ → SimpleBuffer → Array BinSubHeader → Array ℕ → Array ℕ → Gathered
  with_file g name file heads names files = record {
    sub_headers = heads;
    names = names;
    files = files;
    noff = add32 g.noff (strlen name + 1);
    doff = add32 g.doff (sstr_length file);
    had_manifest = g.had_manifest || starts_with name manifest_prefix;
  }

  module _ (g : Gathered) (ds : List (List ℕ)) (name : List ℕ) (file : SimpleBuffer)
      (l : IsLaid g ds) (whole : sstr_length file ≤ length (sstr_data file))
      (room : weight g + 64 + length name + sstr_length file < 2 ^ 32) where
    data_size : length (data_of file) ≡ sstr_length file
    data_size = omega (arith, whole, length-take (sstr_length file) (sstr_data file))

    line-LeadsTo : LeadsTo (items g.files ++ data_of file) (line g name file) (data_of file)
    line-LeadsTo =
        let before = length-items l.files_valid in
        let at : g.doff ≡ length (items g.files) + 0 = omega (arith, l.next_offset, before) in
        record {
          size = sym data_size;
          inside =
              omega (arith, l.next_offset, before, length-append (items g.files) (data_of file));
          there =
              ap (take (length (data_of file)))
                (drop-append (items g.files) (data_of file) 0 g.doff at)
              ∙ take_all (length (data_of file)) (data_of file) (omega arith);
        }

    with_file-IsLaid :
        (heads : Array BinSubHeader) (names files : Array ℕ)
        → IsValid heads
        → heads.elem_size ≡ bin_sub_header_size
        → items heads ≡ items g.sub_headers ++ line g name file ∷ []
        → heads.capacity ≤ heads.count * 2 + min_capacity
        → IsValid names
        → names.elem_size ≡ 1
        → IsValid files
        → files.elem_size ≡ 1
        → files.count ≡ g.files.count + length (data_of file)
        → items files ≡ items g.files ++ data_of file
        → IsLaid (with_file g name file heads names files) (ds ++ data_of file ∷ [])
    with_file-IsLaid heads names files hv hs same snug nv ns fv fs count blob = record {
      heads_valid = hv;
      names_valid = nv;
      files_valid = fv;
      heads_size = hs;
      names_size = ns;
      files_size = fs;
      snug = snug;
      next_offset = omega (arith, l.next_offset, data_size, room);
      leads =
          rw (same, blob)
            (Leads-snoc _ (items g.sub_headers) ds (line g name file) (data_of file)
              (Leads-more (items g.files) (data_of file) (items g.sub_headers) ds l.leads)
              line-LeadsTo);
    }

    pub gather_file_lem :
        (all : List (List ℕ)) (rest : Gathered → Option (Err × Gathered))
        → ((g' : Gathered)
            → IsLaid g' (ds ++ data_of file ∷ [])
            → weight g' ≤ weight g + 64 + length name + sstr_length file
            → Ends all (rest g'))
        → Ends all (gather_file grant junk fresh rest g name file)
    unfolding gather_file
    gather_file_lem all rest next =
        by_push (Array.push_back grant fresh g.sub_headers (some (line g name file)))
          (push_back_lem grant fresh (line g name file) l.heads_valid (record {
            first = omega (arith, l.heads_size);
            next = rw l.heads_size (omega (arith, l.snug, room));
          }))
          (push_back-Snug grant fresh g.sub_headers (some (line g name file)) l.snug
            (omega (arith, room)))
      where
        by_push :
            (o : Option (Array BinSubHeader))
            → Pushed grant fresh g.sub_headers (line g name file) o
            → Snug grant fresh g.sub_headers o
            → Ends all (elim o [
              | none ↦ some (out_of_memory, g)
              | some heads ↦
                  append_or_oom grant junk fresh
                    (λ names.
                      append_or_oom grant junk fresh
                        (λ files. rest (with_file g name file heads names files))
                        g
                        (Array.append grant junk g.files (data_of file)))
                    g
                    (Array.append grant junk g.names (take (strlen name) name))
            ])
        by_push none p s = inr (λ e. ground (arith, e))
        by_push (some heads) (hv, same, size) (one_more, snug) =
            append_lem_or_oom all g g.names (take (strlen name) name) _ l.names_valid l.names_size
              (omega (arith, room, length-take (strlen name) name))
              (λ names nv ns nc nsame.
                append_lem_or_oom all g g.files (data_of file) _ l.files_valid l.files_size
                  (omega (arith, room, data_size))
                  (λ files fv fs fc fsame.
                    next (with_file g name file heads names files)
                      (with_file-IsLaid heads names files hv (size ∙ l.heads_size) same snug nv ns
                        fv fs fc fsame)
                      (omega (
                        arith,
                        one_more,
                        nc,
                        fc,
                        data_size,
                        strlen_le name,
                        length-take (strlen name) name,
                      ))))
