-- ===== src/Bin/Offsets.antt =====
-- src/bin.c: the offsets in a patch set lead to the data of its files.
use mathlib.Core.Path.{subst}
use eq_data_patcher.Base.{
  ℕ, suc, ◌+◌, ◌*◌, ◌%◌, ◌^◌, ◌≤◌, ◌<◌, ◌≡◌, ◌∙◌, ◌⊎◌, inl, inr, sym, ap, ap₂, refl, arith, Bool,
  false, Option, none, some, List, [], ◌∷◌, ◌++◌, append_assoc, append-nil, length, length-append,
  add32, Bool-cases,
}
use eq_data_patcher.Array
use eq_data_patcher.Array.{Array}
use eq_data_patcher.Array.Inv.{items, length-items, init_size-IsValid}
use eq_data_patcher.Bin.{
  BinSubHeader, bin_header_bytes, sub_header_bytes, bin_filename, Gathered, nothing_gathered,
  Outcome, returns, closes_null, overruns, System, gather_file, gather_files, corrected, blocks,
  write_set, after_gather, bin_create,
}
use eq_data_patcher.Bin.Leads.{
  Leads, Leads-moved, all_moved, length-all_moved, length-sub_header_bytes,
}
use eq_data_patcher.Bin.Laid.{data_of, IsLaid, weight, Ends, gather_file_lem}
use eq_data_patcher.Bin.Moved.{correct_lem}
use eq_data_patcher.Bytes.{joined, Written, write_all, write_all_lem}
use eq_data_patcher.Err.{Err, none_err, out_of_memory}
use eq_data_patcher.Sstr.{
  File, SimpleBuffer, Loaded, not_read, loaded, overrun, buf_create, sstr_from_file_ptr,
  sstr_from_file, sstr_length, sstr_data,
}

module _ (grant : ℕ → Bool) (junk : ℕ) where
  -- The files of the command line that can be read, with their names.
  abbrev pub read_files : (List ℕ → Option File) → List (List ℕ) → List (List ℕ × SimpleBuffer)
  read_files open_file [] = []
  read_files open_file (path ∷ paths) = elim (sstr_from_file grant junk (open_file path)) [
    | overrun ↦ read_files open_file paths
    | not_read ↦ read_files open_file paths
    | loaded file ↦ (bin_filename path, file) ∷ read_files open_file paths
  ]

  -- A file that was read is as long as it says.
  from_file_whole :
      (file : Option File) (s : SimpleBuffer)
      → sstr_from_file grant junk file ≡ loaded s
      → sstr_length s ≤ length (sstr_data s)
  unfolding sstr_from_file sstr_from_file_ptr buf_create sstr_length sstr_data
  from_file_whole none s e = ground (arith, e)
  from_file_whole (some fp) s e = ground (arith, e, length-append fp.delivered (junk ∷ []))

abbrev pub datas : List (List ℕ × SimpleBuffer) → List (List ℕ)
datas [] = []
datas ((name, file) ∷ files) = data_of file ∷ datas files

module _ (grant : ℕ → Bool) (junk : ℕ) where
  -- What one file adds to the bytes of a patch set: its line, its name and its data. A file that is
  -- read behind its block has more than fit.
  abbrev pub file_load : List ℕ → Loaded → ℕ
  file_load path overrun = 2 ^ 32
  file_load path not_read = 0
  file_load path (loaded file) = 64 + length (bin_filename path) + sstr_length file

  -- An upper bound for the bytes of a patch set's files, names and lines.
  abbrev pub load : (List ℕ → Option File) → List (List ℕ) → ℕ
  load open_file [] = 0
  load open_file (path ∷ paths) =
      file_load path (sstr_from_file grant junk (open_file path)) + load open_file paths

module _ (grant : ℕ → Bool) (junk : ℕ) (fresh : BinSubHeader) where
  gather_files_lem :
      (open_file : List ℕ → Option File) (paths : List (List ℕ)) (g : Gathered) (ds : List (List ℕ))
      → IsLaid g ds
      → weight g + load grant junk open_file paths < 2 ^ 32
      → Ends
          (ds ++ datas (read_files grant junk open_file paths))
          (gather_files grant junk fresh open_file paths g)
  unfolding gather_files
  gather_files_lem open_file [] g ds l room = inl (refl, rw (append-nil ds) l, omega (arith, room))
  gather_files_lem open_file (path ∷ paths) g ds l room =
      by_file (sstr_from_file grant junk (open_file path)) refl room
        (λ g' ds' l' r. gather_files_lem open_file paths g' ds' l' r)
    where
      by_file :
          (o : Loaded)
          → sstr_from_file grant junk (open_file path) ≡ o
          → weight g + (file_load grant junk path o + load grant junk open_file paths) < 2 ^ 32
          → ((g' : Gathered) (ds' : List (List ℕ))
              → IsLaid g' ds'
              → weight g' + load grant junk open_file paths < 2 ^ 32
              → Ends
                  (ds' ++ datas (read_files grant junk open_file paths))
                  (gather_files grant junk fresh open_file paths g'))
          → Ends
              (ds
                ++ datas (elim o [
                  | overrun ↦ read_files grant junk open_file paths
                  | not_read ↦ read_files grant junk open_file paths
                  | loaded file ↦ (bin_filename path, file) ∷ read_files grant junk open_file paths
                ]))
              (elim o [
                | overrun ↦ none
                | not_read ↦ gather_files grant junk fresh open_file paths g
                | loaded file ↦
                    gather_file grant junk fresh
                      (gather_files grant junk fresh open_file paths)
                      g
                      (bin_filename path)
                      file
              ])
      by_file overrun e r again = omega (arith, r)
      by_file not_read e r again = again g ds l (omega (arith, r))
      by_file (loaded file) e r again =
          let rest = datas (read_files grant junk open_file paths) in
          gather_file_lem grant junk fresh g ds (bin_filename path) file l
            (from_file_whole grant junk (open_file path) file e) (omega (arith, r))
            (ds ++ data_of file ∷ rest) (gather_files grant junk fresh open_file paths)
            (λ g' l' light.
              rw⁻¹ (append_assoc ds (data_of file ∷ []) rest)
                (again g' (ds ++ data_of file ∷ []) l' (omega (arith, r, light))))

  -- How `bin_create` ends for files with the data `ds`: without a file, where memory ran out or no
  -- manifest was given; closing a null pointer, where the output does not open; or with an image,
  -- or the front of one where a write failed, that starts with a header and lines that lead to the
  -- data.
  abbrev pub Made : System → List (List ℕ) → Outcome → Type 0
  Made sys ds overruns = ⊥
  Made sys ds closes_null = sys.opens ≡ false
  Made sys ds (returns rc none) = (rc ≡ none_err) ⊎ (rc ≡ out_of_memory)
  Made sys ds (returns rc (some out)) =
      (hs : List BinSubHeader) × (rest : List ℕ) × Leads
        (bin_header_bytes (length hs) ++ sub_header_bytes hs ++ rest) hs ds
      × Written (bin_header_bytes (length hs) ++ sub_header_bytes hs ++ rest) (rc, out)

  module _ (sys : System) (g : Gathered) (ds : List (List ℕ)) (l : IsLaid g ds)
      (room : weight g < 2 ^ 32) where
    noff : ℕ
    noff = (8 + 16 * g.sub_headers.count) % 2 ^ 32

    doff : ℕ
    doff = add32 noff g.names.count

    lines : List BinSubHeader
    lines = all_moved noff doff (items g.sub_headers)

    rest : List ℕ
    rest = items g.names ++ items g.files

    -- What is written is a header, the moved lines, and the rest.
    image-joined :
        joined (blocks grant junk fresh g (corrected grant junk fresh g))
        ≡ bin_header_bytes (length lines) ++ sub_header_bytes lines ++ rest
    unfolding rest lines doff noff
    image-joined =
        let n = g.sub_headers.count in
        let (its, count) =
          correct_lem grant junk fresh (suc n) 0 noff doff g.sub_headers [] (items g.sub_headers)
            l.heads_valid refl refl (omega (arith, length-items l.heads_valid)) in
        let len : (corrected grant junk fresh g).count ≡ length lines =
          count
          ∙ sym (length-items l.heads_valid)
          ∙ sym (length-all_moved noff doff (items g.sub_headers)) in
        ap₂
          (λ k hs.
            bin_header_bytes k ++ (sub_header_bytes hs ++ (items g.names ++ (items g.files ++ []))))
          len its
        ∙ ap
            (λ t.
              bin_header_bytes (length lines) ++ (sub_header_bytes lines ++ (items g.names ++ t)))
            (append-nil (items g.files))
        ∙ sym (append_assoc (bin_header_bytes (length lines)) (sub_header_bytes lines) rest)

    image-Leads : Leads (bin_header_bytes (length lines) ++ sub_header_bytes lines ++ rest) lines ds
    unfolding rest lines doff noff
    image-Leads =
        let header = bin_header_bytes (length lines) ++ sub_header_bytes lines in
        let front = header ++ items g.names in
        let front_size : doff ≡ length front = omega (
          arith,
          room,
          length-append (bin_header_bytes (length lines)) (sub_header_bytes lines),
          length-append header (items g.names),
          length-sub_header_bytes lines,
          length-all_moved noff doff (items g.sub_headers),
          length-items l.heads_valid,
          length-items l.names_valid,
        ) in
        subst (λ t. Leads t lines ds) (append_assoc header (items g.names) (items g.files))
          (Leads-moved front (items g.files) noff doff (items g.sub_headers) ds front_size
            (omega
              (arith, room, front_size, length-items l.files_valid, length-items l.names_valid))
            l.leads)

    write_set_lem : Made sys ds (write_set grant junk fresh sys g)
    write_set_lem = elim (Bool-cases sys.opens) [
      | inr closed ↦ rw closed refl
      | inl opens ↦ rw opens (
        lines,
        rest,
        image-Leads,
        subst
            (λ t. Written t (
              write_all sys.writes 0 (blocks grant junk fresh g (corrected grant junk fresh g)) []))
            image-joined
            (write_all_lem sys.writes 0 (blocks grant junk fresh g (corrected grant junk fresh g))
              []),
      )
    ]

  nothing-IsLaid : IsLaid nothing_gathered []
  unfolding Array.init_size
  nothing-IsLaid = record {
    heads_valid = init_size-IsValid 16 (omega arith);
    names_valid = init_size-IsValid 1 (omega arith);
    files_valid = init_size-IsValid 1 (omega arith);
    heads_size = refl;
    names_size = refl;
    files_size = refl;
    snug = omega arith;
    next_offset = refl;
    leads = tt;
  }

  after_gather_lem :
      (sys : System) (ds : List (List ℕ)) (o : Option (Err × Gathered))
      → Ends ds o
      → Made sys ds (after_gather grant junk fresh sys o)
  after_gather_lem sys ds none e = e
  after_gather_lem sys ds (some (none_err, g)) (inl (e, l, room)) =
      elim (Bool-cases g.had_manifest) [
        | inl given ↦ rw given (write_set_lem sys g ds l room)
        | inr missing ↦ rw missing (inl refl)
      ]
  after_gather_lem sys ds (some (none_err, g)) (inr wrong) = absurd (wrong refl)
  after_gather_lem sys ds (some (_, g)) e = inr refl

  -- Where the lines, names and data of the files that can be read are together small enough for
  -- 32 bits, and no file is so large that it is read behind its block, `bin_create` ends in one
  -- of three ways: without a file, with `ERR_None` or `ERR_OutOfMemory`; closing a null pointer,
  -- where the output does not open; or with all of an image and `ERR_None`, or a front of one
  -- and `ERR_FileOperation`, where the image starts with the header and one line for each of
  -- those files, in order, whose length and data offset lead to its data in the image.
  pub bin_create_lem :
      (sys : System) (paths : List (List ℕ))
      → 512 + load grant junk sys.file paths < 2 ^ 32
      → Made sys
          (datas (read_files grant junk sys.file paths))
          (bin_create grant junk fresh sys paths)
  unfolding bin_create Array.init_size
  bin_create_lem sys paths room =
      after_gather_lem sys (datas (read_files grant junk sys.file paths)) _
        (gather_files_lem sys.file paths nothing_gathered [] nothing-IsLaid (omega (arith, room)))
