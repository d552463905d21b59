-- ===== src/Bin.antt =====
-- src/bin.c: several files put together in one binary patch set.
pub mod Leads
pub mod Laid
pub mod Moved
pub mod Offsets
use eq_data_patcher.Base.{
  ℕ, zero, suc, ◌+◌, ◌*◌, ◌%◌, ◌^◌, Bool, true, false, ◌&&◌, ◌||◌, Option, none, some, List, [],
  ◌∷◌, ◌++◌, ◌==◌, if◌then◌else◌, take, set, add32,
}
use eq_data_patcher.Array
use eq_data_patcher.Array.{Array}
use eq_data_patcher.Array.Inv.{items}
use eq_data_patcher.Bytes.{le32, write_all}
use eq_data_patcher.Err.{Err, none_err, could_not_open, out_of_memory}
use eq_data_patcher.Sstr.{
  File, SimpleBuffer, loaded, not_read, overrun, strlen, sstr_from_file, sstr_length, sstr_data,
}

-- A header of four bytes and the number of files; one line for each file.
pub record BinSubHeader : Type 0 where
  pub name_length : ℕ
  pub name_offset : ℕ
  pub data_length : ℕ
  pub data_offset : ℕ

abbrev pub bin_header_size : ℕ
bin_header_size = 8

abbrev pub bin_sub_header_size : ℕ
bin_sub_header_size = 16

-- "EDP" and its null byte, and the number of files.
abbrev pub bin_header_bytes : ℕ → List ℕ
bin_header_bytes num_files = 69 ∷ 68 ∷ 80 ∷ 0 ∷ le32 num_files

abbrev pub sub_header_bytes : List BinSubHeader → List ℕ
sub_header_bytes [] = []
sub_header_bytes (h ∷ hs) =
    le32 h.name_length
    ++ le32 h.name_offset
    ++ le32 h.data_length
    ++ le32 h.data_offset
    ++ sub_header_bytes hs

-- `ret` is what follows the last separator so far.
filename_loop : List ℕ → List ℕ → List ℕ
filename_loop ret [] = ret
filename_loop ret (c ∷ cs) =
    let rest = filename_loop (if c == 47 || c == 92 then cs else ret) cs in
    if c == 0 then ret else rest

-- The part of a path behind its last `/` or `\`.
unfoldable pub bin_filename : List ℕ → List ℕ
unfolding filename_loop
bin_filename str = filename_loop str str

-- `strncmp(a, b, sizeof(b) - 1) == 0`
abbrev pub starts_with : List ℕ → List ℕ → Bool
starts_with name [] = true
starts_with [] (p ∷ prefix) = false
starts_with (c ∷ name) (p ∷ prefix) = (c == p) && starts_with name prefix

-- "manifest."
abbrev pub manifest_prefix : List ℕ
manifest_prefix = 109 ∷ 97 ∷ 110 ∷ 105 ∷ 102 ∷ 101 ∷ 115 ∷ 116 ∷ 46 ∷ []

-- The local variables of `bin_create`.
pub record Gathered : Type 0 where
  pub sub_headers : Array BinSubHeader
  pub names : Array ℕ
  pub files : Array ℕ
  pub noff : ℕ
  pub doff : ℕ
  pub had_manifest : Bool

abbrev pub nothing_gathered : Gathered
nothing_gathered = record {
  sub_headers = Array.init_size bin_sub_header_size;
  names = Array.init_size 1;
  files = Array.init_size 1;
  noff = 0;
  doff = 0;
  had_manifest = false;
}

-- How a call ends: it returns with a code and what `edp_patch.edp` holds, `none` where it is not
-- touched, it closes a null pointer, or it reads a file behind its block.
pub data Outcome : Type 0 where
  returns : Err → Option (List ℕ) → Outcome
  closes_null : Outcome
  overruns : Outcome

-- What the system does: the file behind a path, whether the output opens, and how many bytes the
-- `fwrite` with that number writes of those that it is given.
pub record System : Type 0 where
  pub file : List ℕ → Option File
  pub opens : Bool
  pub writes : ℕ → ℕ → ℕ

-- `grant` says whether an allocation of that many bytes succeeds; `junk` and `fresh` are what fresh
-- memory holds.
module _ (grant : ℕ → Bool) (junk : ℕ) (fresh : BinSubHeader) where
  abbrev pub append_or_oom :
      (Array ℕ → Option (Err × Gathered)) → Gathered → Err × Array ℕ → Option (Err × Gathered)
  append_or_oom rest g (none_err, ar) = rest ar
  append_or_oom rest g (rc, ar) = some (out_of_memory, g)

  -- What is done with a file that was read.
  unfoldable pub gather_file :
      (Gathered → Option (Err × Gathered))
      → Gathered
      → List ℕ
      → SimpleBuffer
      → Option (Err × Gathered)
  gather_file rest g name file =
      let namelen = strlen name in
      let len = sstr_length file in
      let head : BinSubHeader = record {
        name_length = namelen;
        name_offset = g.noff;
        data_length = len;
        data_offset = g.doff;
      } in
      elim (Array.push_back grant fresh g.sub_headers (some head)) [
        | none ↦ some (out_of_memory, g)
        | some heads ↦
            append_or_oom
              (λ names.
                append_or_oom
                  (λ files. rest (record {
                    sub_headers = heads;
                    names = names;
                    files = files;
                    noff = add32 g.noff (namelen + 1);
                    doff = add32 g.doff len;
                    had_manifest = g.had_manifest || starts_with name manifest_prefix;
                  }))
                  g (Array.append grant junk g.files (take len (sstr_data file))))
              g (Array.append grant junk g.names (take namelen name))
      ]

  -- The loop over the arguments; a file that cannot be read is passed over, and `none`
  -- stands for one that is read behind its block.
  unfoldable pub gather_files :
      (List ℕ → Option File) → List (List ℕ) → Gathered → Option (Err × Gathered)
  unfolding gather_file bin_filename
  gather_files open_file [] g = some (none_err, g)
  gather_files open_file (path ∷ paths) g = elim (sstr_from_file grant junk (open_file path)) [
    | overrun ↦ none
    | not_read ↦ gather_files open_file paths g
    | loaded file ↦ gather_file (gather_files open_file paths) g (bin_filename path) file
  ]

  -- The loop that moves the offsets; `rounds` is more than there are elements.
  unfoldable pub correct : ℕ → ℕ → ℕ → ℕ → Array BinSubHeader → Array BinSubHeader
  correct zero i noff doff heads = heads
  correct (suc rounds) i noff doff heads = elim (Array.get_raw heads i) [
    | none ↦ heads
    | some h ↦
        let moved : BinSubHeader = record h {
          name_offset = add32 h.name_offset noff;
          data_offset = add32 h.data_offset doff;
        } in
        correct rounds (i + 1) noff doff (record heads { slots = set heads.slots i moved })
  ]

  abbrev pub blocks : Gathered → Array BinSubHeader → List (List ℕ)
  blocks g heads =
      bin_header_bytes heads.count
      ∷ sub_header_bytes (items heads)
      ∷ items g.names
      ∷ items g.files
      ∷ []

  abbrev pub corrected : Gathered → Array BinSubHeader
  corrected g =
      let n = g.sub_headers.count in
      let noff = (bin_header_size + bin_sub_header_size * n) % 2 ^ 32 in
      correct (suc n) 0 noff (add32 noff g.names.count) g.sub_headers

  abbrev pub write_set : System → Gathered → Outcome
  write_set sys g =
      if sys.opens
      then (let (rc, file) = write_all sys.writes 0 (blocks g (corrected g)) [] in
          returns rc (some file))
      else closes_null

  abbrev pub after_gather : System → Option (Err × Gathered) → Outcome
  after_gather sys none = overruns
  after_gather sys (some (none_err, g)) =
      if g.had_manifest then write_set sys g else returns none_err none
  after_gather sys (some (rc, g)) = returns out_of_memory none

  -- The paths are the arguments behind the program's name.
  unfoldable pub bin_create : System → List (List ℕ) → Outcome
  unfolding gather_files correct write_all
  bin_create sys paths = after_gather sys (gather_files sys.file paths nothing_gathered)
