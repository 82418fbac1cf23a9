-- ===== src/Monitor/Health/Walked.antt =====
-- health.rs: what a walk has counted.
use ice_rpc.Common.{
  ℕ, zero, suc, ◌+◌, ◌≡◌, refl, ap, sym, ◌∙◌, arith, ltb, true, false, List, [], Option, none, some,
  ◌∷◌, ◌++◌, length, filter, if◌then◌else◌, subst,
}
use ice_rpc.Rx.Event.{Text}
use ice_rpc.Monitor.Health.{
  Iceoryx2Layout, ShmFootprint, Entries, unreadable, no_more, file, directory, no_metadata,
  starts_with, ends_with, count_file, walk, walk_entries, walk_roots, scan_shm, max_walk_depth,
}

-- The files with their sizes among the entries and in so many levels of directories below them.
abbrev pub files_in : Entries → ℕ → List (Text × ℕ)
files_in no_more levels = []
files_in (no_metadata rest) levels = files_in rest levels
files_in (unreadable rest) levels = files_in rest levels
files_in (directory inside rest) zero = files_in rest zero
files_in (directory inside rest) (suc levels) = files_in inside levels ++ files_in rest (suc levels)
files_in (file name len rest) levels = (name, len) ∷ files_in rest levels

abbrev pub count_all : Iceoryx2Layout → List (Text × ℕ) → ShmFootprint → ShmFootprint
count_all layout [] out = out
count_all layout ((name, len) ∷ files) out = count_all layout files (count_file layout name len out)

count_all-append :
    (layout : Iceoryx2Layout) (fs gs : List (Text × ℕ)) (out : ShmFootprint)
    → count_all layout (fs ++ gs) out ≡ count_all layout gs (count_all layout fs out)
count_all-append layout [] gs out = refl
count_all-append layout ((name, len) ∷ fs) gs out =
    count_all-append layout fs gs (count_file layout name len out)

walk_entries-files_in :
    (entries : Entries) (layout : Iceoryx2Layout) (out : ShmFootprint) (depth levels : ℕ)
    → depth + levels ≡ max_walk_depth
    → walk_entries entries layout out depth ≡ count_all layout (files_in entries levels) out
unfolding walk_entries
walk_entries-files_in no_more layout out depth levels h = refl
walk_entries-files_in (no_metadata rest) layout out depth levels h =
    walk_entries-files_in rest layout out depth levels h
walk_entries-files_in (unreadable rest) layout out depth levels h =
    walk_entries-files_in rest layout out depth levels h
walk_entries-files_in (file name len rest) layout out depth levels h =
    walk_entries-files_in rest layout (count_file layout name len out) depth levels h
walk_entries-files_in (directory inside rest) layout out depth zero h =
    let deep : ltb max_walk_depth (depth + 1) ≡ true = ground arith in
    ap
      (λ b.
        walk_entries rest layout (if b then out else walk_entries inside layout out (depth + 1))
          depth)
      deep
    ∙ walk_entries-files_in rest layout out depth zero h
walk_entries-files_in (directory inside rest) layout out depth (suc levels) h =
    let shallow : ltb max_walk_depth (depth + 1) ≡ false = ground arith in
    ap
      (λ b.
        walk_entries rest layout (if b then out else walk_entries inside layout out (depth + 1))
          depth)
      shallow
    ∙ ap (λ o. walk_entries rest layout o depth)
        (walk_entries-files_in inside layout out (depth + 1) levels (omega arith))
    ∙ walk_entries-files_in rest layout (count_all layout (files_in inside levels) out) depth
        (suc levels) h
    ∙ sym (count_all-append layout (files_in inside levels) (files_in rest (suc levels)) out)

-- The files under the roots, down to eight levels below each.
abbrev pub files_under : List (Option Entries) → List (Text × ℕ)
files_under [] = []
files_under (none ∷ roots) = files_under roots
files_under (some entries ∷ roots) = files_in entries max_walk_depth ++ files_under roots

walk_roots-files_under :
    (roots : List (Option Entries)) (layout : Iceoryx2Layout) (out : ShmFootprint)
    → walk_roots roots layout out ≡ count_all layout (files_under roots) out
unfolding walk_roots walk
walk_roots-files_under [] layout out = refl
walk_roots-files_under (none ∷ roots) layout out = walk_roots-files_under roots layout out
walk_roots-files_under (some entries ∷ roots) layout out =
    ap (walk_roots roots layout) (walk_entries-files_in entries layout out 0 max_walk_depth refl)
    ∙ walk_roots-files_under roots layout (count_all layout (files_in entries max_walk_depth) out)
    ∙ sym (count_all-append layout (files_in entries max_walk_depth) (files_under roots) out)

-- The files of iceoryx2, and the segments among them.
abbrev pub own_files : Iceoryx2Layout → List (Text × ℕ) → List (Text × ℕ)
own_files layout files = filter (λ f. starts_with f.0 layout.prefix) files

abbrev pub segments_of : Iceoryx2Layout → List (Text × ℕ) → List (Text × ℕ)
segments_of layout files = filter (λ f. ends_with f.0 layout.data_segment_suffix) files

abbrev pub size_of : List (Text × ℕ) → ℕ
size_of [] = 0
size_of ((name, len) ∷ files) = len + size_of files

abbrev Counts : Iceoryx2Layout → List (Text × ℕ) → ShmFootprint → ShmFootprint → Type 0
Counts layout files out t =
    let segments = segments_of layout (own_files layout files) in
    (t.bytes ≡ out.bytes + size_of segments)
    × (t.segments ≡ out.segments + length segments)
    × (t.files ≡ out.files + length (own_files layout files))

count_all-Counts :
    (layout : Iceoryx2Layout) (files : List (Text × ℕ)) (out : ShmFootprint)
    → Counts layout files out (count_all layout files out)
unfolding count_file
count_all-Counts layout [] out = (omega arith, omega arith, omega arith)
count_all-Counts layout ((name, len) ∷ files) out =
    let rec = count_all-Counts layout files (count_file layout name len out) in ground (arith, rec)

-- The footprint of a scan: of the files that lie at most eight levels below a root and can be read,
-- those that carry iceoryx2's prefix are counted, and the segments among them are counted and their
-- sizes added up.
pub scan_shm-Counts :
    (roots : List (Option Entries)) (layout : Iceoryx2Layout)
    → let files = own_files layout (files_under roots) in
      let segments = segments_of layout files in
      let footprint = scan_shm roots layout in
      (footprint.bytes ≡ size_of segments)
      × (footprint.segments ≡ length segments)
      × (footprint.files ≡ length files)
unfolding scan_shm
scan_shm-Counts roots layout =
    let nothing : ShmFootprint = record { bytes = 0; segments = 0; files = 0 } in
    let (a, b, c) =
      subst (Counts layout (files_under roots) nothing)
        (sym (walk_roots-files_under roots layout nothing))
        (count_all-Counts layout (files_under roots) nothing) in
    (omega (arith, a), omega (arith, b), omega (arith, c))
