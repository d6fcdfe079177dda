-- ===== src/Vaults/Tests/Memory.antt =====
-- A disk in memory for internal/vault/manager.go. A directory is made without those above it; a file
-- is written only into a directory that is there.
use acorde.Base.{
  ℕ, ◌≡◌, refl, ap, ◌∙◌, Bool, true, false, not, ◌&&◌, ◌||◌, none, some, List, [], ◌∷◌, ◌++◌,
  if◌then◌else◌, arith, inl, inr, Bool-cases,
}
use acorde.Base.Equality.{nat_eq, list_eq, list_beq, list_beq_iff, beq_refl}
use acorde.Base.Members.{mem}
use acorde.Base.Selections.{filter}
use acorde.Base.Slices.{has_prefix, has_prefix-++}
use acorde.Base.Text.{Text, codes}
use acorde.GoMap
use acorde.GoMap.{GoMap, get, put, has, assoc}
use acorde.GoMap.Laws.{get-put}
use acorde.Vaults.Packages.{Disks, Read, missing, unreadable, found}

pub record Folders : Type 0 where
  pub dirs : List Text
  pub files : GoMap Text (List ℕ)

abbrev has_slash : Text → Bool
has_slash t = mem b'/' t

-- what stands before the last slash
abbrev dir_of : Text → Text
dir_of [] = []
dir_of (c ∷ p) = let rest = dir_of p in if has_slash p then c ∷ rest else []

-- a directory, or what lies below it
abbrev under : Text → Text → Bool
under dir p = list_beq dir p || has_prefix p (dir ++ codes "/")

abbrev outside : Text → List (Text × List ℕ) → List (Text × List ℕ)
outside dir [] = []
outside dir ((p, b) ∷ l) = let rest = outside dir l in if under dir p then rest else (p, b) ∷ rest

abbrev read_file : Folders → Text → Read
read_file d path =
    if mem path d.dirs
    then unreadable
    else elim (get d.files path) [ none ↦ missing | some bytes ↦ found bytes ]

abbrev write_file : Folders → Text → List ℕ → Folders × Bool
write_file d path bytes =
    if mem (dir_of path) d.dirs && not (mem path d.dirs)
    then (record d { files = put d.files path bytes }, true)
    else (d, false)

abbrev make_dir : Folders → Text → Folders × Bool
make_dir d path = if has d.files path then (d, false) else (record d { dirs = path ∷ d.dirs }, true)

abbrev remove_all : Folders → Text → Folders × Bool
remove_all d path = (
  record {
    dirs = filter (λ p. not (under path p)) d.dirs;
    files = record { entries = outside path d.files.entries };
  },
  true,
)

joined_slash : (p name : Text) → has_slash (p ++ codes "/" ++ name) ≡ true
joined_slash [] name = refl
joined_slash (c ∷ p) name = ground (arith, joined_slash p name)

dir_of-++ :
    (p name : Text)
    → dir_of (p ++ codes "/" ++ name)
      ≡ (if has_slash name then p ++ codes "/" ++ dir_of name else p)
dir_of-++ [] name = ground arith
dir_of-++ (c ∷ p) name = ground (arith, joined_slash p name, dir_of-++ p name)

under-++ : (p name : Text) → under p (p ++ codes "/" ++ name) ≡ true
under-++ p name = ground (arith, has_prefix-++ (p ++ codes "/") name)

under-dir_of : (p name : Text) → under p (dir_of (p ++ codes "/" ++ name)) ≡ true
under-dir_of p name = elim (Bool-cases (has_slash name)) [
  | inl s ↦
      let e : dir_of (p ++ codes "/" ++ name) ≡ p ++ codes "/" ++ dir_of name =
        dir_of-++ p name ∙ ground (arith, s) in
      ap (under p) e ∙ under-++ p (dir_of name)
  | inr n ↦
      let e : dir_of (p ++ codes "/" ++ name) ≡ p = dir_of-++ p name ∙ ground (arith, n) in
      ap (under p) e ∙ ground (arith, beq_refl p)
]

mem-filter_under :
    (dir p : Text) (l : List Text)
    → under dir p ≡ true
    → mem p (filter (λ q. not (under dir q)) l) ≡ false
unfolding filter
mem-filter_under dir p [] u = refl
mem-filter_under dir p (q ∷ l) u = elim (Bool-cases (list_beq q p)) [
  | inl same ↦
      let here : under dir q ≡ true = ap (under dir) ((list_beq_iff q p).0 same) ∙ u in
      ground (arith, here, mem-filter_under dir p l u)
  | inr other ↦ ground (arith, other, mem-filter_under dir p l u)
]

assoc-outside :
    (dir p : Text) (l : List (Text × List ℕ)) → under dir p ≡ true → assoc (outside dir l) p ≡ none
unfolding assoc
assoc-outside dir p [] u = refl
assoc-outside dir p ((q, b) ∷ l) u = elim (Bool-cases (list_beq q p)) [
  | inl same ↦
      let here : under dir q ≡ true = ap (under dir) ((list_beq_iff q p).0 same) ∙ u in
      ground (arith, here, assoc-outside dir p l u)
  | inr other ↦ ground (arith, other, assoc-outside dir p l u)
]

pub read-write_file :
    (d : Folders) (path : Text) (bytes : List ℕ)
    → (write_file d path bytes).1 ≡ true
    → read_file (write_file d path bytes).0 path ≡ found bytes
read-write_file d path bytes ok = ground (arith, ok, get-put d.files path path bytes, beq_refl path)

pub read_file-make_dir :
    (d : Folders) (path file : Text) (bytes : List ℕ)
    → (make_dir d path).1 ≡ true
    → read_file d file ≡ found bytes
    → read_file (make_dir d path).0 file ≡ found bytes
read_file-make_dir d path file bytes ok r = elim (Bool-cases (list_beq path file)) [
  | inl same ↦
      let here = ap (get d.files) ((list_beq_iff path file).0 same) in
      absurd (ground (arith, ok, r, here))
  | inr other ↦ ground (arith, ok, r, other)
]

pub read_file-remove_all :
    (d : Folders) (c : ℕ) (path name : Text) (bytes : List ℕ)
    → (remove_all d (c ∷ path)).1 ≡ true
    → ¬ (read_file (remove_all d (c ∷ path)).0 (c ∷ path ++ codes "/" ++ name) ≡ found bytes)
read_file-remove_all d c path name bytes ok r =
    let dir = c ∷ path in
    let u = under-++ dir name in
    ground (
      r,
      arith,
      mem-filter_under dir (dir ++ codes "/" ++ name) d.dirs u,
      assoc-outside dir (dir ++ codes "/" ++ name) d.files.entries u,
    )

pub write_file-remove_all :
    (d : Folders) (c : ℕ) (path name : Text) (bytes : List ℕ)
    → (remove_all d (c ∷ path)).1 ≡ true
    → write_file (remove_all d (c ∷ path)).0 (c ∷ path ++ codes "/" ++ name) bytes
      ≡ ((remove_all d (c ∷ path)).0, false)
write_file-remove_all d c path name bytes ok =
    let dir = c ∷ path in
    ground (
      arith,
      mem-filter_under dir (dir_of (dir ++ codes "/" ++ name)) d.dirs (under-dir_of dir name),
    )

instance abbrev pub memory_disks : Disks Folders
memory_disks = record {
  read_file = read_file;
  make_dir = make_dir;
  remove_all = remove_all;
  write_file = write_file;
  read-write = read-write_file;
  read-make_dir = read_file-make_dir;
  read-remove_all = read_file-remove_all;
  write-remove_all = write_file-remove_all;
}

-- a base directory that is there, with nothing in it
abbrev pub empty_home : Folders
empty_home = record { dirs = codes "/home" ∷ []; files = GoMap.empty }
