-- ===== src/Blobs/Files.antt =====
-- The files under the directory of internal/blob/store.go, as package os reads and changes them. A
-- path is the list of its names below that directory. The disk fails only where a name is missing, or
-- is a directory where a file is asked for.
use acorde.Base.{ℕ, Bool, not, ◌&&◌, ◌||◌, Option, none, some, List, [], ◌∷◌, if◌then◌else◌}
use acorde.Base.Equality.{nat_eq, list_eq}
use acorde.Base.Text.{Text}
use acorde.GoMap.{GoMap, GoSet, get, put, delete, has}

abbrev pub FilePath : Type 0
FilePath = List Text

pub record Disk : Type 0 where
  pub dirs : GoSet FilePath
  pub files : GoMap FilePath (List ℕ)

abbrev pub parent : FilePath → FilePath
parent [] = []
parent (a ∷ []) = []
parent (a ∷ b ∷ p) = a ∷ parent (b ∷ p)

-- os.Stat, as far as its error goes
abbrev pub exists : Disk → FilePath → Bool
exists d p = has d.files p || has d.dirs p

-- os.MkdirAll of a directory in the store's
unfoldable pub make_dir : Disk → Text → Option Disk
make_dir d name =
    if has d.files (name ∷ []) then none else some (record d { dirs = put d.dirs (name ∷ []) tt })

-- os.WriteFile
unfoldable pub write_file : Disk → FilePath → List ℕ → Option Disk
write_file d p bytes =
    if has d.dirs (parent p) && not (has d.dirs p)
    then some (record d { files = put d.files p bytes })
    else none

-- os.Rename of a file
unfoldable pub rename : Disk → FilePath → FilePath → Option Disk
rename d from to = elim (get d.files from) [
  | none ↦ none
  | some bytes ↦
      if has d.dirs (parent to) && not (has d.dirs to)
      then some (record d { files = put (delete d.files from) to bytes })
      else none
]

-- os.Remove of what is no directory; none where there is nothing
unfoldable pub remove : Disk → FilePath → Option Disk
remove d p = if has d.files p then some (record d { files = delete d.files p }) else none

-- os.ReadFile; none for a directory, some none where there is nothing
unfoldable pub read_file : Disk → FilePath → Option (Option (List ℕ))
read_file d p = if has d.dirs p then none else some (get d.files p)
