-- ===== src/AccessControl/Packages.antt =====
-- What internal/acl/store.go relies on: encoding/json for its lists of peers, and database/sql with
-- SQLite for its table. Each is an interface whose laws are the documented behaviour.
use acorde.Base.{ℕ, ◌≡◌, Option, none, some, List, map, if◌then◌else◌}
use acorde.Base.Equality.{nat_eq, list_beq}
use acorde.Base.Text.{Text}

-- json.Marshal and json.Unmarshal of []string. Both replace what is not UTF-8, as `coerce` does.
pub record JsonPackage : Type 0 where
  pub marshal : List Text → List ℕ
  pub unmarshal : List ℕ → List Text
  pub coerce : Text → Text
  pub unmarshal-marshal : (l : List Text) → unmarshal (marshal l) ≡ map coerce l
  pub coerce-unmarshal : (document : List ℕ) → map coerce (unmarshal document) ≡ unmarshal document

-- a row of the table entry_acl
pub record Row : Type 0 where
  pub entry_id : Text
  pub owner : Text
  pub readers : List ℕ
  pub writers : List ℕ
  pub public : ℕ

-- The statements on the table, whose primary key is entry_id. `Ready` says that the database
-- answers; one that does not fails, which is no result.
pub record Database (Db : Type 0) : Type 1 where
  -- INSERT OR REPLACE INTO entry_acl
  pub insert_or_replace : Db → Row → Option Db
  -- SELECT ... WHERE entry_id = ?, where no row is sql.ErrNoRows
  pub select : Db → Text → Option (Option (Row))
  -- DELETE ... WHERE entry_id = ?
  pub delete : Db → Text → Option Db
  -- SELECT of all rows
  pub select_all : Db → Option (List (Row))
  pub Ready : Db → Type 0
  pub insert-Ready :
      (s : Db) (row : Row)
      → Ready s
      → (s' : Db) × (insert_or_replace s row ≡ some s')
        × Ready s'
        × ((k : Text)
            → select s' k ≡ (if list_beq row.entry_id k then some (some row) else select s k))
  pub delete-Ready :
      (s : Db) (key : Text)
      → Ready s
      → (s' : Db) × (delete s key ≡ some s')
        × Ready s'
        × ((k : Text) → select s' k ≡ (if list_beq key k then some none else select s k))
  pub select-Ready :
      (s : Db) (k : Text) → Ready s → (found : Option (Row)) × (select s k ≡ some found)
  pub select-key :
      (s : Db) (k : Text) (row : Row) → Ready s → select s k ≡ some (some row) → row.entry_id ≡ k
