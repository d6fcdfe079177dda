-- ===== src/Schema.antt =====
-- internal/schema/validator.go: the schemas that are registered for entry types. The library
-- github.com/xeipuuv/gojsonschema is a parameter.
use acorde.Base.{
  ℕ, ◌≡◌, Bool, true, false, Option, none, some, List, [], ◌∷◌, ◌++◌, if◌then◌else◌, arith,
}
use acorde.Base.Equality.{nat_eq, list_eq, list_beq}
use acorde.Base.Text.{Text, codes}
use acorde.GoMap
use acorde.GoMap.{GoMap, get, put, delete, has, keys}
use acorde.GoMap.Laws.{get-put, get-delete}

pub record ValidationError : Type 0 where
  pub field : Text
  pub description : Text

pub record ValidationResult : Type 0 where
  pub valid : Bool
  pub errors : List ValidationError

-- what a validation gave: the message of an error, or the list of complaints
pub data Checked : Type 0 where
  broken : Text → Checked
  checked : List ValidationError → Checked

pub record JsonSchema (Compiled : Type 0) : Type 0 where
  -- gojsonschema.NewSchema, no result for an error
  pub compile : List ℕ → Option Compiled
  -- the method Validate of a compiled schema
  pub check : Compiled → List ℕ → Checked

pub record Schema (Compiled : Type 0) : Type 0 where
  pub id : Text
  pub name : Text
  pub version : ℕ
  pub definition : List ℕ
  pub compiled : Option Compiled

pub record Registry (Compiled : Type 0) : Type 0 where
  pub schemas : GoMap Text (Schema Compiled)

abbrev pub new_registry : {Compiled : Type 0} → Registry Compiled
new_registry = record { schemas = GoMap.empty }

-- the result that is made of what the library gives
abbrev pub verdict : Checked → ValidationResult
verdict (broken message) = record {
  valid = false;
  errors =
      record { field = codes "content"; description = codes "validation error: " ++ message } ∷ [];
}
verdict (checked []) = record { valid = true; errors = [] }
verdict (checked (e ∷ errors)) = record { valid = false; errors = e ∷ errors }

module _ {Compiled : Type 0} ⦃library : JsonSchema Compiled⦄ where
  -- no result for a definition that is no schema
  unfoldable pub register : Registry Compiled → Text → Schema Compiled → Option (Registry Compiled)
  register r entry_type schema = elim (library.compile schema.definition) [
    | none ↦ none
    | some compiled ↦
        some (record {
          schemas = put r.schemas entry_type (record schema { compiled = some compiled });
        })
  ]

  unfoldable pub register_from_json :
      Registry Compiled → Text → Text → List ℕ → Option (Registry Compiled)
  unfolding register
  register_from_json r entry_type name definition = register r entry_type (record {
    id = entry_type ++ codes "-schema";
    name = name;
    version = 1;
    definition = definition;
    compiled = none;
  })

  unfoldable pub unregister : Registry Compiled → Text → Registry Compiled
  unregister r entry_type = record { schemas = delete r.schemas entry_type }

  abbrev pub has_schema : Registry Compiled → Text → Bool
  has_schema r entry_type = has r.schemas entry_type

  abbrev pub list_schemas : Registry Compiled → List Text
  list_schemas r = keys r.schemas

  unfoldable pub validate_schema : Schema Compiled → List ℕ → ValidationResult
  validate_schema s content = elim s.compiled [
    | none ↦ record { valid = true; errors = [] }
    | some compiled ↦ verdict (library.check compiled content)
  ]

  unfoldable pub validate : Registry Compiled → Text → List ℕ → ValidationResult
  unfolding validate_schema
  validate r entry_type content = elim (get r.schemas entry_type) [
    | none ↦ record { valid = true; errors = [] }
    | some schema ↦ validate_schema schema content
  ]

  -- A schema that compiles takes effect for its type at once: its content is judged by the compiled
  -- schema, and the content of every other type as before.
  pub validate-register :
      (r : Registry Compiled) (entry_type name : Text) (definition : List ℕ) (compiled : Compiled)
      → library.compile definition ≡ some compiled
      → (r' : Registry Compiled) × (register_from_json r entry_type name definition ≡ some r')
        × ((other : Text) (content : List ℕ)
            → validate r' other content ≡ (
                if list_beq entry_type other
                then verdict (library.check compiled content)
                else validate r other content))
  unfolding register_from_json validate
  validate-register r entry_type name definition compiled h =
      let s : Schema Compiled = record {
        id = entry_type ++ codes "-schema";
        name = name;
        version = 1;
        definition = definition;
        compiled = some compiled;
      } in
      (
        record { schemas = put r.schemas entry_type s },
        ground (arith, h),
        λ other content. ground (arith, get-put r.schemas entry_type other s),
      )

  -- Once its schema is unregistered, every content of a type is valid; other types are as before.
  pub validate-unregister :
      (r : Registry Compiled) (entry_type other : Text) (content : List ℕ)
      → validate (unregister r entry_type) other content ≡ (
          if list_beq entry_type other
          then record { valid = true; errors = [] }
          else validate r other content)
  unfolding unregister validate
  validate-unregister r entry_type other content =
      ground (arith, get-delete r.schemas entry_type other)
