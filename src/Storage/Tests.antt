-- ===== src/Storage/Tests.antt =====
-- The tables of internal/storage/sqlite/sqlite.go with two entries.
use acorde.Base.{◌≡◌, refl, true, false, none, some, List, [], ◌∷◌, if◌then◌else◌}
use acorde.Base.Equality.{nat_eq, list_eq}
use acorde.Base.Text.{codes}
use acorde.Core.Uuid.{Uuid}
use acorde.Core.Entry.{Entry}
use acorde.Crdt.Tests.{sample_uuids}
use acorde.Storage.Sql.{mark_rows, other_tags, Tables, upsert_row, tags_at}
use acorde.Storage.{
  put_rows, insert_tags, answer, failed, not_found, ListFilter, op_put, op_delete, put, get, list,
  delete, apply_batch, get_max_timestamp,
}
use acorde.Storage.Puts.{is_storable, written, put_lem}
use acorde.Storage.Lists.{IsRows}
use acorde.Storage.Queries.{Descending, entry_at, is_wanted, list-get}
use acorde.Storage.Keeps.{IsTables}
use acorde.Storage.Refines.{SameEntry, writes, marks, replay, view, Step, Run, get-Run}
use acorde.Storage.Batches.{apply_batch-one_by_one, delete-get}

abbrev pub no_rows : Tables
no_rows = record { entries = []; tags = [] }

abbrev pub a_note : Entry
a_note = record {
  id = 7;
  type = codes "note";
  content = 1 ∷ [];
  tags = codes "home" ∷ [];
  created_at = 3;
  updated_at = 5;
  deleted = false;
}

-- the tag stands twice
abbrev doubled : Entry
doubled = record a_note { tags = codes "home" ∷ codes "home" ∷ [] }

abbrev pub one_note : Tables
one_note = written no_rows a_note

pub no_rows-IsTables : IsTables no_rows
unfolding tags_at
no_rows-IsTables = record { rows = tt; owned = λ id n. refl; no_repeat = λ id. refl }

storable : is_storable a_note ≡ true
storable = refl

rejected : is_storable doubled ≡ false
rejected = refl

read_note : get one_note 7 [] ≡ answer a_note
unfolding get upsert_row tags_at other_tags
read_note = refl

put_lem_example : put one_note doubled [] ≡ (one_note, false)
put_lem_example = put_lem one_note doubled

abbrev after_put : Tables
after_put = (put no_rows a_note []).0

abbrev after_delete : Tables
after_delete = (delete after_put 7 []).0

-- the second statement fails
abbrev after_fault : Tables
after_fault = (put after_delete a_note (false ∷ true ∷ [])).0

a_run : Run no_rows (writes a_note ∷ marks 7 ∷ []) after_fault
unfolding put put_rows insert_tags delete upsert_row mark_rows other_tags tags_at
a_run =
    Run.then_steps
      (Run.then_steps (Run.then_steps Run.stays (Step.puts a_note [])) (Step.deletes 7 []))
      (Step.puts a_note (false ∷ true ∷ []))

get-Run_example :
    IsTables after_fault
    × SameEntry (view after_fault 7) (replay (writes a_note ∷ marks 7 ∷ []) (view no_rows) 7)
get-Run_example = get-Run 7 no_rows-IsTables a_run

abbrev pub tagged_home : ListFilter
tagged_home = record {
  type = none;
  tag = some (codes "home");
  since = some 5;
  until = none;
  deleted = false;
  limit = 0;
  offset = 0;
}

one_note-IsRows : IsRows one_note.entries
unfolding upsert_row
one_note-IsRows = (refl, refl, tt)

list-get_example :
    (l : List Entry) × (list one_note tagged_home [] ≡ answer l)
    × Descending l
    × ((id : Uuid)
        → entry_at l id ≡ (elim (get one_note id []) [
          | failed ↦ none
          | not_found _ ↦ none
          | answer e ↦ if is_wanted tagged_home e then some e else none
        ]))
list-get_example = list-get one_note tagged_home one_note-IsRows refl refl refl

apply_batch-one_by_one_example :
    apply_batch one_note (op_delete a_note ∷ op_put doubled ∷ []) [] ≡ (one_note, false)
apply_batch-one_by_one_example =
    apply_batch-one_by_one one_note (op_delete a_note ∷ op_put doubled ∷ [])

delete-get_example :
    ((delete one_note 7 []).1 ≡ (elim (get one_note 7 []) [
      | failed ↦ failed
      | not_found i ↦ not_found i
      | answer _ ↦ answer tt
    ]))
    × (get (delete one_note 7 []).0 7 [] ≡ (elim (get one_note 7 []) [
      | failed ↦ failed
      | not_found i ↦ not_found i
      | answer e ↦ answer (record e { deleted = true })
    ]))
    × (get_max_timestamp (delete one_note 7 []).0 [] ≡ get_max_timestamp one_note [])
delete-get_example = delete-get one_note 7 7
