-- ===== src/Crdt/Tests/Sets.antt =====
-- The sets of internal/crdt/lww.go and internal/crdt/orset.go at small examples.
use acorde.Base.{◌≡◌, refl, true, false, some}
use acorde.Base.Equality.{nat_eq, list_eq}
use acorde.Base.Text.{Text, codes}
use acorde.Core.Entry.{zero_entry}
use acorde.GoMap.{get, has, assoc, assign}
use acorde.Crdt.Lww
use acorde.Crdt.Lww.{LwwSet, LwwElement, tombstone, store, new_lww_set}
use acorde.Crdt.Lww.Merge.{merge_tie}
use acorde.Crdt.Lww.Invariant.{IsLww, new_lww_set-IsLww, store-IsLww}
use acorde.Crdt.OrSet.{tag_token_eq, OrSet, new_or_set, add_with_token, remove, contains, merge}
use acorde.Crdt.OrSet.Merge.{
  IsOrSet, new_or_set-IsOrSet, add_with_token-IsOrSet, add_wins, remove_wins,
}
use acorde.Crdt.Tests.{sample_uuids, work}

abbrev pub home : Text
home = codes "home"

-- a set that holds one tag under one token
abbrev at_work : OrSet
at_work = add_with_token new_or_set work 100

at_work-IsOrSet : IsOrSet at_work
at_work-IsOrSet = add_with_token-IsOrSet new_or_set work 100 new_or_set-IsOrSet

new_to_work : has at_work.adds (record { tag = work; token = 201 }) ≡ false
unfolding add_with_token assign assoc
new_to_work = refl

add_wins_example :
    (contains (merge (add_with_token at_work work 201) (remove at_work work)) work ≡ true)
    × (contains (merge (remove at_work work) (add_with_token at_work work 201)) work ≡ true)
add_wins_example =
    add_wins at_work at_work at_work-IsOrSet at_work-IsOrSet work 201 new_to_work new_to_work

remove_wins_example :
    (contains (merge at_work (remove at_work work)) work ≡ false)
    × (contains (merge (remove at_work work) at_work) work ≡ false)
remove_wins_example = remove_wins at_work at_work work (λ token h. h)

-- two versions of one entry that differ in their types alone
abbrev pub version : Text → LwwElement
version type = record {
  entry = record zero_entry { id = 7; type = type; updated_at = 3 };
  timestamp = 3;
  deleted = false;
}

abbrev notes : LwwSet
notes = store new_lww_set 7 (version (codes "note"))

abbrev logs : LwwSet
logs = store new_lww_set 7 (version (codes "log"))

notes-IsLww : IsLww notes
notes-IsLww =
    store-IsLww new_lww_set 7 (version (codes "note")) new_lww_set-IsLww
      (record { keyed = refl; stamped = refl; flagged = refl })

logs-IsLww : IsLww logs
logs-IsLww =
    store-IsLww new_lww_set 7 (version (codes "log")) new_lww_set-IsLww
      (record { keyed = refl; stamped = refl; flagged = refl })

notes_7 : get notes.elements 7 ≡ some (version (codes "note"))
unfolding assign assoc
notes_7 = refl

logs_7 : get logs.elements 7 ≡ some (version (codes "log"))
unfolding assign assoc
logs_7 = refl

merge_tie_example :
    (get (Lww.merge notes logs).elements 7 ≡ some (version (codes "note")))
    × (get (Lww.merge logs notes).elements 7 ≡ some (version (codes "log")))
merge_tie_example =
    merge_tie notes logs 7 (version (codes "note")) (version (codes "log")) notes-IsLww.distinct
      logs-IsLww.distinct notes_7 logs_7 refl refl (λ live. (refl, refl))
