-- ===== src/Versions/Tests.antt =====
-- A history of internal/version/store.go that keeps one version of each entry.
use acorde.Base.{◌≡◌, refl, true, some, [], ◌∷◌, map, arith, List, if◌then◌else◌, ◌==◌, leb}
use acorde.Base.Equality.{nat_eq, list_eq}
use acorde.Base.Selections.{filter, order, insert_last, has_id, distinct, insert}
use acorde.Base.Text.{codes}
use acorde.Crdt.Tests.{sample_uuids}
use acorde.AccessControl.Tests.{plain_json}
use acorde.Versions.{Version}
use acorde.Versions.History.{
  VersionTable, VersionsStore, version_time, version_of, save_version, get_history, get_version_at,
}
use acorde.Versions.Tables.{IsVersions}
use acorde.Versions.Prunes.{
  limited, head_lookup, get_history-save_version, get_version_at-get_history,
}

abbrev one_version : VersionTable
one_version = record {
  rows =
      record {
        id = 4;
        entry_id = sample_uuids.string 7;
        content = 1 ∷ [];
        tags = plain_json.marshal (codes "work" ∷ []);
        timestamp = 5;
        created_at = 100;
        author = some (codes "ann");
      }
      ∷ [];
  last_id = 4;
}

abbrev store : VersionsStore
store = record { db = one_version; max_versions = 1 }

one_version-IsVersions : IsVersions one_version
unfolding distinct has_id
one_version-IsVersions = record { distinct = refl; fresh = λ n m. ground (arith, m) }

abbrev listed : List Version
listed = map version_of one_version.rows

store-get_history : get_history store 7 [] ≡ some listed
unfolding get_history filter order insert
store-get_history = refl

-- the version of time 3 is not kept
get_history-save_version_example :
    let new : Version = record {
      id = 5;
      entry_id = 7;
      content = 2 ∷ [];
      tags = map plain_json.coerce [];
      timestamp = 3;
      created_at = 200;
      author = codes "bob";
    } in
    let (next, done) = save_version store 7 (2 ∷ []) [] 3 (codes "bob") 200 [] in
    (done ≡ true)
    × IsVersions next.db
    × (get_history next 7 []
        ≡ some (if 7 == 7 then limited 1 (insert_last version_time new listed) else listed))
get_history-save_version_example =
    get_history-save_version store 7 7 (2 ∷ []) [] 3 (codes "bob") 200 listed one_version-IsVersions
      refl refl store-get_history

get_version_at-get_history_example :
    get_version_at store 7 6 [] ≡ head_lookup (filter (λ v. leb v.timestamp 6) listed)
get_version_at-get_history_example =
    get_version_at-get_history store 7 6 listed refl store-get_history
