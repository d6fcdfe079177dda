-- ===== src/AccessControl/Tests.antt =====
-- A table in memory and a plain coding of lists, on which the operations of internal/acl/store.go
-- run.
use acorde.Base.{
  ℕ, zero, suc, ◌≡◌, refl, ap, true, false, some, List, [], ◌∷◌, map, ◌==◌, if◌then◌else◌, arith,
  ◌∙◌,
}
use acorde.Base.Equality.{nat_eq, list_eq, list_beq_iff}
use acorde.Base.Text.{Text, codes}
use acorde.Core.Uuid.{Uuid}
use acorde.Core.Entry.{Acl}
use acorde.GoMap
use acorde.GoMap.{GoMap, get, put, assoc, assign}
use acorde.GoMap.Laws.{get-put, get-delete}
use acorde.Crdt.Tests.{sample_uuids}
use acorde.AccessControl.Packages.{Row, JsonPackage, Database}
use acorde.AccessControl.Table.{stored, set_acl-get_acl}
use acorde.AccessControl.{row_of, set_acl, get_acl, can_write, check_write}

-- a list of strings as one string: every byte moved up by one, and a zero after each string
abbrev encode_text : Text → List ℕ → List ℕ
encode_text [] rest = 0 ∷ rest
encode_text (c ∷ t) rest = suc c ∷ encode_text t rest

abbrev pub encode : List Text → List ℕ
encode [] = []
encode (t ∷ l) = encode_text t (encode l)

-- a byte in front of the first string
abbrev onto_first : ℕ → List Text → List Text
onto_first c [] = (c ∷ []) ∷ []
onto_first c (t ∷ l) = (c ∷ t) ∷ l

abbrev pub decode : List ℕ → List Text
decode [] = []
decode (zero ∷ l) = [] ∷ decode l
decode (suc c ∷ l) = onto_first c (decode l)

decode-encode_text : (t : Text) (rest : List ℕ) → decode (encode_text t rest) ≡ t ∷ decode rest
decode-encode_text [] rest = refl
decode-encode_text (c ∷ t) rest = ap (onto_first c) (decode-encode_text t rest)

abbrev pub plain : Text → Text
plain t = t

pub map-plain : (l : List Text) → map plain l ≡ l
map-plain [] = refl
map-plain (t ∷ l) = ap (λ r. t ∷ r) (map-plain l)

pub decode-encode : (l : List Text) → decode (encode l) ≡ map plain l
decode-encode [] = refl
decode-encode (t ∷ l) = decode-encode_text t (encode l) ∙ ap (λ r. t ∷ r) (decode-encode l)

instance abbrev pub plain_json : JsonPackage
plain_json = record {
  marshal = encode;
  unmarshal = decode;
  coerce = plain;
  unmarshal-marshal = decode-encode;
  coerce-unmarshal = λ document. map-plain (decode document);
}

abbrev pub Rows : Type 0
Rows = GoMap Text Row

-- every row stands under its key
abbrev Keyed : Rows → Type 0
Keyed m = (k : Text) (row : Row) → get m k ≡ some row → row.entry_id ≡ k

instance abbrev pub table : Database Rows
table = record {
  insert_or_replace = λ s row. some (put s row.entry_id row);
  select = λ s k. some (get s k);
  delete = λ s k. some (GoMap.delete s k);
  select_all = λ s. some (GoMap.values s);
  Ready = Keyed;
  insert-Ready = λ s row ready. (
    put s row.entry_id row,
    refl,
    λ k r h.
        ground (arith, h, get-put s row.entry_id k row, ready k r, list_beq_iff row.entry_id k),
    λ k. ap some (get-put s row.entry_id k row) ∙ ground arith,
  );
  delete-Ready = λ s key ready. (
    GoMap.delete s key,
    refl,
    λ k r h. ground (arith, h, get-delete s key k, ready k r),
    λ k. ap some (get-delete s key k) ∙ ground arith,
  );
  select-Ready = λ s k ready. (get s k, refl);
  select-key = λ s k row ready h. ready k row (ground (arith, h));
}

abbrev pub no_rows : Rows
no_rows = GoMap.empty

no_rows-Ready : table.Ready no_rows
unfolding assoc
no_rows-Ready k row h = absurd (cc)

abbrev pub ann : Text
ann = codes "ann"

abbrev pub bob : Text
bob = codes "bob"

-- the list of entry 7, which ann owns and bob may read and write
abbrev pub shared : Acl
shared = record {
  entry_id = 7;
  owner = ann;
  readers = bob ∷ [];
  writers = bob ∷ [];
  public = false;
  timestamp = 3;
}

abbrev pub one_row : Rows
one_row = put no_rows (7 ∷ []) (row_of shared)

pub one_row-Ready : table.Ready one_row
unfolding assoc assign
one_row-Ready k row h = ground (arith, h, list_beq_iff (7 ∷ []) k)

abbrev pub read_back : Acl
read_back = record shared { timestamp = 0 }

pub one_row-get_acl : get_acl one_row 7 ≡ some read_back
unfolding get_acl assoc assign
one_row-get_acl = refl

set_acl-get_acl_example :
    (s' : Rows) × (set_acl no_rows shared ≡ some s')
    × table.Ready s'
    × ((entry_id : Uuid)
        → get_acl s' entry_id
          ≡ (if 7 == entry_id then some (stored shared) else get_acl no_rows entry_id))
set_acl-get_acl_example = set_acl-get_acl no_rows no_rows-Ready shared

bob_writes : check_write one_row 7 bob ≡ some true
unfolding check_write get_acl can_write assoc assign
bob_writes = refl
