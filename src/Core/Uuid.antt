-- ===== src/Core/Uuid.antt =====
-- github.com/google/uuid, which this repository only calls. A UUID is its 16 bytes, read as one
-- number; a random `uuid.New()` is an argument of the operation that draws it.
use acorde.Base.{ℕ, ◌≡◌, ap, ◌==◌, arith}
use acorde.Base.Equality.{nat_eq, list_beq, list_beq_iff}
use acorde.Base.Text.{Text}

abbrev pub Uuid : Type 0
Uuid = ℕ

pub record UuidPackage : Type 0 where
  -- id.String()
  pub string : Uuid → Text
  -- the first result of uuid.Parse
  pub parse : Text → Uuid
  -- uuid.NewSHA1(space, name)
  pub new_sha1 : Uuid → Text → Uuid
  -- what Parse makes of the form that String writes
  pub parse-string : (id : Uuid) → parse (string id) ≡ id

module _ ⦃uuids : UuidPackage⦄ where
  -- different ids have different strings
  pub beq-string : (a b : Uuid) → list_beq (uuids.string a) (uuids.string b) ≡ (a == b)
  beq-string a b = ground (
    arith,
    list_beq_iff (uuids.string a) (uuids.string b),
    uuids.parse-string a,
    uuids.parse-string b,
    λ (e : uuids.string a ≡ uuids.string b). ap uuids.parse e,
    λ (e : a ≡ b). ap uuids.string e,
  )
