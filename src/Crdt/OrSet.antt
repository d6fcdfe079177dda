-- ===== src/Crdt/OrSet.antt =====
-- internal/crdt/orset.go: the observed-remove set of tags. Every add carries a token of its own,
-- and a remove takes away the tokens that it has seen.
pub mod Views
pub mod Merge
use acorde.Base.{
  ℕ, Bool, true, false, ◌&&◌, List, [], ◌∷◌, ◌≡◌, ◌↔◌, foldl, length, arith, ◌==◌, ==_iff,
  if◌then◌else◌,
}
use acorde.Base.Equality.{Eq, nat_eq, list_eq, list_beq, list_beq_iff}
use acorde.Base.Text.{Text}
use acorde.Core.Uuid.{Uuid}
use acorde.GoMap
use acorde.GoMap.{GoMap, GoSet, has, keys}
use acorde.GoMap.Sets.{insert, insert_if, insert_entry}

pub record TagToken : Type 0 where
  pub tag : Text
  pub token : Uuid

abbrev pub tag_token_beq : TagToken → TagToken → Bool
tag_token_beq a b = list_beq a.tag b.tag && a.token == b.token

pub tag_token_beq_iff : (a b : TagToken) → (tag_token_beq a b ≡ true) ↔ (a ≡ b)
tag_token_beq_iff a b = ground (arith, list_beq_iff a.tag b.tag, ==_iff a.token b.token)

-- Go's `==` on the struct
instance abbrev pub tag_token_eq : Eq TagToken
tag_token_eq = record { beq = tag_token_beq; beq_iff = tag_token_beq_iff }

pub record OrSet : Type 0 where
  pub adds : GoSet TagToken
  pub removes : GoSet TagToken

abbrev pub new_or_set : OrSet
new_or_set = record { adds = GoMap.empty; removes = GoMap.empty }

unfoldable pub add_with_token : OrSet → Text → Uuid → OrSet
add_with_token s tag token = record s { adds = insert s.adds (record { tag = tag; token = token }) }

-- `token` is the result of uuid.New()
unfoldable pub add : OrSet → Text → Uuid → OrSet × Uuid
unfolding add_with_token
add s tag token = (add_with_token s tag token, token)

unfoldable pub remove : OrSet → Text → OrSet
remove s tag = record s {
  removes = foldl (insert_if (λ tt. list_beq tt.tag tag)) s.removes s.adds.entries;
}

-- the loop of `Contains`
unfoldable pub contains_loop : OrSet → Text → List TagToken → Bool
contains_loop s tag [] = false
contains_loop s tag (tt ∷ rest) =
    let later = contains_loop s tag rest in
    if list_beq tt.tag tag then (if has s.removes tt then later else true) else later

unfoldable pub contains : OrSet → Text → Bool
unfolding contains_loop
contains s tag = contains_loop s tag (keys s.adds)

-- the loop of `Elements` that fills `seen`
unfoldable pub seen_loop : OrSet → GoSet Text → List TagToken → GoSet Text
seen_loop s seen [] = seen
seen_loop s seen (tt ∷ rest) =
    seen_loop s (if has s.removes tt then seen else insert seen tt.tag) rest

unfoldable pub elements : OrSet → List Text
unfolding seen_loop
elements s = keys (seen_loop s GoMap.empty (keys s.adds))

unfoldable pub merge : OrSet → OrSet → OrSet
merge s other = record {
  adds = foldl insert_entry s.adds other.adds.entries;
  removes = foldl insert_entry s.removes other.removes.entries;
}

unfoldable pub clone : OrSet → OrSet
clone s = record {
  adds = foldl insert_entry GoMap.empty s.adds.entries;
  removes = foldl insert_entry GoMap.empty s.removes.entries;
}

unfoldable pub size : OrSet → ℕ
size s = length (elements s)

unfoldable pub all_adds : OrSet → List TagToken
all_adds s = keys s.adds

unfoldable pub all_removes : OrSet → List TagToken
all_removes s = keys s.removes

unfoldable pub remove_token : OrSet → Uuid → OrSet
remove_token s token = record s {
  removes = foldl (insert_if (λ tt. tt.token == token)) s.removes s.adds.entries;
}
