-- ===== src/Versions.antt =====
-- internal/version/store.go: versions of an entry, and the difference of two of them.
pub mod History
pub mod Tables
pub mod Prunes
pub mod Tests
use acorde.Base.{
  ◌↔◌, ℕ, ◌≡◌, ◌∙◌, refl, Bool, true, false, not, ◌&&◌, ◌||◌, none, some, inl, inr, Bool-cases,
  List, [], ◌∷◌, if◌then◌else◌, arith,
}
use acorde.Base.Equality.{nat_eq, list_eq, list_beq, list_beq_iff}
use acorde.Base.Members.{mem}
use acorde.Base.Text.{Text, codes}
use acorde.Core.Uuid.{Uuid}
use acorde.GoMap
use acorde.GoMap.{GoMap, get, put, keys, has, assoc}
use acorde.GoMap.Laws.{get-put}

pub record Version : Type 0 where
  pub id : ℕ
  pub entry_id : Uuid
  pub content : List ℕ
  pub tags : List Text
  pub timestamp : ℕ
  pub created_at : ℕ
  pub author : Text

pub record Diff : Type 0 where
  pub old_version : ℕ
  pub new_version : ℕ
  pub content_diff : Text
  pub tags_added : List Text
  pub tags_removed : List Text

-- m[t], which is false for a missing key
abbrev pub marked : GoMap Text Bool → Text → Bool
marked m t = elim (get m t) [ none ↦ false | some b ↦ b ]

-- for _, t := range tags { m[t] = true }
unfoldable mark_all : GoMap Text Bool → List Text → GoMap Text Bool
mark_all m [] = m
mark_all m (t ∷ rest) = mark_all (put m t true) rest

-- for t := range m { if !other[t] { result = append(result, t) } }
unfoldable unmarked : GoMap Text Bool → List Text → List Text
unmarked other [] = []
unmarked other (t ∷ rest) =
    let later = unmarked other rest in if marked other t then later else t ∷ later

unfoldable compute_diff : Version → Version → Diff
unfolding mark_all unmarked
compute_diff old new =
    let old_tags = mark_all GoMap.empty old.tags in
    let new_tags = mark_all GoMap.empty new.tags in
    record {
      old_version = old.id;
      new_version = new.id;
      content_diff = if list_beq old.content new.content then [] else codes "content changed";
      tags_added = unmarked old_tags (keys new_tags);
      tags_removed = unmarked new_tags (keys old_tags);
    }

marked-mark_all :
    (m : GoMap Text Bool) (l : List Text) (t : Text)
    → marked (mark_all m l) t ≡ (marked m t || mem t l)
unfolding mark_all
marked-mark_all m [] t = ground arith
marked-mark_all m (x ∷ l) t =
    marked-mark_all (put m x true) l t ∙ ground (arith, get-put m x t true)

mem-unmarked :
    (other : GoMap Text Bool) (l : List Text) (t : Text)
    → mem t (unmarked other l) ≡ (mem t l && not (marked other t))
unfolding unmarked
mem-unmarked other [] t = refl
mem-unmarked other (x ∷ l) t = elim (Bool-cases (marked other x)) [
  | inl c ↦ ground (arith, c, mem-unmarked other l t, list_beq_iff x t)
  | inr c ↦ ground (arith, c, mem-unmarked other l t, list_beq_iff x t)
]

-- the keys of the map are the tags that were marked
mem-keys : {V : Type 0} (m : GoMap Text V) (t : Text) → mem t (keys m) ≡ has m t
unfolding assoc
mem-keys {V} m t = go m.entries
  where
    go :
        (l : List (Text × V))
        → mem t (keys (record { entries = l })) ≡ has (record { entries = l }) t
    go [] = refl
    go ((k, v) ∷ l) = ground (arith, go l)

has-mark_all :
    (m : GoMap Text Bool) (l : List Text) (t : Text) → has (mark_all m l) t ≡ (has m t || mem t l)
unfolding mark_all
has-mark_all m [] t = ground arith
has-mark_all m (x ∷ l) t = has-mark_all (put m x true) l t ∙ ground (arith, get-put m x t true)

no_marks :
    (t : Text)
    → (marked GoMap.empty t ≡ false) × (has (GoMap.empty {K = Text} {V = Bool}) t ≡ false)
unfolding assoc
no_marks t = (refl, refl)

-- The tags of the new version are those of the old one without the removed ones and with the added
-- ones; what is added was not there before, what is removed was; and the content is reported as
-- changed exactly when it is.
compute_diff_lem :
    (old new : Version) (t : Text)
    → (mem t (compute_diff old new).tags_added ≡ (mem t new.tags && not (mem t old.tags)))
      × (mem t (compute_diff old new).tags_removed ≡ (mem t old.tags && not (mem t new.tags)))
      × (mem t new.tags ≡ (
          (mem t old.tags && not (mem t (compute_diff old new).tags_removed))
          || mem t (compute_diff old new).tags_added))
      × (((compute_diff old new).content_diff ≡ []) ↔ (old.content ≡ new.content))
unfolding compute_diff
compute_diff_lem old new t =
    let old_tags = mark_all GoMap.empty old.tags in
    let new_tags = mark_all GoMap.empty new.tags in
    let added : mem t (unmarked old_tags (keys new_tags))
        ≡ (mem t new.tags && not (mem t old.tags)) =
      mem-unmarked old_tags (keys new_tags) t
      ∙ ground (
        arith,
        mem-keys new_tags t,
        has-mark_all GoMap.empty new.tags t,
        marked-mark_all GoMap.empty old.tags t,
        no_marks t,
      ) in
    let removed : mem t (unmarked new_tags (keys old_tags))
        ≡ (mem t old.tags && not (mem t new.tags)) =
      mem-unmarked new_tags (keys old_tags) t
      ∙ ground (
        arith,
        mem-keys old_tags t,
        has-mark_all GoMap.empty old.tags t,
        marked-mark_all GoMap.empty new.tags t,
        no_marks t,
      ) in
    (
      added,
      removed,
      ground (arith, added, removed),
      ground (arith, list_beq_iff old.content new.content),
    )
