-- ===== src/Blobs/Tests.antt =====
-- A store of internal/blob/store.go with a hash that knows one blob.
use acorde.Base.{
  ℕ, suc, zero, ◌≡◌, refl, Bool, true, false, List, [], ◌∷◌, length, if◌then◌else◌, arith, inl, inr,
  Bool-cases,
}
use acorde.Base.Equality.{nat_eq, list_eq, list_beq, list_beq_iff}
use acorde.Base.Slices.{take}
use acorde.Base.Text.{Text}
use acorde.GoMap
use acorde.GoMap.{GoMap, has, assoc, assign, put}
use acorde.Blobs.Files.{Disk}
use acorde.Blobs.{
  Sha256, failed, done, new_store, list_blobs, garbage_collect, compute_cid, put_blob,
  put_with_subdir, get_blob,
}
use acorde.Blobs.Keeps.{IsBlobs, new_store-IsBlobs}
use acorde.Blobs.Runs.{Step, Run, garbage_collect-Run}
use acorde.Blobs.Answers.{get_blob-put_with_subdir, put_blob-put_with_subdir}

abbrev row : ℕ → ℕ → Text
row c zero = []
row c (suc n) = c ∷ row c n

abbrev one : List ℕ
one = 1 ∷ []

abbrev sum_of : Bool → Text
sum_of known = row (if known then b'b' else b'a') 64

sum_of-length : (known : Bool) → length (sum_of known) ≡ 64
sum_of-length true = refl
sum_of-length false = refl

instance abbrev two_sums : Sha256
two_sums = record {
  hex_sum = λ bytes. sum_of (list_beq bytes one);
  length-hex_sum = λ bytes. sum_of-length (list_beq bytes one);
}

one_alone : (found : List ℕ) → compute_cid found ≡ compute_cid one → found ≡ one
one_alone found e = elim (Bool-cases (list_beq found one)) [
  | inl same ↦ (list_beq_iff found one).0 same
  | inr other ↦ absurd (ground (arith, e, other))
]

get_blob-put_with_subdir_example :
    let (next, outcome) = put_with_subdir new_store one in
    (outcome ≡ done (compute_cid one))
    × IsBlobs next
    × (get_blob next (compute_cid one) ≡ (
        if list_beq (compute_cid one) (compute_cid one)
        then done one
        else get_blob new_store (compute_cid one)))
get_blob-put_with_subdir_example =
    get_blob-put_with_subdir new_store one (compute_cid one) new_store-IsBlobs one_alone

no_directory : has new_store.dirs (take 2 (compute_cid one) ∷ []) ≡ false
unfolding assoc assign
no_directory = refl

put_blob-put_with_subdir_example :
    (put_blob new_store one ≡ (new_store, failed))
    × ((put_with_subdir new_store one).1 ≡ done (compute_cid one))
put_blob-put_with_subdir_example =
    put_blob-put_with_subdir new_store one new_store-IsBlobs no_directory

abbrev with_one : Disk
with_one = (put_with_subdir new_store one).0

garbage_collect-Run_example :
    IsBlobs with_one
    × (list_blobs with_one ≡ [])
    × (garbage_collect with_one GoMap.empty ≡ (with_one, done 0))
garbage_collect-Run_example =
    garbage_collect-Run with_one GoMap.empty (Run.then_steps Run.stays (Step.puts_with_subdir one))
