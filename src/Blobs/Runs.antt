-- ===== src/Blobs/Runs.antt =====
-- internal/blob/store.go: what every run of its calls keeps true, and what List and GarbageCollect
-- make of it.
use acorde.Base.{ℕ, ◌≡◌, refl, Bool, none, List, [], ◌∷◌, arith}
use acorde.Base.Equality.{nat_eq, list_eq, list_beq_iff}
use acorde.Base.Slices.{take}
use acorde.Base.Text.{Text}
use acorde.GoMap.{GoMap, assoc, delete}
use acorde.GoMap.Laws.{get-delete}
use acorde.Blobs.Files.{FilePath, Disk, remove}
use acorde.Blobs.{
  Sha256, done, new_store, cid_names, list_blobs, delete_blob, garbage_collect, put_blob,
  put_with_subdir, collect,
}
use acorde.Blobs.Keeps.{
  IsBlobs, new_store-IsBlobs, no_short, put_blob-IsBlobs, put_with_subdir-IsBlobs,
}

module _ ⦃sha : Sha256⦄ where
  delete_blob-IsBlobs : (d : Disk) (cid : Text) → IsBlobs d → IsBlobs (delete_blob d cid).0
  unfolding delete_blob remove
  delete_blob-IsBlobs d cid h =
      let path = take 2 cid ∷ cid ∷ [] in
      let less : IsBlobs (record d { files = delete d.files path }) = record {
        root = h.root;
        flat = h.flat;
        filed = λ p found e. h.filed p found (ground (arith, e, get-delete d.files path p));
        housed = λ p found e. h.housed p found (ground (arith, e, get-delete d.files path p));
      } in
      ground (arith, h, less)

  no_cid_names :
      (l : List (FilePath × List ℕ))
      → ((name : Text) → assoc l (name ∷ []) ≡ none)
      → cid_names l ≡ []
  unfolding cid_names assoc
  no_cid_names [] h = refl
  no_cid_names (([], bytes) ∷ l) h = no_cid_names l (λ name. ground (arith, h name))
  no_cid_names ((name ∷ [], bytes) ∷ l) h = absurd (ground (arith, h name, list_beq_iff name name))
  no_cid_names ((a ∷ b ∷ p, bytes) ∷ l) h = no_cid_names l (λ name. ground (arith, h name))

  -- The files lie in directories, where ReadDir of the store's directory does not see them.
  list_blobs-IsBlobs : (d : Disk) → IsBlobs d → list_blobs d ≡ []
  unfolding list_blobs
  list_blobs-IsBlobs d h = no_cid_names d.files.entries (λ name. ground (arith, no_short d name h))

  garbage_collect-IsBlobs :
      (d : Disk) (referenced : GoMap Text Bool)
      → IsBlobs d
      → garbage_collect d referenced ≡ (d, done 0)
  unfolding garbage_collect collect
  garbage_collect-IsBlobs d referenced h = ground (arith, list_blobs-IsBlobs d h)

  pub data Step : Disk → Disk → Type 0 where
    puts : {d : Disk} (bytes : List ℕ) → Step d (put_blob d bytes).0
    puts_with_subdir : {d : Disk} (bytes : List ℕ) → Step d (put_with_subdir d bytes).0
    deletes : {d : Disk} (cid : Text) → Step d (delete_blob d cid).0
    collects : {d : Disk} (referenced : GoMap Text Bool) → Step d (garbage_collect d referenced).0

  pub data Run : Disk → Disk → Type 0 where
    stays : {d : Disk} → Run d d
    then_steps : {d e f : Disk} → Run d e → Step e f → Run d f

  Step-IsBlobs : {d e : Disk} → Step d e → IsBlobs d → IsBlobs e
  Step-IsBlobs (Step.puts {d} bytes) h = put_blob-IsBlobs d bytes h
  Step-IsBlobs (Step.puts_with_subdir {d} bytes) h = put_with_subdir-IsBlobs d bytes h
  Step-IsBlobs (Step.deletes {d} cid) h = delete_blob-IsBlobs d cid h
  Step-IsBlobs (Step.collects {d} referenced) h =
      ground (arith, garbage_collect-IsBlobs d referenced h, h)

  pub Run-IsBlobs : {d e : Disk} → IsBlobs d → Run d e → IsBlobs e
  Run-IsBlobs h Run.stays = h
  Run-IsBlobs h (Run.then_steps run step) = Step-IsBlobs step (Run-IsBlobs h run)

  -- After any run of Put, PutWithSubdir, Delete and GarbageCollect on a new store, every file stands
  -- under the hash of what it holds. List gives no blob at all, and GarbageCollect removes none,
  -- whatever is referenced.
  pub garbage_collect-Run :
      (d : Disk) (referenced : GoMap Text Bool)
      → Run new_store d
      → IsBlobs d × (list_blobs d ≡ []) × (garbage_collect d referenced ≡ (d, done 0))
  garbage_collect-Run d referenced run =
      let h = Run-IsBlobs new_store-IsBlobs run in
      (h, list_blobs-IsBlobs d h, garbage_collect-IsBlobs d referenced h)
