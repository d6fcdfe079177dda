-- ===== src/Blobs/Answers.antt =====
-- internal/blob/store.go: what Get gives after a put, and when Put fails.
use acorde.Base.{
  ℕ, ◌≡◌, ap, sym, ◌∙◌, true, false, Option, none, some, List, [], ◌∷◌, length, ltb, if◌then◌else◌,
  arith, inl, inr, Bool-cases, Option-cases,
}
use acorde.Base.Equality.{nat_eq, list_eq, list_beq, list_beq_iff}
use acorde.Base.Slices.{take}
use acorde.Base.Text.{Text}
use acorde.GoMap.{get, put, has}
use acorde.Blobs.Files.{FilePath, Disk, read_file}
use acorde.Blobs.{
  Sha256, Outcome, panicked, failed, done, compute_cid, put_blob, put_with_subdir, get_blob,
}
use acorde.Blobs.Keeps.{
  made-IsBlobs, get-stored, IsBlobs, path_of, put_with_subdir-IsBlobs, get-stored,
  put_with_subdir_lem, put_blob_lem,
}

module _ ⦃sha : Sha256⦄ where
  -- what Get makes of the file under a CID
  abbrev checked : Text → Option (List ℕ) → Outcome (List ℕ)
  checked cid none = failed
  checked cid (some bytes) = if list_beq (compute_cid bytes) cid then done bytes else failed

  get_blob_lem :
      (d : Disk) (cid : Text)
      → IsBlobs d
      → get_blob d cid ≡ (
          if ltb (length cid) 2
          then panicked
          else checked cid (get d.files (take 2 cid ∷ cid ∷ [])))
  unfolding get_blob read_file
  get_blob_lem d cid h = elim (Bool-cases (ltb (length cid) 2)) [
    | inl short ↦ ground (arith, short)
    | inr long ↦ elim (Option-cases (get d.files (take 2 cid ∷ cid ∷ []))) [
      | inl absent ↦ ground (arith, long, absent, h.flat (take 2 cid) cid)
      | inr (found, e) ↦ ground (arith, long, e, h.flat (take 2 cid) cid)
    ]
  ]

  present :
      (d : Disk) (bytes : List ℕ)
      → IsBlobs d
      → ((found : List ℕ) → compute_cid found ≡ compute_cid bytes → found ≡ bytes)
      → has d.files (path_of bytes) ≡ true
      → get d.files (path_of bytes) ≡ some bytes
  present d bytes h alone e = elim (Option-cases (get d.files (path_of bytes))) [
    | inl n ↦ absurd (ground (arith, n, e))
    | inr (found, p) ↦ p ∙ ap some (alone found (ap second (sym (h.filed (path_of bytes) found p))))
  ]
    where
      second : FilePath → Text
      second [] = []
      second (a ∷ []) = []
      second (a ∷ b ∷ p) = b

  files-put_with_subdir :
      (d : Disk) (bytes : List ℕ) (p : FilePath)
      → IsBlobs d
      → ((found : List ℕ) → compute_cid found ≡ compute_cid bytes → found ≡ bytes)
      → get (put_with_subdir d bytes).0.files p
        ≡ (if list_beq (path_of bytes) p then some bytes else get d.files p)
  files-put_with_subdir d bytes p h alone =
      let made : Disk = record d { dirs = put d.dirs (take 2 (compute_cid bytes) ∷ []) tt } in
      let (_, keeps, _) = made-IsBlobs d (take 2 (compute_cid bytes)) h in
      elim (Bool-cases (has d.files (path_of bytes))) [
        | inl there ↦ elim (Bool-cases (list_beq (path_of bytes) p)) [
          | inl same ↦
              let stands : get d.files p ≡ some bytes =
                ap (get d.files) (sym ((list_beq_iff (path_of bytes) p).0 same))
                ∙ present d bytes h alone there in
              ground (arith, put_with_subdir_lem d bytes h, there, same, stands)
          | inr other ↦ ground (arith, put_with_subdir_lem d bytes h, there, other)
        ]
        | inr n ↦ ground (arith, put_with_subdir_lem d bytes h, n, get-stored made bytes p keeps)
      ]

  -- In a store whose files stand under their hashes, and for bytes whose hash no other bytes have,
  -- PutWithSubdir succeeds with the CID of the bytes and keeps the store so. Get of that CID then
  -- gives the bytes, and Get of any other CID what it gave before.
  pub get_blob-put_with_subdir :
      (d : Disk) (bytes : List ℕ) (cid : Text)
      → IsBlobs d
      → ((found : List ℕ) → compute_cid found ≡ compute_cid bytes → found ≡ bytes)
      → let (next, outcome) = put_with_subdir d bytes in
        (outcome ≡ done (compute_cid bytes))
        × IsBlobs next
        × (get_blob next cid
            ≡ (if list_beq (compute_cid bytes) cid then done bytes else get_blob d cid))
  get_blob-put_with_subdir d bytes cid h alone =
      let next = (put_with_subdir d bytes).0 in
      let after = put_with_subdir-IsBlobs d bytes h in
      let read = files-put_with_subdir d bytes (take 2 cid ∷ cid ∷ []) h alone in
      (
        ground (arith, put_with_subdir_lem d bytes h),
        after,
        get_blob_lem next cid after ∙ elim (Bool-cases (list_beq (compute_cid bytes) cid)) [
          | inl same ↦
              let e : compute_cid bytes ≡ cid = (list_beq_iff (compute_cid bytes) cid).0 same in
              ground (
                arith,
                same,
                read,
                (list_beq_iff (take 2 (compute_cid bytes)) (take 2 cid)).1 (ap (take 2) e),
                ap length e,
                sha.length-hex_sum bytes,
              )
          | inr other ↦ ground (arith, other, read, get_blob_lem d cid h)
        ],
      )

  -- In a store whose files stand under their hashes, Put fails and changes nothing where the directory
  -- for the first two digits of the hash is missing; PutWithSubdir then succeeds.
  pub put_blob-put_with_subdir :
      (d : Disk) (bytes : List ℕ)
      → IsBlobs d
      → has d.dirs (take 2 (compute_cid bytes) ∷ []) ≡ false
      → (put_blob d bytes ≡ (d, failed)) × ((put_with_subdir d bytes).1 ≡ done (compute_cid bytes))
  put_blob-put_with_subdir d bytes h n =
      (ground (arith, n, put_blob_lem d bytes h), ground (arith, put_with_subdir_lem d bytes h))
