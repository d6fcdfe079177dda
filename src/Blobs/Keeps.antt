-- ===== src/Blobs/Keeps.antt =====
-- internal/blob/store.go: what its calls keep true of the files, and what they do to a blob.
use acorde.Base.{
  ◌+◌, ℕ, ◌≡◌, refl, ap, sym, ◌∙◌, true, false, none, some, List, [], ◌∷◌, ◌++◌, length,
  if◌then◌else◌, arith, inl, inr, Bool-cases, Option-cases,
}
use acorde.Base.Equality.{nat_eq, list_eq, list_beq, list_beq_iff}
use acorde.Base.Slices.{take}
use acorde.Base.Text.{Text, codes}
use acorde.GoMap
use acorde.GoMap.{GoMap, get, put, has, assoc, delete}
use acorde.GoMap.Laws.{get-put, get-delete}
use acorde.Blobs.Files.{FilePath, Disk, parent, make_dir, write_file, rename}
use acorde.Blobs.{
  Sha256, failed, done, blob_path, temporary, new_store, store_at, compute_cid, put_blob,
  put_with_subdir,
}

module _ ⦃sha : Sha256⦄ where
  abbrev pub path_of : List ℕ → FilePath
  path_of bytes = take 2 (compute_cid bytes) ∷ compute_cid bytes ∷ []

  -- the directory of the store is there, no directory lies in a directory in it, and every file
  -- stands in a directory, under the hash of what it holds
  pub record IsBlobs (d : Disk) : Type 0 where
    pub root : has d.dirs [] ≡ true
    pub flat : (a b : Text) → has d.dirs (a ∷ b ∷ []) ≡ false
    pub filed : (p : FilePath) (bytes : List ℕ) → get d.files p ≡ some bytes → p ≡ path_of bytes
    pub housed :
        (p : FilePath) (bytes : List ℕ) → get d.files p ≡ some bytes → has d.dirs (parent p) ≡ true

  pub new_store-IsBlobs : IsBlobs new_store
  unfolding assoc GoMap.assign
  new_store-IsBlobs = record {
    root = refl;
    flat = λ a b. refl;
    filed = λ p bytes e. absurd (ground (arith, e));
    housed = λ p bytes e. absurd (ground (arith, e));
  }

  pub computed_path : (bytes : List ℕ) → blob_path (compute_cid bytes) ≡ some (path_of bytes)
  computed_path bytes = ground (arith, sha.length-hex_sum bytes)

  pub no_short : (d : Disk) (name : Text) → IsBlobs d → has d.files (name ∷ []) ≡ false
  no_short d name h = elim (Option-cases (get d.files (name ∷ []))) [
    | inl n ↦ ground (arith, n)
    | inr (bytes, e) ↦ absurd (ground (arith, h.filed (name ∷ []) bytes e))
  ]

  pub made-IsBlobs :
      (d : Disk) (name : Text)
      → IsBlobs d
      → (make_dir d name ≡ some (record d { dirs = put d.dirs (name ∷ []) tt }))
        × IsBlobs (record d { dirs = put d.dirs (name ∷ []) tt })
        × (has (put d.dirs (name ∷ []) tt) (name ∷ []) ≡ true)
  unfolding make_dir
  made-IsBlobs d name h = (
    ground (arith, no_short d name h),
    record {
      root = ground (arith, h.root, get-put d.dirs (name ∷ []) [] tt);
      flat = λ a b. ground (arith, h.flat a b, get-put d.dirs (name ∷ []) (a ∷ b ∷ []) tt);
      filed = h.filed;
      housed =
          λ p bytes e. ground (arith, h.housed p bytes e, get-put d.dirs (name ∷ []) (parent p) tt);
    },
    ground (arith, get-put d.dirs (name ∷ []) (name ∷ []) tt, list_beq_iff name name),
  )

  abbrev pub stored : Disk → List ℕ → Disk
  stored d bytes = record d {
    files =
        put (delete (put d.files (temporary (path_of bytes)) bytes) (temporary (path_of bytes)))
          (path_of bytes) bytes;
  }

  abbrev name_length : FilePath → ℕ
  name_length [] = 0
  name_length (a ∷ []) = 0
  name_length (a ∷ b ∷ p) = length b

  longer : (t s : Text) → length (t ++ s) ≡ length t + length s
  longer [] s = ground arith
  longer (c ∷ t) s = ground (arith, longer t s)

  no_temporary :
      (d : Disk) (bytes : List ℕ) → IsBlobs d → get d.files (temporary (path_of bytes)) ≡ none
  no_temporary d bytes h = elim (Option-cases (get d.files (temporary (path_of bytes)))) [
    | inl n ↦ n
    | inr (found, e) ↦ absurd (
        ground (
          arith,
          ap name_length (h.filed (temporary (path_of bytes)) found e),
          longer (compute_cid bytes) (codes ".tmp"),
          sha.length-hex_sum bytes,
          sha.length-hex_sum found,
        ))
  ]

  pub get-stored :
      (d : Disk) (bytes : List ℕ) (p : FilePath)
      → IsBlobs d
      → get (stored d bytes).files p
        ≡ (if list_beq (path_of bytes) p then some bytes else get d.files p)
  get-stored d bytes p h =
      let tmp = temporary (path_of bytes) in
      let written = put d.files tmp bytes in
      get-put (delete written tmp) (path_of bytes) p bytes ∙ elim (Bool-cases (list_beq tmp p)) [
        | inl same ↦
            let absent : get d.files p ≡ none =
              ap (get d.files) (sym ((list_beq_iff tmp p).0 same)) ∙ no_temporary d bytes h in
            ground (arith, get-delete written tmp p, same, absent)
        | inr other ↦ ground (arith, get-delete written tmp p, get-put d.files tmp p bytes, other)
      ]

  stored-IsBlobs :
      (d : Disk) (bytes : List ℕ)
      → IsBlobs d
      → has d.dirs (take 2 (compute_cid bytes) ∷ []) ≡ true
      → IsBlobs (stored d bytes)
  stored-IsBlobs d bytes h dir = record {
    root = h.root;
    flat = h.flat;
    filed = λ p found e. elim (Bool-cases (list_beq (path_of bytes) p)) [
      | inl same ↦
          sym ((list_beq_iff (path_of bytes) p).0 same)
          ∙ ap path_of (ground (arith, e, same, get-stored d bytes p h))
      | inr other ↦ h.filed p found (ground (arith, e, other, get-stored d bytes p h))
    ];
    housed = λ p found e. elim (Bool-cases (list_beq (path_of bytes) p)) [
      | inl same ↦
          ap (λ q. has d.dirs (parent q)) (sym ((list_beq_iff (path_of bytes) p).0 same)) ∙ dir
      | inr other ↦ h.housed p found (ground (arith, e, other, get-stored d bytes p h))
    ];
  }

  store_at_lem :
      (d : Disk) (bytes : List ℕ)
      → IsBlobs d
      → has d.dirs (take 2 (compute_cid bytes) ∷ []) ≡ true
      → store_at d (compute_cid bytes) (path_of bytes) bytes
        ≡ (if has d.files (path_of bytes) then d else stored d bytes, done (compute_cid bytes))
  unfolding store_at write_file rename
  store_at_lem d bytes h dir =
      let cid = compute_cid bytes in
      let tmp = temporary (path_of bytes) in
      ground (
        arith,
        dir,
        h.flat (take 2 cid) cid,
        h.flat (take 2 cid) (cid ++ codes ".tmp"),
        get-put d.files tmp tmp bytes,
        list_beq_iff tmp tmp,
      )

  pub put_with_subdir_lem :
      (d : Disk) (bytes : List ℕ)
      → IsBlobs d
      → let made : Disk = record d { dirs = put d.dirs (take 2 (compute_cid bytes) ∷ []) tt } in
        put_with_subdir d bytes ≡ (
          if has d.files (path_of bytes) then made else stored made bytes,
          done (compute_cid bytes),
        )
  unfolding put_with_subdir
  put_with_subdir_lem d bytes h =
      let name = take 2 (compute_cid bytes) in
      let made : Disk = record d { dirs = put d.dirs (name ∷ []) tt } in
      let (makes, keeps, there) = made-IsBlobs d name h in
      ground (arith, computed_path bytes, makes, store_at_lem made bytes keeps there)

  pub put_with_subdir-IsBlobs :
      (d : Disk) (bytes : List ℕ) → IsBlobs d → IsBlobs (put_with_subdir d bytes).0
  put_with_subdir-IsBlobs d bytes h =
      let name = take 2 (compute_cid bytes) in
      let made : Disk = record d { dirs = put d.dirs (name ∷ []) tt } in
      let (_, keeps, there) = made-IsBlobs d name h in
      ground (arith, put_with_subdir_lem d bytes h, keeps, stored-IsBlobs made bytes keeps there)

  pub put_blob_lem :
      (d : Disk) (bytes : List ℕ)
      → IsBlobs d
      → put_blob d bytes ≡ (
          if has d.dirs (take 2 (compute_cid bytes) ∷ [])
          then (if has d.files (path_of bytes) then d else stored d bytes, done (compute_cid bytes))
          else (d, failed))
  unfolding put_blob store_at write_file
  put_blob_lem d bytes h =
      let dir = take 2 (compute_cid bytes) ∷ [] in
      elim (Bool-cases (has d.dirs dir)) [
        | inl there ↦ ground (arith, computed_path bytes, there, store_at_lem d bytes h there)
        | inr n ↦ elim (Option-cases (get d.files (path_of bytes))) [
          | inl absent ↦ ground (
            arith,
            computed_path bytes,
            n,
            absent,
            h.flat (take 2 (compute_cid bytes)) (compute_cid bytes),
          )
          | inr (found, e) ↦ absurd (ground (arith, n, h.housed (path_of bytes) found e))
        ]
      ]

  pub put_blob-IsBlobs : (d : Disk) (bytes : List ℕ) → IsBlobs d → IsBlobs (put_blob d bytes).0
  put_blob-IsBlobs d bytes h =
      let lem = put_blob_lem d bytes h in
      elim (Bool-cases (has d.dirs (take 2 (compute_cid bytes) ∷ []))) [
        | inl dir ↦ ground (arith, lem, dir, h, stored-IsBlobs d bytes h dir)
        | inr n ↦ ground (arith, lem, n, h)
      ]
