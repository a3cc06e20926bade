-- ===== src/Helpers/Cleanup/Manifests.antt =====
-- `CleanUpManagedClusterManifests`: every manifest is tried, and success means that all are gone.
use ocm_registration.Base.{String, true, List, [], ◌∷◌, none, ◌≡◌, refl, ◌⊎◌, inl, inr, arith, All}
use ocm_registration.Kube.{
  Err, Result, ok, err, not_found, Result-cases, Trace, At, Grows, Machinery, IsMachinery, RbacApi,
  Manifest, delete_manifest, result_of,
}
use ocm_registration.Helpers.Cleanup.{
  clean_up_object, clean_up_file, clean_up_files, clean_up_managed_cluster_manifests, is_handled,
}

module _ (api : RbacApi) where
  clean_up_object-Grows : (o : Manifest) (h : Trace) → Grows h (clean_up_object api o h).1
  unfolding clean_up_object
  clean_up_object-Grows o h c g a = ground arith

  -- The server said, during the run with the trace `h`, that the object is deleted or is not there.
  abbrev Gone : Manifest → Trace → Type 0
  Gone o h =
      (g : Trace) × At (delete_manifest o) g h
      × ((api.delete_manifest g o ≡ ok tt) ⊎ (api.delete_manifest g o ≡ err not_found))

  clean_up_object-Gone :
      (o : Manifest) (h : Trace)
      → (clean_up_object api o h).0 ≡ none
      → Gone o (clean_up_object api o h).1
  unfolding clean_up_object
  clean_up_object-Gone o h e = (h, ground arith, ground arith)

module _ (m : Machinery) (api : RbacApi) (asset : String → Result String)
    (decode : String → Result Manifest) where
  clean_up_file-Grows :
      (file : String) (h : Trace) → Grows h (clean_up_file m api asset decode file h).1
  unfolding clean_up_file
  clean_up_file-Grows file h c g a = ground arith

  clean_up_files-Grows :
      (files : List String) (h : Trace) → Grows h (clean_up_files m api asset decode files h).1
  unfolding clean_up_files
  clean_up_files-Grows [] h c g a = a
  clean_up_files-Grows (file ∷ files) h c g a =
      clean_up_files-Grows files _ c g (clean_up_file-Grows file h c g a)

  -- The file decodes to an object of a handled kind, and that is gone.
  abbrev pub FileGone : Trace → String → Type 0
  FileGone h file =
      (raw : String) × (o : Manifest) × (asset file ≡ ok raw) × (decode raw ≡ ok o) × Gone api o h

  clean_up_file-object :
      (file : String) (h : Trace) (raw : String) (o : Manifest)
      → asset file ≡ ok raw
      → decode raw ≡ ok o
      → clean_up_file m api asset decode file h ≡ clean_up_object api o h
  unfolding clean_up_file
  clean_up_file-object file h raw o e d = ground arith

  clean_up_file-FileGone :
      (file : String) (h : Trace)
      → (clean_up_file m api asset decode file h).0 ≡ none
      → FileGone (clean_up_file m api asset decode file h).1 file
  unfolding clean_up_file
  clean_up_file-FileGone file h e = elim (Result-cases (asset file)) [
    | inr (_, bad) ↦ absurd (ground arith)
    | inl (raw, good) ↦ elim (Result-cases (decode raw)) [
      | inr (_, bad) ↦ absurd (ground arith)
      | inl (o, fine) ↦
          rw (clean_up_file-object file h raw o good fine)
            (raw, o, good, fine, clean_up_object-Gone api o h (ground arith))
    ]
  ]

  FileGone-Grows :
      (h h' : Trace) → Grows h h' → (file : String) → FileGone h file → FileGone h' file
  FileGone-Grows h h' p file (raw, o, e, d, (g, a, r)) = (raw, o, e, d, (g, p _ g a, r))

  pub All-FileGone-Grows :
      (h h' : Trace)
      → Grows h h'
      → (files : List String) → All (FileGone h) files
      → All (FileGone h') files
  All-FileGone-Grows h h' p [] _ = tt
  All-FileGone-Grows h h' p (file ∷ files) (g, gs) =
      (FileGone-Grows h h' p file g, All-FileGone-Grows h h' p files gs)

  clean_up_files-FileGone :
      (files : List String) (h : Trace)
      → (clean_up_files m api asset decode files h).0 ≡ []
      → All (FileGone (clean_up_files m api asset decode files h).1) files
  unfolding clean_up_files
  clean_up_files-FileGone [] h e = tt
  clean_up_files-FileGone (file ∷ files) h e =
      let h' = (clean_up_file m api asset decode file h).1 in
      (
        FileGone-Grows h' _ (clean_up_files-Grows files h') file
            (clean_up_file-FileGone file h (ground arith)),
        clean_up_files-FileGone files h' (ground arith),
      )

  -- The clean-up succeeds only when each file's object was reported as deleted, or as not there,
  -- by a call of this run.
  pub clean_up_managed_cluster_manifests-FileGone :
      (k : IsMachinery m) (files : List String) (h : Trace)
      → (clean_up_managed_cluster_manifests m api asset decode files h).0 ≡ ok tt
      → All (FileGone (clean_up_managed_cluster_manifests m api asset decode files h).1) files
  unfolding clean_up_managed_cluster_manifests
  clean_up_managed_cluster_manifests-FileGone k files h e =
      clean_up_files-FileGone files h (no_errors (clean_up_files m api asset decode files h).0 e)
    where
      no_errors :
          (errs : List Err) → result_of (m.new_multi_line_aggregate errs) ≡ ok tt → errs ≡ []
      no_errors [] _ = refl
      no_errors (x ∷ errs) f = absurd (ground (arith, k.aggregate-cons x errs))

  -- Every object of a handled kind is tried, whatever became of the files before it.
  abbrev pub Tried : Trace → String → Type 0
  Tried h file =
      (raw : String) (o : Manifest)
      → asset file ≡ ok raw
      → decode raw ≡ ok o
      → is_handled o ≡ true
      → (g : Trace) × At (delete_manifest o) g h

  clean_up_file-Tried :
      (file : String) (h : Trace) → Tried (clean_up_file m api asset decode file h).1 file
  unfolding clean_up_file
  clean_up_file-Tried file h raw o e d y = (h, ground arith)

  clean_up_files-Tried :
      (files : List String) (h : Trace)
      → All (Tried (clean_up_files m api asset decode files h).1) files
  unfolding clean_up_files
  clean_up_files-Tried [] h = tt
  clean_up_files-Tried (file ∷ files) h =
      let h' = (clean_up_file m api asset decode file h).1 in
      (
        λ raw o e d y.
            let (g, a) = clean_up_file-Tried file h raw o e d y in
            (g, clean_up_files-Grows files h' _ g a),
        clean_up_files-Tried files h',
      )

  -- The clean-up calls the server for every file that decodes to a handled kind, also after an
  -- error.
  pub clean_up_managed_cluster_manifests-Tried :
      (files : List String) (h : Trace)
      → All (Tried (clean_up_managed_cluster_manifests m api asset decode files h).1) files
  unfolding clean_up_managed_cluster_manifests
  clean_up_managed_cluster_manifests-Tried files h = clean_up_files-Tried files h
