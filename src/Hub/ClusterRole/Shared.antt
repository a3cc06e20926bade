-- ===== src/Hub/ClusterRole/Shared.antt =====
-- When the shared cluster roles are there.
use ocm_registration.Base.{String, List, [], ◌∷◌, ◌≡◌, ◌≢◌, refl, arith, All}
use ocm_registration.Kube.{
  Err, Result, ok, Trace, At, Machinery, IsMachinery, ManagedCluster, Manifest, ClusterApi, RbacApi,
  apply_manifest, delete_manifest, result_of,
}
use ocm_registration.Helpers.Cleanup.{clean_up_managed_cluster_manifests}
use ocm_registration.Helpers.Cleanup.Manifests.{
  FileGone, clean_up_managed_cluster_manifests-FileGone,
}
use ocm_registration.Hub.ManagedCluster.{apply_all}
use ocm_registration.Hub.ManagedCluster.Applying.{Applied, apply_all-Applied}
use ocm_registration.Hub.ClusterRole.{cluster_role_files, sync}

module _ (m : Machinery) (clusters : ClusterApi) (rbac : RbacApi) (asset : String → Result String)
    (decode : String → Result Manifest) where
  abbrev run : Trace → Result (Unit {0}) × Trace
  run = sync m clusters rbac asset decode

  apply_all-undeleted :
      (files : List String) (o : Manifest) (h g : Trace)
      → At (delete_manifest o) g (apply_all rbac files h).1
      → At (delete_manifest o) g h
  unfolding apply_all
  apply_all-undeleted [] o h g a = a
  apply_all-undeleted (file ∷ files) o h g a =
      ground (arith, apply_all-undeleted files o (apply_manifest file ∷ h) g a)

  no_errors :
      IsMachinery m
      → (errs : List Err) → result_of (m.new_multi_line_aggregate errs) ≡ ok tt
      → errs ≡ []
  no_errors k [] e = refl
  no_errors k (x ∷ errs) e = absurd (ground (arith, k.aggregate-cons x errs))

  abbrev applied : Trace → List Err × Trace
  applied = apply_all rbac cluster_role_files

  lift :
      IsMachinery m
      → (h : Trace) (files : List String) → All (Applied rbac (applied h).0 (applied h).1) files
      → All
          (λ file.
            (g : Trace) × At (apply_manifest file) g (applied h).1
            × (result_of (m.new_multi_line_aggregate (applied h).0) ≡ ok tt
                → rbac.apply_manifest g file ≡ ok tt))
          files
  lift k h [] _ = tt
  lift k h (file ∷ files) ((g, a, e), rest) =
      ((g, a, λ fine. e (no_errors k (applied h).0 fine)), lift k h files rest)

  sync-none :
      (h : Trace)
      → clusters.lister_list h ≡ ok []
      → run h ≡ clean_up_managed_cluster_manifests m rbac asset decode cluster_role_files h
  unfolding sync
  sync-none h e = ground (arith, e)

  sync-some :
      (h : Trace) (c : ManagedCluster) (cs : List ManagedCluster)
      → clusters.lister_list h ≡ ok (c ∷ cs)
      → run h ≡ (result_of (m.new_multi_line_aggregate (applied h).0), (applied h).1)
  unfolding sync
  sync-some h c cs e = ground (arith, e)

  -- While the lister has a cluster, a sync applies every shared file, without an error in any of
  -- them if it succeeds, and deletes nothing; once it has none, a sync that succeeds leaves the
  -- object of every file gone.
  pub sync-shared :
      (k : IsMachinery m) (h : Trace) (found : List ManagedCluster)
      → clusters.lister_list h ≡ ok found
      → (found ≢ []
          → All
              (λ file.
                (g : Trace) × At (apply_manifest file) g (run h).1
                × ((run h).0 ≡ ok tt → rbac.apply_manifest g file ≡ ok tt))
              cluster_role_files
            × ((o : Manifest) (g : Trace)
                → At (delete_manifest o) g (run h).1
                → At (delete_manifest o) g h))
        × (found ≡ []
            → (run h).0 ≡ ok tt
            → All (FileGone m rbac asset decode (run h).1) cluster_role_files)
  sync-shared k h [] e = (
    λ some_found. absurd (some_found refl),
    λ _.
        rw (sync-none h e)
          (clean_up_managed_cluster_manifests-FileGone m rbac asset decode k cluster_role_files h),
  )
  sync-shared k h (c ∷ cs) e = (
    λ _. rw (sync-some h c cs e) (
      lift k h cluster_role_files (apply_all-Applied rbac cluster_role_files h),
      λ o g a. apply_all-undeleted cluster_role_files o h g a,
    ),
    λ none_found. absurd (ground (arith, none_found)),
  )
