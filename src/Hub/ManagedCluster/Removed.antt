-- ===== src/Hub/ManagedCluster/Removed.antt =====
-- What a removal of a cluster's resources without an error has done.
use ocm_registration.Base.{String, ◌<>◌, Bool, List, [], ◌≡◌, refl, inl, inr, arith, All}
use ocm_registration.Kube.{
  Err, Result, ok, err, Result-cases, Exec, Trace, Grows, Machinery, IsMachinery, ClusterApi,
  RbacApi, RoleBinding, Manifest, ManagedClusterStatus, result_of, delete_cluster_role_binding,
  update_cluster_role_binding, delete_role_binding, update_role_binding,
}
use ocm_registration.Helpers.Cleanup.{
  and_errors, clean_up_managed_cluster_manifests, clean_up_group_from_cluster_role_bindings,
  clean_up_group_from_role_bindings,
}
use ocm_registration.Helpers.Cleanup.Manifests.{
  FileGone, All-FileGone-Grows, clean_up_managed_cluster_manifests-FileGone,
}
use ocm_registration.Helpers.Cleanup.Calls.{
  clean_up_group_from_cluster_role_bindings-Grows, clean_up_group_from_role_bindings-Grows,
}
use ocm_registration.Helpers.Cleanup.Each.{All-CleanedBy-Grows}
use ocm_registration.Helpers.Cleanup.Bindings.{
  ClusterCleaned, NamespaceCleaned, cluster_bindings_cleaned, bindings_cleaned,
}
use ocm_registration.Hub.ManagedCluster.{static_files, error_of, remove_managed_cluster_resources}

module _ (m : Machinery) (rbac : RbacApi) (asset : String → String → Result String)
    (decode : String → Result Manifest) where
  abbrev pub group_of : String → String
  group_of name = "system:open-cluster-management:" <> name

  abbrev pub manifests_step : String → Trace → Result (Unit {0}) × Trace
  manifests_step name = clean_up_managed_cluster_manifests m rbac (asset name) decode static_files

  abbrev pub cluster_bindings_step : String → Trace → Result (Unit {0}) × Trace
  cluster_bindings_step name h =
      clean_up_group_from_cluster_role_bindings rbac (group_of name) (manifests_step name h).1

  abbrev pub bindings_step : String → Trace → Result (Unit {0}) × Trace
  bindings_step name h =
      clean_up_group_from_role_bindings rbac (group_of name) (cluster_bindings_step name h).1

  -- In a run from `h` to `g` the clean-ups of the manifests and of both kinds of bindings had no error,
  -- every manifest is gone, and every binding that was listed is deleted, if no other subject was
  -- left, or written without the cluster's group, if it named it.
  abbrev pub IsCleanedUp : String → Trace → Trace → Type 0
  IsCleanedUp name h g =
      All (FileGone m rbac (asset name) decode g) static_files
      × ((manifests_step name h).0 ≡ ok tt)
      × ((cluster_bindings_step name h).0 ≡ ok tt)
      × ((bindings_step name h).0 ≡ ok tt)
      × ((items : List RoleBinding) × (rbac.list_cluster_role_bindings (manifests_step name h).1
            ≡ ok items)
          × All (ClusterCleaned rbac (group_of name) g) items)
      × ((items : List RoleBinding) × (rbac.list_role_bindings (cluster_bindings_step name h).1
            ≡ ok items)
          × All (NamespaceCleaned rbac (group_of name) g) items)

  pub IsCleanedUp-Grows :
      (name : String) (h g g' : Trace) → Grows g g' → IsCleanedUp name h g → IsCleanedUp name h g'
  IsCleanedUp-Grows name h g g' p
        (gone, clean, fine, fine', (xs, listed, cleaned), (ys, listed', cleaned')) =
      (
        All-FileGone-Grows m rbac (asset name) decode g g' p static_files gone,
        clean,
        fine,
        fine',
        (
          xs,
          listed,
          All-CleanedBy-Grows (λ b. delete_cluster_role_binding b.name) update_cluster_role_binding
              (group_of name) g g' p xs cleaned,
        ),
        (
          ys,
          listed',
          All-CleanedBy-Grows (λ b. delete_role_binding b.namespace b.name) update_role_binding
              (group_of name) g g' p ys cleaned',
        ),
      )

  no_errors :
      (k : IsMachinery m) (r s t : Result (Unit {0}))
      → result_of (
          m.new_multi_line_aggregate
            (and_errors (error_of r) (and_errors (error_of s) (and_errors (error_of t) []))))
        ≡ ok tt
      → (r ≡ ok tt) × (s ≡ ok tt) × (t ≡ ok tt)
  no_errors k (ok _) (ok _) (ok _) e = (refl, refl, refl)
  no_errors k (err x) s t e =
      absurd (
        ground
          (arith, e, k.aggregate-cons x (and_errors (error_of s) (and_errors (error_of t) []))))
  no_errors k (ok _) (err x) t e =
      absurd (ground (arith, e, k.aggregate-cons x (and_errors (error_of t) [])))
  no_errors k (ok _) (ok _) (err x) e = absurd (ground (arith, e, k.aggregate-cons x []))

  cluster_listed :
      (group : String) (h : Trace)
      → (clean_up_group_from_cluster_role_bindings rbac group h).0 ≡ ok tt
      → (items : List RoleBinding) × (rbac.list_cluster_role_bindings h ≡ ok items)
  unfolding clean_up_group_from_cluster_role_bindings
  cluster_listed group h e = elim (Result-cases (rbac.list_cluster_role_bindings h)) [
    | inl found ↦ found
    | inr (why, failed) ↦ absurd (ground (arith, failed, e))
  ]

  listed :
      (group : String) (h : Trace)
      → (clean_up_group_from_role_bindings rbac group h).0 ≡ ok tt
      → (items : List RoleBinding) × (rbac.list_role_bindings h ≡ ok items)
  unfolding clean_up_group_from_role_bindings
  listed group h e = elim (Result-cases (rbac.list_role_bindings h)) [
    | inl found ↦ found
    | inr (why, failed) ↦ absurd (ground (arith, failed, e))
  ]

  pub remove_managed_cluster_resources-IsCleanedUp :
      (k : IsMachinery m) (clusters : ClusterApi)
      (retry : Exec (ManagedClusterStatus × Bool) → Exec (ManagedClusterStatus × Bool))
      (error_text : Err → String) (name : String) (h : Trace)
      → let out =
          remove_managed_cluster_resources m clusters rbac retry asset decode error_text name h in
        out.0 ≡ ok tt → IsCleanedUp name h out.1
  unfolding remove_managed_cluster_resources
  remove_managed_cluster_resources-IsCleanedUp k clusters retry error_text name h e =
      let first = manifests_step name h in
      let second = cluster_bindings_step name h in
      let third = bindings_step name h in
      let group = group_of name in
      let (fine₁, fine₂, fine₃) = no_errors k first.0 second.0 third.0 e in
      let (xs, found) = cluster_listed group first.1 fine₂ in
      let (ys, found') = listed group second.1 fine₃ in
      let grows = clean_up_group_from_cluster_role_bindings-Grows rbac group first.1 in
      let grows' = clean_up_group_from_role_bindings-Grows rbac group second.1 in
      (
        All-FileGone-Grows m rbac (asset name) decode first.1 third.1
            (λ c g a. grows' c g (grows c g a)) static_files
            (clean_up_managed_cluster_manifests-FileGone m rbac (asset name) decode k static_files h
              fine₁),
        fine₁,
        fine₂,
        fine₃,
        (
          xs,
          found,
          All-CleanedBy-Grows (λ b. delete_cluster_role_binding b.name) update_cluster_role_binding
              group second.1 third.1 grows' xs
              (cluster_bindings_cleaned rbac group first.1 found fine₂),
        ),
        (ys, found', bindings_cleaned rbac group second.1 found' fine₃),
      )
