-- ===== src/Hub/ManagedCluster/Deletion.antt =====
-- A cluster that is being deleted: its finalizer goes only when its resources are gone.
use ocm_registration.Base.{
  String, Bool, true, [], ◌∷◌, ◌≡◌, refl, ◌⊎◌, inl, inr, ◌==◌, string_eq, nat_eq, arith,
  length-keep_if-lt, contains, contains-any, subst, sym,
}
use ocm_registration.Kube.{
  Err, Result, ok, err, Exec, Trace, At, Only, Machinery, IsMachinery, ClusterApi, RbacApi,
  Manifest, ManagedCluster, ManagedClusterStatus, update_cluster,
}
use ocm_registration.Helpers.Cleanup.Calls.{
  is_cleanup, clean_up_managed_cluster_manifests-Only,
  clean_up_group_from_cluster_role_bindings-Only, clean_up_group_from_role_bindings-Only,
}
use ocm_registration.Hub.ManagedCluster.Removed.{
  IsCleanedUp, remove_managed_cluster_resources-IsCleanedUp,
}
use ocm_registration.Hub.ManagedCluster.{
  static_files, other_finalizers, managed_cluster_finalizer, remove_managed_cluster_resources,
  remove_managed_cluster_finalizer, sync,
}

module _ (m : Machinery) (clusters : ClusterApi) (rbac : RbacApi)
    (retry : Exec (ManagedClusterStatus × Bool) → Exec (ManagedClusterStatus × Bool))
    (asset : String → String → Result String) (decode : String → Result Manifest)
    (error_text : Err → String) where
  abbrev drop_finalizer : ManagedCluster → Exec (Unit {0})
  drop_finalizer = remove_managed_cluster_finalizer m clusters rbac retry asset decode error_text

  abbrev remove : String → Exec (Unit {0})
  remove = remove_managed_cluster_resources m clusters rbac retry asset decode error_text

  abbrev run : String → Exec (Unit {0})
  run = sync m clusters rbac retry asset decode error_text

  pub remove_managed_cluster_resources-Only :
      (name : String) (h : Trace) → Only is_cleanup h (remove name h).1
  unfolding remove_managed_cluster_resources
  remove_managed_cluster_resources-Only name h c g p a =
      clean_up_managed_cluster_manifests-Only m rbac (asset name) decode static_files h c g p (
        clean_up_group_from_cluster_role_bindings-Only rbac _ _ c g p
          (clean_up_group_from_role_bindings-Only rbac _ _ c g p a))

  abbrev pub finish : ManagedCluster → Result (Unit {0}) × Trace → Result (Unit {0}) × Trace
  finish cluster (ok _, h) = drop_finalizer cluster h
  finish cluster (err e, h) = (err e, h)

  pub sync-deleting :
      (name : String) (h : Trace) {cluster : ManagedCluster}
      → clusters.lister_get h name ≡ ok cluster
      → cluster.deleting ≡ true
      → run name h ≡ finish cluster (remove name h)
  unfolding sync
  sync-deleting name h listed gone = ground arith

  abbrev pub without_finalizer : ManagedCluster → ManagedCluster
  without_finalizer cluster = record cluster { finalizers = other_finalizers cluster.finalizers }

  -- What the last step of a deletion calls.
  remove_managed_cluster_finalizer_lem :
      (cluster : ManagedCluster) (h : Trace)
      → (drop_finalizer cluster h ≡ (ok tt, h))
        ⊎ ((drop_finalizer cluster h).1 ≡ update_cluster (without_finalizer cluster) ∷ h)
  unfolding remove_managed_cluster_finalizer
  remove_managed_cluster_finalizer_lem cluster h = ground arith

  remove_managed_cluster_finalizer_present :
      (cluster : ManagedCluster) (h : Trace)
      → contains cluster.finalizers managed_cluster_finalizer ≡ true
      → (drop_finalizer cluster h).1 ≡ update_cluster (without_finalizer cluster) ∷ h
  unfolding remove_managed_cluster_finalizer
  remove_managed_cluster_finalizer_present cluster h present = ground (
    arith,
    contains-any cluster.finalizers managed_cluster_finalizer,
    length-keep_if-lt (λ (f : String). f == managed_cluster_finalizer) cluster.finalizers,
  )

  finish-removed :
      (cluster c' : ManagedCluster) (x : Result (Unit {0})) (h g : Trace)
      → ((g : Trace) → At (update_cluster c') g h → ⊥)
      → At (update_cluster c') g (finish cluster (x, h)).1
      → (x ≡ ok tt) × (c' ≡ without_finalizer cluster) × (g ≡ h)
  finish-removed cluster c' (err e) h g never a = absurd (never g a)
  finish-removed cluster c' (ok _) h g never a =
      elim (remove_managed_cluster_finalizer_lem cluster h) [
        | inl e ↦
            absurd (
              never g (subst (λ (r : Result (Unit {0}) × Trace). At (update_cluster c') g r.1) e a))
        | inr e ↦ elim (subst (At (update_cluster c') g) e a) [
          | inl (same, here) ↦ (refl, cc, here)
          | inr old ↦ absurd (never g old)
        ]
      ]

  -- If a run for a cluster that is being deleted writes the cluster, then the write only takes the
  -- clean-up finalizer off, and before it, by calls of the same run, every manifest of the cluster is
  -- gone, the clean-up of the cluster's group from the ClusterRoleBindings and that from the
  -- RoleBindings had no error, and every binding that they listed is deleted, if no other subject was
  -- left, or else written without the group, if it had it.
  pub sync-finalizer_last :
      (k : IsMachinery m) (name : String) {cluster : ManagedCluster} (c' : ManagedCluster)
      (g : Trace)
      → clusters.lister_get [] name ≡ ok cluster
      → cluster.deleting ≡ true
      → At (update_cluster c') g (run name []).1
      → (c' ≡ without_finalizer cluster)
        × ((remove name []).0 ≡ ok tt)
        × IsCleanedUp m rbac asset decode name [] g
  sync-finalizer_last k name {cluster} c' g listed gone a =
      let step = sync-deleting name [] listed gone in
      let never =
        λ (g : Trace). remove_managed_cluster_resources-Only name [] (update_cluster c') g refl in
      let (fine, same, here) =
        finish-removed cluster c' (remove name []).0 (remove name []).1 g never
          (subst (λ (r : Result (Unit {0}) × Trace). At (update_cluster c') g r.1) step a) in
      (
        same,
        fine,
        subst (IsCleanedUp m rbac asset decode name []) (sym here) (
            remove_managed_cluster_resources-IsCleanedUp m rbac asset decode k clusters retry
              error_text name [] fine),
      )

  -- Once the resources of a cluster that is being deleted are removed without an error, the run
  -- writes the cluster without the clean-up finalizer, if it has that; with an error it writes
  -- nothing and returns the error.
  pub sync-deletion_goes_on :
      (name : String) (h : Trace) {cluster : ManagedCluster}
      → clusters.lister_get h name ≡ ok cluster
      → cluster.deleting ≡ true
      → ((remove name h).0 ≡ ok tt
          → contains cluster.finalizers managed_cluster_finalizer ≡ true
          → (run name h).1 ≡ update_cluster (without_finalizer cluster) ∷ (remove name h).1)
        × ((e : Err) → (remove name h).0 ≡ err e → run name h ≡ (err e, (remove name h).1))
  sync-deletion_goes_on name h {cluster} listed gone =
      let step = sync-deleting name h listed gone in
      (
        λ fine present.
            rw (step, fine)
              (remove_managed_cluster_finalizer_present cluster (remove name h).1 present),
        λ e failed. rw (step, failed) refl,
      )
