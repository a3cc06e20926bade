-- ===== src/Tests/ClusterRuns.antt =====
-- Runs of the controller of managed clusters.
use ocm_registration.Base.{
  take, length, string_eq, nat_eq, some, String, true, false, List, [], ◌∷◌, ◌≡◌, ◌≢◌, refl, ◌⊎◌,
  inl, inr, contains,
}
use ocm_registration.Kube.{
  Err, Result, ok, Trace, At, Condition, condition_true, ManagedCluster, Manifest, role_manifest,
  update_cluster_status, get_cluster,
}
use ocm_registration.Helpers.Status.{attempts}
use ocm_registration.Hub.ManagedCluster.{
  managed_cluster_finalizer, static_files, apply_files, hub_accepted, apply_all,
  remove_managed_cluster_resources, sync, accepted_condition,
}
use ocm_registration.Hub.ManagedCluster.Removed.{IsCleanedUp}
use ocm_registration.Hub.ManagedCluster.Deletion.{without_finalizer, sync-finalizer_last}
use ocm_registration.Hub.ManagedCluster.Acceptance.{
  sync-apply_needs_acceptance, sync-accepted_condition,
}
use ocm_registration.Hub.ClusterRole as Roles
use ocm_registration.Hub.ClusterRole.{cluster_role_files}
use ocm_registration.Tests.Fixtures.{machinery, machinery_laws, retry, retry_is_retry}
use ocm_registration.Tests.Apis.{cluster_with, has_cluster, has_bindings, error_text}

abbrev asset : String → String → Result String
asset name file = ok file

abbrev decode : String → Result Manifest
decode raw = ok (role_manifest "c1" raw)

abbrev run : ManagedCluster → Trace → Result (Unit {0}) × Trace
run c = sync machinery (has_cluster c) (has_bindings []) retry asset decode error_text "c1"

abbrev deleted : ManagedCluster
deleted = cluster_with "c1" (managed_cluster_finalizer ∷ []) true true []

abbrev accepted : ManagedCluster
accepted = cluster_with "c1" (managed_cluster_finalizer ∷ []) false true []

-- What the run for the deleted cluster writes.
abbrev cleared : ManagedCluster
cleared = cluster_with "c1" [] true true []

abbrev remove : Trace → Result (Unit {0}) × Trace
remove =
    remove_managed_cluster_resources machinery (has_cluster deleted) (has_bindings []) retry asset
      decode error_text "c1"

sync-finalizer_last_example :
    (cleared
      ≡ without_finalizer machinery
          (has_cluster deleted)
          (has_bindings [])
          retry
          asset
          decode
          error_text
          deleted)
    × ((remove []).0 ≡ ok tt)
    × IsCleanedUp machinery (has_bindings []) asset decode "c1" [] (remove []).1
unfolding sync remove_managed_cluster_resources
    ocm_registration.Helpers.Cleanup.clean_up_managed_cluster_manifests
    ocm_registration.Helpers.Cleanup.clean_up_group_from_cluster_role_bindings
    ocm_registration.Helpers.Cleanup.clean_up_group_from_role_bindings nat_eq string_eq
sync-finalizer_last_example =
    sync-finalizer_last machinery (has_cluster deleted) (has_bindings []) retry asset decode
      error_text machinery_laws "c1" cleared (remove []).1 refl refl (inl (refl, refl))

abbrev applied : Trace → List Err × Trace
applied = apply_all (has_bindings []) apply_files

sync-apply_needs_acceptance_example :
    (cluster : ManagedCluster) × (ok accepted ≡ ok cluster)
    × (cluster.deleting ≡ false)
    × (contains cluster.finalizers managed_cluster_finalizer ≡ true)
    × (cluster.hub_accepts_client ≡ true)
unfolding sync string_eq ocm_registration.Helpers.Status.update_managed_cluster_status attempts
    ocm_registration.Helpers.Status.update_managed_cluster_condition_fn
sync-apply_needs_acceptance_example =
    sync-apply_needs_acceptance machinery (has_cluster accepted) (has_bindings []) retry_is_retry
      asset decode error_text "c1" "manifests/managedcluster-work-rolebinding.yaml"
      (apply_all (has_bindings []) (take (length static_files) apply_files) []).1
      (inr (inr (inr (inl (refl, refl)))))

abbrev written : ManagedCluster
written = cluster_with "c1" (managed_cluster_finalizer ∷ []) false true (accepted_condition ∷ [])

sync-accepted_condition_example :
    At (update_cluster_status written) (get_cluster "c1" ∷ (applied []).1) []
    ⊎ ((d : Condition) × (machinery.find_status_condition written.status.conditions hub_accepted
          ≡ some d)
        × (d.status ≡ condition_true)
        × ((applied []).0 ≡ [] → d.reason ≡ "HubClusterAdminAccepted")
        × ((applied []).0 ≢ [] → d.reason ≡ "Error"))
unfolding string_eq sync ocm_registration.Helpers.Status.update_managed_cluster_status attempts
    ocm_registration.Helpers.Status.update_managed_cluster_condition_fn
    ocm_registration.Hub.ManagedCluster.condition_after
sync-accepted_condition_example =
    sync-accepted_condition machinery (has_cluster accepted) (has_bindings []) retry_is_retry asset
      decode error_text machinery_laws "c1" [] refl refl refl refl written
      (get_cluster "c1" ∷ (applied []).1) (inr (inl (refl, refl)))

abbrev shared_run : Trace → Result (Unit {0}) × Trace
shared_run = Roles.sync machinery (has_cluster accepted) (has_bindings []) (asset "c1") decode
