-- ===== src/Hub/ClusterRole.antt =====
-- pkg/hub/clusterrole/controller.go: the cluster roles that all agents share, applied while there
-- are clusters, and removed once there are none.
pub mod Shared
use ocm_registration.Base.{String, List, [], ◌∷◌}
use ocm_registration.Kube.{
  Err, Result, ok, err, Trace, Exec, raise, read, handle, Machinery, result_of, ManagedCluster,
  Manifest, ClusterApi, RbacApi,
}
use ocm_registration.Helpers.Cleanup.{clean_up_managed_cluster_manifests}
use ocm_registration.Hub.ManagedCluster.{apply_all}

abbrev pub cluster_role_files : List String
cluster_role_files =
    "manifests/managedcluster-registration-clusterrole.yaml"
    ∷ "manifests/managedcluster-work-clusterrole.yaml" ∷ []

module _ (m : Machinery) (clusters : ClusterApi) (rbac : RbacApi) (asset : String → Result String)
    (decode : String → Result Manifest) where
  abbrev with_clusters : Result (List ManagedCluster) → Exec (Unit {0})
  with_clusters (err e) h = raise e h
  with_clusters (ok []) h =
      clean_up_managed_cluster_manifests m rbac asset decode cluster_role_files h
  with_clusters (ok (c ∷ cs)) h =
      let (errs, h') = apply_all rbac cluster_role_files h in
      (result_of (m.new_multi_line_aggregate errs), h')

  unfoldable pub sync : Exec (Unit {0})
  unfolding apply_all clean_up_managed_cluster_manifests
  sync = handle (read (λ h. clusters.lister_list h)) with_clusters
