-- ===== src/Hub/ManagedCluster.antt =====
-- pkg/hub/managedcluster/controller.go: the life of a ManagedCluster on the hub, from its finalizer
-- through acceptance and denial to the removal of its resources. `asset` gives a manifest file for
-- a cluster's name (`managed_cluster_asset_fn` at `manifest_dir`), `decode` an object, and
-- `error_text` the text of an error.
pub mod Removed
pub mod Deletion
pub mod Acceptance
pub mod Applying
use ocm_registration.Base.{
  String, ◌<>◌, Bool, true, false, List, [], ◌∷◌, ◌++◌, Option, none, some, ◌==◌, string_eq, nat_eq,
  not, ◌&&◌, length, keep_if, contains, if◌then◌else◌,
}
use ocm_registration.Kube.{
  Err, Result, ok, err, wrapped, is_not_found, Exec, Trace, Machinery, ClusterApi, RbacApi,
  Manifest, Condition, ManagedCluster, ManagedClusterStatus, condition_true, condition_false,
  result_of, event, request, ◌>>=◌, ◌>>◌, handle, pure, raise, read, record_event, update_cluster,
  apply_manifest,
}
use ocm_registration.Helpers.Status.{
  update_managed_cluster_status, update_managed_cluster_condition_fn,
}
use ocm_registration.Helpers.Cleanup.{
  and_errors, clean_up_managed_cluster_manifests, clean_up_group_from_cluster_role_bindings,
  clean_up_group_from_role_bindings,
}

abbrev pub manifest_dir : String
manifest_dir = "pkg/hub/managedcluster"

abbrev pub managed_cluster_finalizer : String
managed_cluster_finalizer = "cluster.open-cluster-management.io/api-resource-cleanup"

abbrev pub hub_accepted : String
hub_accepted = "HubAcceptedManagedCluster"

abbrev pub static_files : List String
static_files =
    "manifests/managedcluster-clusterrole.yaml" ∷ "manifests/managedcluster-clusterrolebinding.yaml"
    ∷ "manifests/managedcluster-registration-rolebinding.yaml"
    ∷ "manifests/managedcluster-work-rolebinding.yaml" ∷ []

-- The namespace is applied with the others, and is not removed with them.
abbrev pub apply_files : List String
apply_files = "manifests/managedcluster-namespace.yaml" ∷ static_files

abbrev pub error_of : {A : Type 0} → Result A → Option Err
error_of (ok a) = none
error_of (err e) = some e

abbrev pub denied_condition : Condition
denied_condition = record {
  type = hub_accepted;
  status = condition_false;
  reason = "HubClusterAdminDenied";
  message = "Denied by hub cluster admin";
  last_transition_time = 0;
}

abbrev pub accepted_condition : Condition
accepted_condition = record {
  type = hub_accepted;
  status = condition_true;
  reason = "HubClusterAdminAccepted";
  message = "Accepted by hub cluster admin";
  last_transition_time = 0;
}

abbrev pub other_finalizers : List String → List String
other_finalizers = keep_if (λ f. not (f == managed_cluster_finalizer))

-- `ApplyDirectly`: one result for each file, whatever became of those before it.
abbrev apply_error : String → Result (Unit {0}) → Option Err
apply_error file (ok _) = none
apply_error file (err e) = some (wrapped file e)

unfoldable pub apply_all : RbacApi → List String → Trace → List Err × Trace
apply_all rbac [] h = ([], h)
apply_all rbac (file ∷ files) h =
    let (errs, h') = apply_all rbac files (apply_manifest file ∷ h) in
    (and_errors (apply_error file (rbac.apply_manifest h file)) errs, h')

module _ (m : Machinery) (error_text : Err → String) where
  -- The accepted condition says what failed, and is true all the same.
  unfoldable pub condition_after : List Err → Condition
  condition_after [] = accepted_condition
  condition_after (e ∷ errs) = elim (m.new_multi_line_aggregate (e ∷ errs)) [
    | none ↦ record accepted_condition { reason = "Error"; message = "" }
    | some all ↦ record accepted_condition { reason = "Error"; message = error_text all }
  ]

module _ (m : Machinery) (clusters : ClusterApi) (rbac : RbacApi)
    (retry : Exec (ManagedClusterStatus × Bool) → Exec (ManagedClusterStatus × Bool))
    (asset : String → String → Result String) (decode : String → Result Manifest)
    (error_text : Err → String) where
  unfoldable pub remove_managed_cluster_resources : String → Exec (Unit {0})
  remove_managed_cluster_resources name h =
      let group = "system:open-cluster-management:" <> name in
      let (r, h₁) = clean_up_managed_cluster_manifests m rbac (asset name) decode static_files h in
      let (s, h₂) = clean_up_group_from_cluster_role_bindings rbac group h₁ in
      let (t, h₃) = clean_up_group_from_role_bindings rbac group h₂ in
      let errs = and_errors (error_of r) (and_errors (error_of s) (and_errors (error_of t) [])) in
      (result_of (m.new_multi_line_aggregate errs), h₃)

  unfoldable pub remove_managed_cluster_finalizer : ManagedCluster → Exec (Unit {0})
  remove_managed_cluster_finalizer cluster =
      let copied = other_finalizers cluster.finalizers in
      if not (length cluster.finalizers == length copied)
      then (do
        let updated = record cluster { finalizers = copied }
        request (update_cluster updated) (λ h. clusters.update h updated)
        pure tt)
      else pure tt

  unfoldable pub add_finalizer : ManagedCluster → Exec (Unit {0})
  add_finalizer cluster = do
    let updated = record cluster {
      finalizers = cluster.finalizers ++ managed_cluster_finalizer ∷ [];
    }
    request (update_cluster updated) (λ h. clusters.update h updated)
    pure tt

  unfoldable pub deny : String → Exec (Unit {0})
  deny name = do
    record_event "ManagedClusterDenied"
    remove_managed_cluster_resources name
    update_managed_cluster_status m clusters retry name
        (update_managed_cluster_condition_fn m denied_condition ∷ [])
    pure tt

  abbrev pub note_accepted : Result (ManagedClusterStatus × Bool) → Trace → Trace
  note_accepted (ok (s, true)) h = event "ManagedClusterAccepted" ∷ h
  note_accepted (ok (s, false)) h = h
  note_accepted (err e) h = h

  unfoldable pub accept : String → Exec (Unit {0})
  unfolding apply_all
  accept name h =
      let (errs, h') = apply_all rbac apply_files h in
      let c = condition_after m error_text errs in
      let (r, h'') =
        update_managed_cluster_status m clusters retry name
          (update_managed_cluster_condition_fn m c ∷ []) h' in
      (
        result_of (m.new_multi_line_aggregate (errs ++ and_errors (error_of r) [])),
        note_accepted r h'',
      )

  -- The branches of `sync` for a cluster that the lister has.
  unfoldable pub sync_cluster : String → ManagedCluster → Exec (Unit {0})
  unfolding remove_managed_cluster_finalizer add_finalizer deny accept
  sync_cluster name cluster =
      if not cluster.deleting && not (contains cluster.finalizers managed_cluster_finalizer)
      then add_finalizer cluster
      else if cluster.deleting
      then (do remove_managed_cluster_resources name; remove_managed_cluster_finalizer cluster)
      else if not cluster.hub_accepts_client
      then (if not (m.is_status_condition_true cluster.status.conditions hub_accepted)
          then pure tt
          else deny name)
      else accept name

  unfoldable pub sync : String → Exec (Unit {0})
  unfolding sync_cluster
  sync name = handle (read (λ h. clusters.lister_get h name)) λ r. elim r [
    | ok cluster ↦ sync_cluster name cluster
    | err e ↦ if is_not_found e then pure tt else raise e
  ]
