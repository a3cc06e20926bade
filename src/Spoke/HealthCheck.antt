-- ===== src/Spoke/HealthCheck.antt =====
-- pkg/spoke/managedcluster/healthcheck_controller.go: whether the API server of the managed cluster
-- is healthy. An endpoint answers with a status code, 0 if none came, and a body or an error.
pub mod Health
use ocm_registration.Base.{
  ℕ, String, Bool, true, false, List, [], ◌∷◌, ◌==◌, nat_eq, ◌||◌, if◌then◌else◌, ◌<>◌,
}
use ocm_registration.Kube.{
  Err, wrapped, Result, ok, err, event, Trace, Exec, pure, raise, read, ◌>>=◌, handle, Machinery,
  ManagedCluster, ManagedClusterStatus, Condition, condition_true, condition_false, ClusterApi,
}
use ocm_registration.Helpers.Status.{
  update_managed_cluster_condition_fn, update_managed_cluster_status,
}
use ocm_registration.Hub.Lease.{available}

pub record Answer : Type 0 where
  pub status_code : ℕ
  pub raw : Result String

abbrev pub available_condition : Condition
available_condition = record {
  type = available;
  status = condition_true;
  reason = "ManagedClusterAvailable";
  message = "Managed cluster is available";
  last_transition_time = 0;
}

module _ (number_text : ℕ → String) (error_text : Err → String) where
  abbrev detail : Result String → String
  detail (ok body) = body
  detail (err e) = error_text e

  unfoldable unavailable_condition : Answer → Condition
  unavailable_condition answer = record {
    type = available;
    status = condition_false;
    reason = "ManagedClusterKubeAPIServerUnavailable";
    message =
        "The kube-apiserver is not ok, status code: "
        <> number_text answer.status_code
        <> ", "
        <> detail answer.raw;
    last_transition_time = 0;
  }

  -- The second endpoint is asked only if the first is not found or forbidden.
  unfoldable pub check_kube_api_server_status : Answer → Answer → Condition
  unfolding unavailable_condition
  check_kube_api_server_status livez healthz =
      if livez.status_code == 200
      then available_condition
      else if livez.status_code == 404 || livez.status_code == 403
      then (if healthz.status_code == 200
          then available_condition
          else unavailable_condition healthz)
      else unavailable_condition livez

module _ (m : Machinery) (clusters : ClusterApi)
    (retry : Exec (ManagedClusterStatus × Bool) → Exec (ManagedClusterStatus × Bool))
    (number_text : ℕ → String) (error_text : Err → String) (cluster_name : String) where
  abbrev pub note_updated : Result (ManagedClusterStatus × Bool) → Exec (Unit {0})
  note_updated (ok (s, true)) h = (ok tt, event "ManagedClusterAvailableConditionUpdated" ∷ h)
  note_updated (ok (s, false)) h = (ok tt, h)
  note_updated (err e) h = (err (wrapped "unable to update status of managed cluster" e), h)

  abbrev with_cluster : Answer → Answer → Result ManagedCluster → Exec (Unit {0})
  with_cluster livez healthz (err e) = raise (wrapped "unable to get managed cluster" e)
  with_cluster livez healthz (ok _) =
      handle
        (update_managed_cluster_status m clusters retry cluster_name (
          update_managed_cluster_condition_fn m
            (check_kube_api_server_status number_text error_text livez healthz)
          ∷ []))
        note_updated

  unfoldable pub sync : Answer → Answer → Exec (Unit {0})
  unfolding check_kube_api_server_status
  sync livez healthz =
      handle (read (λ h. clusters.lister_get h cluster_name)) (with_cluster livez healthz)
