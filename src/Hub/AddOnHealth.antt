-- ===== src/Hub/AddOnHealth.antt =====
-- pkg/hub/addon/healthcheck_controller.go: the add-ons of a cluster of which nothing is known are
-- marked as unknown.
pub mod Marked
use ocm_registration.Base.{
  String, Bool, true, false, List, [], ◌∷◌, Option, none, some, not, if◌then◌else◌,
}
use ocm_registration.Kube.{
  Err, is_not_found, Result, ok, err, result_of, event, Trace, Exec, Machinery, ManagedCluster,
  ManagedClusterAddOn, AddOnStatus, Condition, ConditionStatus, condition_unknown, same_status,
  ClusterApi, AddOnApi,
}
use ocm_registration.Helpers.Status.{
  update_managed_cluster_addon_status, update_managed_cluster_addon_status_fn,
}
use ocm_registration.Hub.Lease.{available}

abbrev addon_available_condition_type : String
addon_available_condition_type = "Available"

-- What an add-on is told of its cluster's condition.
abbrev pub addon_condition : Condition → Condition
addon_condition c = record {
  type = addon_available_condition_type;
  status = c.status;
  reason = c.reason;
  message = c.message;
  last_transition_time = 0;
}

module _ (m : Machinery) (clusters : ClusterApi) (addons : AddOnApi)
    (retry : Exec (AddOnStatus × Bool) → Exec (AddOnStatus × Bool)) where
  -- One round of the loop: its error, if it has one.
  abbrev pub noted : Result (AddOnStatus × Bool) × Trace → Option Err × Trace
  noted (err e, h) = (some e, h)
  noted (ok (status, updated), h) =
      (none, if updated then event "ManagedClusterAddOnStatusUpdated" ∷ h else h)

  unfoldable pub mark : Condition → ManagedClusterAddOn → Trace → Option Err × Trace
  unfolding update_managed_cluster_addon_status update_managed_cluster_addon_status_fn
  mark c addon h = noted (
      update_managed_cluster_addon_status m addons retry addon.namespace addon.name
        (update_managed_cluster_addon_status_fn m (addon_condition c) ∷ []) h)

  unfoldable pub mark_all : Condition → List ManagedClusterAddOn → Trace → List Err × Trace
  unfolding mark
  mark_all c [] h = ([], h)
  mark_all c (addon ∷ rest) h =
      let (e, h') = mark c addon h in
      let (errs, h'') = mark_all c rest h' in
      ((elim e [ none ↦ errs | some why ↦ why ∷ errs ]), h'')

  abbrev pub with_addons :
      Condition → Trace → Result (List ManagedClusterAddOn) → Result (Unit {0}) × Trace
  with_addons c h (err e) = (err e, h)
  with_addons c h (ok found) =
      let (errs, h') = mark_all c found h in (result_of (m.new_multi_line_aggregate errs), h')

  abbrev with_condition : String → Trace → Option Condition → Result (Unit {0}) × Trace
  with_condition name h none = (ok tt, h)
  with_condition name h (some c) =
      if not (same_status c.status condition_unknown)
      then (ok tt, h)
      else with_addons c h (addons.lister_list h name)

  abbrev with_cluster : String → Trace → Result ManagedCluster → Result (Unit {0}) × Trace
  with_cluster name h (err e) = if is_not_found e then (ok tt, h) else (err e, h)
  with_cluster name h (ok cluster) =
      with_condition name h (m.find_status_condition cluster.status.conditions available)

  unfoldable pub sync : String → Exec (Unit {0})
  unfolding mark_all
  sync name h = with_cluster name h (clusters.lister_get h name)
