-- ===== src/Spoke/AddOn/Lease.antt =====
-- pkg/spoke/addon/lease_controller.go: the agent reports whether an add-on still renews its lease.
-- `split_key` stands for `cache.SplitMetaNamespaceKey`, `none` being its error. A lease without a
-- renewal time, for which the code panics, is left out.
pub mod Reported
pub mod Keys
use ocm_registration.Base.{
  ℕ, String, ◌<>◌, Bool, true, false, List, [], ◌∷◌, Option, none, some, ◌==◌, string_eq, not, ltb,
  ◌+◌, if◌then◌else◌,
}
use ocm_registration.Kube.{
  Err, is_not_found, Result, ok, err, enqueue, event, get_lease, Trace, Exec, pure, raise, request,
  read, record_event, handle, ◌>>=◌, Machinery, ManagedClusterAddOn, AddOnStatus, Condition,
  ConditionStatus, condition_true, condition_false, condition_unknown, Lease, AddOnApi, LeaseApi,
}
use ocm_registration.Helpers.Status.{
  update_managed_cluster_addon_status, update_managed_cluster_addon_status_fn,
}
use ocm_registration.Spoke.AddOn.Configuration.{get_addon_installation_namespace}

abbrev pub default_queue_key : String
default_queue_key = "key"

-- `leaseDurationTimes * AddOnLeaseControllerLeaseDurationSeconds`.
abbrev grace_period : ℕ
grace_period = 300

abbrev pub addon_condition : ConditionStatus → String → String → Condition
addon_condition status reason message = record {
  type = "Available";
  status = status;
  reason = reason;
  message = message;
  last_transition_time = 0;
}

abbrev pub lease_condition : ℕ → Lease → Condition
lease_condition now lease =
    if ltb now (lease.renew_time + grace_period)
    then addon_condition condition_true "ManagedClusterAddOnLeaseUpdated"
        "Managed cluster addon agent updates its lease constantly."
    else addon_condition condition_false "ManagedClusterAddOnLeaseUpdateStopped"
        "Managed cluster addon agent stopped updating its lease."

abbrev pub no_lease_condition : Condition
no_lease_condition =
    addon_condition condition_unknown "ManagedClusterAddOnLeaseNotFound"
      "Managed cluster addon agent lease is not found."

module _ (m : Machinery) (addons : AddOnApi) (leases hub_leases : LeaseApi)
    (retry : Exec (AddOnStatus × Bool) → Exec (AddOnStatus × Bool))
    (split_key : String → Option (String × String)) (cluster_name : String) where
  -- Any error of the hub counts as a missing lease.
  abbrev pub hub_condition : ℕ → Result Lease → Condition
  hub_condition now (ok lease) = lease_condition now lease
  hub_condition now (err e) = no_lease_condition

  -- The switch on the lease of the cluster.
  abbrev pub condition_for : ℕ → ManagedClusterAddOn → Result Lease → Exec Condition
  condition_for now addon (ok lease) = pure (lease_condition now lease)
  condition_for now addon (err e) =
      if is_not_found e
      then handle
          (request (get_lease addon.namespace addon.name)
            (λ h. hub_leases.get h addon.namespace addon.name))
          (λ r. pure (hub_condition now r))
      else raise e

  abbrev pub noted : Result (AddOnStatus × Bool) × Trace → Result (Unit {0}) × Trace
  noted (err e, h) = (err e, h)
  noted (ok (status, updated), h) =
      (ok tt, if updated then event "ManagedClusterAddOnStatusUpdated" ∷ h else h)

  unfoldable pub report : ManagedClusterAddOn → Condition → Exec (Unit {0})
  unfolding update_managed_cluster_addon_status update_managed_cluster_addon_status_fn
  report addon c h =
      if m.is_status_condition addon.status.conditions c.type c.status
      then (ok tt, h)
      else noted (
          update_managed_cluster_addon_status m addons retry cluster_name addon.name
            (update_managed_cluster_addon_status_fn m c ∷ []) h)

  unfoldable pub sync_single : ℕ → String → ManagedClusterAddOn → Exec (Unit {0})
  unfolding report
  sync_single now lease_namespace addon =
      handle (read (λ h. leases.lister_get h lease_namespace addon.name)) (condition_for now addon)
      >>= report addon

  abbrev enqueue_all : List ManagedClusterAddOn → Trace → Trace
  enqueue_all [] h = h
  enqueue_all (addon ∷ rest) h =
      enqueue_all rest (enqueue (get_addon_installation_namespace addon <> "/" <> addon.name) ∷ h)

  abbrev with_addons : Result (List ManagedClusterAddOn) → Exec (Unit {0})
  with_addons (err e) h = (err e, h)
  with_addons (ok found) h = (ok tt, enqueue_all found h)

  abbrev with_addon : ℕ → String → Result ManagedClusterAddOn → Exec (Unit {0})
  with_addon now namespace (err e) = if is_not_found e then pure tt else raise e
  with_addon now namespace (ok addon) = sync_single now namespace addon

  abbrev with_key : ℕ → Option (String × String) → Exec (Unit {0})
  with_key now none = pure tt
  with_key now (some (namespace, name)) =
      handle (read (λ h. addons.lister_get h cluster_name name)) (with_addon now namespace)

  unfoldable pub sync : ℕ → String → Exec (Unit {0})
  unfolding sync_single get_addon_installation_namespace
  sync now queue_key =
      if queue_key == default_queue_key
      then handle (read (λ h. addons.lister_list h cluster_name)) with_addons
      else with_key now (split_key queue_key)

module _ (addons : AddOnApi) (cluster_name : String) where
  abbrev key_for : Lease → Result ManagedClusterAddOn → String
  key_for lease (err e) = ""
  key_for lease (ok addon) =
      if not (lease.namespace == get_addon_installation_namespace addon)
      then ""
      else lease.namespace <> "/" <> lease.name

  unfoldable pub queue_key_func : Lease → Trace → String
  unfolding get_addon_installation_namespace
  queue_key_func lease h = key_for lease (addons.lister_get h cluster_name lease.name)
