-- ===== src/Hub/Lease.antt =====
-- pkg/hub/lease/controller.go: whether the agent of each accepted cluster still renews its lease.
-- Times are numbers of seconds, and all calls of `time.Now` in one sync give the same. A lease
-- without a renewal time, for which the code panics, is left out.
pub mod Grace
use ocm_registration.Base.{
  ℕ, String, Bool, true, false, List, [], ◌∷◌, Option, none, some, ◌==◌, nat_eq, if◌then◌else◌, not,
  ltb, ◌+◌, ◌-◌, ◌*◌, ◌%◌, ◌<>◌,
}
use ocm_registration.Kube.{
  Err, is_not_found, wrapped, Result, ok, err, Call, create_lease, event, Trace, Exec, pure, raise,
  request, read, ◌>>=◌, ◌>>◌, handle, Machinery, ManagedCluster, ManagedClusterStatus, Condition,
  condition_unknown, Lease, ClusterApi, LeaseApi,
}
use ocm_registration.Helpers.Status.{
  update_managed_cluster_condition_fn, update_managed_cluster_status,
}
use ocm_registration.Hub.ManagedCluster.{hub_accepted}

abbrev pub lease_name : String
lease_name = "managed-cluster-lease"

abbrev pub available : String
available = "ManagedClusterConditionAvailable"

-- An int32, 60 for 0.
abbrev pub lease_duration : ManagedCluster → ℕ
lease_duration cluster =
    if cluster.lease_duration_seconds == 0 then 60 else cluster.lease_duration_seconds

-- `leaseDurationTimes * leaseDurationSeconds`, in int32.
abbrev grace_period : ManagedCluster → ℕ
grace_period cluster = 5 * lease_duration cluster % 4294967296

-- `now.Before(renewTime.Add(gracePeriod))`, where the period may be negative.
unfoldable pub is_fresh : ℕ → ℕ → ManagedCluster → Bool
is_fresh now renew_time cluster =
    if ltb (grace_period cluster) 2147483648
    then ltb now (renew_time + grace_period cluster)
    else ltb (now + (4294967296 - grace_period cluster)) renew_time

abbrev pub unknown_condition : Condition
unknown_condition = record {
  type = available;
  status = condition_unknown;
  reason = "ManagedClusterLeaseUpdateStopped";
  message = "Registration agent stopped updating its lease.";
  last_transition_time = 0;
}

abbrev new_lease : ℕ → String → String → Lease
new_lease now cluster_name name = record {
  namespace = cluster_name;
  name = name;
  labels = ("open-cluster-management.io/cluster-name", cluster_name) ∷ [];
  holder_identity = name;
  renew_time = now;
}

module _ (m : Machinery) (clusters : ClusterApi) (leases : LeaseApi)
    (retry : Exec (ManagedClusterStatus × Bool) → Exec (ManagedClusterStatus × Bool))
    (now : ℕ) where
  unfoldable pub create_new_lease : String → String → Exec (Unit {0})
  create_new_lease cluster_name name = do
    let lease = new_lease now cluster_name name
    request (create_lease lease) (λ h. leases.create h lease)
    pure tt

  abbrev pub note_unknown : ManagedClusterStatus × Bool → Trace → Result (Unit {0}) × Trace
  note_unknown (s, true) h = (ok tt, event "ManagedClusterAvailableConditionUpdated" ∷ h)
  note_unknown (s, false) h = (ok tt, h)

  unfoldable pub set_unknown : String → Exec (Unit {0})
  set_unknown name =
      update_managed_cluster_status m clusters retry name
        (update_managed_cluster_condition_fn m unknown_condition ∷ [])
      >>= note_unknown

  -- The lease with the name of the releases before 2.3.
  abbrev old_lease : ManagedCluster → Result Lease → Exec (Unit {0})
  old_lease cluster (ok lease) =
      if is_fresh now lease.renew_time cluster then pure tt else set_unknown cluster.name
  old_lease cluster (err e) =
      if is_not_found e
      then create_new_lease cluster.name ("cluster-lease-" <> cluster.name)
      else raise e

  abbrev current_lease : ManagedCluster → Result Lease → Exec (Unit {0})
  current_lease cluster (ok lease) h =
      let (r, h') =
        handle (read (λ g. leases.lister_get g cluster.name ("cluster-lease-" <> cluster.name)))
          (old_lease cluster) h in
      if is_fresh now lease.renew_time cluster then (ok tt, h) else (r, h')
  current_lease cluster (err e) h =
      let (r, h') = create_new_lease cluster.name lease_name h in
      if is_not_found e then (r, h') else (err e, h)

  -- The body of the loop in `sync`.
  unfoldable pub check_cluster : ManagedCluster → Exec (Unit {0})
  unfolding create_new_lease set_unknown is_fresh
  check_cluster cluster =
      if not (m.is_status_condition_true cluster.status.conditions hub_accepted)
      then pure tt
      else handle (read (λ h. leases.lister_get h cluster.name lease_name)) (current_lease cluster)

  unfoldable check_clusters : List ManagedCluster → Exec (Unit {0})
  check_clusters [] = pure tt
  check_clusters (cluster ∷ clusters') = check_cluster cluster >> check_clusters clusters'

  -- An error of the lister is no error of `sync`.
  unfoldable pub sync : Exec (Unit {0})
  unfolding check_clusters
  sync =
      handle (read (λ h. clusters.lister_list h))
        λ r. elim r [ ok found ↦ check_clusters found | err e ↦ pure tt ]
