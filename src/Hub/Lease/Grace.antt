-- ===== src/Hub/Lease/Grace.antt =====
-- Which clusters become unavailable.
use ocm_registration.Base.{
  ℕ, String, Bool, true, false, nat_eq, ◌+◌, ◌*◌, ◌<>◌, ◌≡◌, ◌<◌, ◌≤◌, inl, inr, ◌⊎◌, arith, ◌↔◌,
  Bool-cases,
}
use ocm_registration.Kube.{
  ok, update_cluster_status, Trace, Exec, At, Result-cases, Machinery, ManagedCluster,
  ManagedClusterStatus, Lease, ClusterApi, LeaseApi,
}
use ocm_registration.Hub.ManagedCluster.{hub_accepted}
use ocm_registration.Hub.Lease.{
  lease_name, lease_duration, is_fresh, check_cluster, create_new_lease, set_unknown,
}

-- For a duration d of at most 429496729 seconds, five times of which are an int32, a lease is fresh
-- during the 5 * d seconds after its renewal, where d is 60 if the duration is 0, and not after.
pub is_fresh_iff :
    (now renew_time : ℕ) (cluster : ManagedCluster)
    → cluster.lease_duration_seconds ≤ 429496729
    → (is_fresh now renew_time cluster ≡ true) ↔ (now < renew_time + 5 * lease_duration cluster)
unfolding is_fresh
is_fresh_iff now renew_time cluster small = ground arith

-- For a duration of 429496730 to 858993459 seconds, the product is negative, and a lease that was
-- renewed just now is not fresh.
pub is_fresh-overflow :
    (now : ℕ) (cluster : ManagedCluster)
    → 429496730 ≤ cluster.lease_duration_seconds
    → cluster.lease_duration_seconds ≤ 858993459
    → is_fresh now now cluster ≡ false
unfolding is_fresh
is_fresh-overflow now cluster big small = ground arith

module _ (m : Machinery) (clusters : ClusterApi) (leases : LeaseApi)
    (retry : Exec (ManagedClusterStatus × Bool) → Exec (ManagedClusterStatus × Bool))
    (now : ℕ) where
  -- The lease with a name is in the cache and no longer fresh.
  abbrev pub IsStale : ManagedCluster → String → Trace → Type 0
  IsStale cluster name h =
      (lease : Lease) × (leases.lister_get h cluster.name name ≡ ok lease)
      × (is_fresh now lease.renew_time cluster ≡ false)

  -- A check changes the status of a cluster only if the cluster is accepted and its leases of both
  -- names have lapsed.
  pub check_cluster-IsStale :
      (cluster updated : ManagedCluster) (h g : Trace)
      → At (update_cluster_status updated) g (check_cluster m clusters leases retry now cluster h).1
      → At (update_cluster_status updated) g h
        ⊎ ((m.is_status_condition_true cluster.status.conditions hub_accepted ≡ true)
            × IsStale cluster lease_name h
            × IsStale cluster ("cluster-lease-" <> cluster.name) h)
  unfolding check_cluster create_new_lease
  check_cluster-IsStale cluster updated h g a =
      elim (Bool-cases (m.is_status_condition_true cluster.status.conditions hub_accepted)) [
        | inr unaccepted ↦ inl (ground (arith, unaccepted, a))
        | inl accepted ↦ elim (Result-cases (leases.lister_get h cluster.name lease_name)) [
          | inr (why, missing) ↦ inl (ground (arith, accepted, missing, a))
          | inl (lease, found) ↦ elim (Bool-cases (is_fresh now lease.renew_time cluster)) [
            | inl fresh ↦ inl (ground (arith, accepted, found, fresh, a))
            | inr stale ↦
                let answer = leases.lister_get h cluster.name ("cluster-lease-" <> cluster.name) in
                elim (Result-cases answer) [
                  | inr (why, missing) ↦ inl (ground (arith, accepted, found, stale, missing, a))
                  | inl (old, found_old) ↦ elim (Bool-cases (is_fresh now old.renew_time cluster)) [
                    | inl fresh ↦ inl (ground (arith, accepted, found, stale, found_old, fresh, a))
                    | inr stale_old ↦
                        inr (accepted, (lease, found, stale), (old, found_old, stale_old))
                  ]
                ]
          ]
        ]
      ]

  -- An accepted cluster whose leases of both names have lapsed is set to unknown.
  pub check_cluster-set_unknown :
      (cluster : ManagedCluster) (h : Trace)
      → m.is_status_condition_true cluster.status.conditions hub_accepted ≡ true
      → IsStale cluster lease_name h
      → IsStale cluster ("cluster-lease-" <> cluster.name) h
      → check_cluster m clusters leases retry now cluster h
        ≡ set_unknown m clusters leases retry now cluster.name h
  unfolding check_cluster
  check_cluster-set_unknown cluster h accepted (lease, found, stale) (old, found_old, stale_old) =
      ground (arith, accepted, found, stale, found_old, stale_old)
