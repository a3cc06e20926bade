-- ===== src/Spoke/Joining/Joined.antt =====
-- What a sync of the joining controller writes.
use ocm_registration.Base.{
  ℕ, String, Bool, true, false, List, Option, some, ◌≡◌, ◌⊎◌, inl, inr, arith, subst, Bool-cases,
}
use ocm_registration.Kube.{
  Result, ok, Exec, Trace, At, Result-cases, Machinery, IsMachinery, ManagedCluster,
  ManagedClusterStatus, Condition, condition_true, ClusterApi, update_cluster_status,
}
use ocm_registration.Helpers.Status.{
  UpdateFunc, IsRetry, apply_updates, update_managed_cluster_condition_fn,
}
use ocm_registration.Helpers.Status.Laws.{Written, update_managed_cluster_status-Sends}
use ocm_registration.Hub.ManagedCluster.{hub_accepted}
use ocm_registration.Spoke.Claims.{joined}
use ocm_registration.Spoke.Joining.{
  Node, joined_condition, update_cluster_resources_fn, update_funcs, with_version, sync,
}

module _ (m : Machinery) (clusters : ClusterApi)
    {retry : Exec (ManagedClusterStatus × Bool) → Exec (ManagedClusterStatus × Bool)}
    (r : IsRetry retry) (node_lister : Trace → Result (List Node))
    (server_version : Trace → Result String) (as_int64 : ℕ → ℕ) (parse_mi : ℕ → Option ℕ)
    (cluster_name : String) where
  abbrev updates : List Node → String → List (UpdateFunc ManagedClusterStatus)
  updates =
      update_funcs m clusters retry node_lister server_version as_int64 parse_mi cluster_name false

  -- The status has the joined condition.
  abbrev pub IsJoined : ManagedClusterStatus → Type 0
  IsJoined s =
      (d : Condition) × (m.find_status_condition s.conditions joined ≡ some d)
      × (d.status ≡ condition_true)

  updates-IsJoined :
      IsMachinery m
      → (nodes : List Node) (version : String) (c : ManagedCluster)
      → Written (updates nodes version) (update_cluster_status c)
      → IsJoined c.status
  unfolding apply_updates update_managed_cluster_condition_fn update_cluster_resources_fn
  updates-IsJoined k nodes version c (old, e) =
      let (d, found, same) = k.find-set old.conditions joined_condition in
      let stored : m.set_status_condition old.conditions joined_condition ≡ c.status.conditions =
        ground (arith, e) in
      (d, subst (λ cs. m.find_status_condition cs joined ≡ some d) stored found, same.status)

  with_version-Written :
      (nodes : List Node) (version : String) (c : ManagedCluster) (h g : Trace)
      → At
          (update_cluster_status c)
          g
          (with_version m clusters retry node_lister server_version as_int64 parse_mi cluster_name
            false nodes
            (ok version)
            h).1
      → At (update_cluster_status c) g h ⊎ Written (updates nodes version) (update_cluster_status c)
  with_version-Written nodes version c h g a =
      let sent =
        update_managed_cluster_status-Sends m clusters r cluster_name (updates nodes version) h
          (update_cluster_status c) g in
      ground (arith, a, sent)

  -- A status that a sync writes for a cluster that has not joined has the joined condition, true,
  -- and the hub had accepted the cluster; it is written only if the nodes and the version could be
  -- read.
  pub sync-IsJoined :
      (k : IsMachinery m) (cluster c : ManagedCluster) (h g : Trace)
      → clusters.lister_get h cluster_name ≡ ok cluster
      → m.is_status_condition_true cluster.status.conditions joined ≡ false
      → At
          (update_cluster_status c)
          g
          (sync m clusters retry node_lister server_version as_int64 parse_mi cluster_name h).1
      → At (update_cluster_status c) g h
        ⊎ (IsJoined c.status
            × (m.is_status_condition_true cluster.status.conditions hub_accepted ≡ true)
            × (nodes : List Node) × (node_lister h ≡ ok nodes)
            × (version : String) × (server_version h ≡ ok version))
  unfolding sync
  sync-IsJoined k cluster c h g listed unjoined a =
      elim (Bool-cases (m.is_status_condition_true cluster.status.conditions hub_accepted)) [
        | inr unaccepted ↦ inl (ground (arith, listed, unaccepted, a))
        | inl accepted ↦ elim (Result-cases (node_lister h)) [
          | inr (why, bad) ↦ inl (ground (arith, listed, accepted, unjoined, bad, a))
          | inl (nodes, has_nodes) ↦ elim (Result-cases (server_version h)) [
            | inr (why, bad) ↦ inl (ground (arith, listed, accepted, unjoined, has_nodes, bad, a))
            | inl (version, has_version) ↦
                elim (with_version-Written nodes version c h g
                  (ground (arith, listed, accepted, unjoined, has_nodes, has_version, a))) [
                    | inl earlier ↦ inl earlier
                    | inr sent ↦ inr (
                      updates-IsJoined k nodes version c sent,
                      accepted,
                      nodes,
                      has_nodes,
                      version,
                      has_version,
                    )
                  ]
          ]
        ]
      ]
