-- ===== src/Spoke/Creating/Outcomes.antt =====
-- What the agent does when it starts.
use ocm_registration.Base.{String, Bool, false, List, ◌∷◌, ◌≡◌, inl, inr, ◌⊎◌, arith}
use ocm_registration.Kube.{
  not_found, err, get_cluster, create_cluster, Trace, At, ManagedCluster, ClusterApi, Result-cases,
}
use ocm_registration.Spoke.Creating.{new_cluster, create, sync}

module _ (api : ClusterApi) (is_anonymous : String → Bool) (cluster_name : String)
    (urls : List String) (ca_bundle : String) where
  create_lem :
      (cluster : ManagedCluster) (h g : Trace)
      → At (create_cluster cluster) g (create api is_anonymous cluster_name urls ca_bundle h).1
      → At (create_cluster cluster) g h
        ⊎ (cluster ≡ new_cluster api is_anonymous cluster_name urls ca_bundle)
  unfolding create
  create_lem cluster h g a = ground (arith, a)

  -- The cluster is created only if the hub said that it is not there; it is then the new cluster,
  -- not accepted, and under the agent's name.
  pub sync-create_cluster :
      (cluster : ManagedCluster) (h g : Trace)
      → At (create_cluster cluster) g (sync api is_anonymous cluster_name urls ca_bundle h).1
      → At (create_cluster cluster) g h
        ⊎ ((api.get h cluster_name ≡ err not_found)
            × (cluster ≡ new_cluster api is_anonymous cluster_name urls ca_bundle)
            × (cluster.hub_accepts_client ≡ false)
            × (cluster.name ≡ cluster_name))
  unfolding sync create new_cluster
  sync-create_cluster cluster h g a = elim (Result-cases (api.get h cluster_name)) [
    | inl (found, e) ↦ inl (ground (arith, e, a))
    | inr (not_found, e) ↦
        elim (create_lem cluster (get_cluster cluster_name ∷ h) g (ground (arith, e, a))) [
          | inl earlier ↦ inl (ground (arith, earlier))
          | inr new ↦ inr (e, new, ground (arith, new), ground (arith, new))
        ]
    | inr (_, e) ↦ inl (ground (arith, e, a))
  ]
