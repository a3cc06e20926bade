-- ===== src/Tests/AgentRuns.antt =====
-- Runs of the agent's controllers, of the lease controllers, and of the map of cluster sets.
use ocm_registration.Base.{
  arith, String, Bool, true, false, List, [], ◌∷◌, none, some, ◌≡◌, refl, string_eq, nat_eq, ◌≤◌,
  not, ◌&&◌,
}
use ocm_registration.Kube.{
  not_found, ok, err, Trace, ManagedCluster, Lease, ClusterApi, ClusterClaim, get_cluster,
}
use ocm_registration.Hub.ManagedCluster.{accepted_condition}
use ocm_registration.Hub.Lease.{lease_name, is_fresh, unknown_condition}
use ocm_registration.Hub.Lease.Grace.{is_fresh-overflow}
use ocm_registration.Spoke.Lease.{State}
use ocm_registration.Spoke.Lease.Routine.{after_all, HasDuration, sync-stays_stopped}
use ocm_registration.Spoke.Creating.{new_cluster}
use ocm_registration.Spoke.Claims.{is_reserved, exposed}
use ocm_registration.Spoke.Claims.Exposed.{count, exposed_lem}
use ocm_registration.Tests.Fixtures.{machinery}
use ocm_registration.Tests.Apis.{cluster_with}

abbrev accepted : ManagedCluster
accepted = cluster_with "c1" [] false true (accepted_condition ∷ [])

abbrev denied : ManagedCluster
denied = cluster_with "c1" [] false false []

-- The cache has the denied cluster at first, and the accepted one after a call.
abbrev cluster_at : Trace → ManagedCluster
cluster_at [] = denied
cluster_at (c ∷ h) = accepted

abbrev changing : ClusterApi
changing = record {
  get = λ h name. ok (cluster_at h);
  create = λ h new. ok new;
  update = λ h new. ok new;
  update_status = λ h new. ok new;
  lister_get = λ h name. ok (cluster_at h);
  lister_list = λ h. ok [];
}

abbrev renewing : State
renewing = record { last_lease_duration_seconds = 60; routine = some 60 }

same_one : HasDuration machinery changing "c1" 60 (get_cluster "c1" ∷ [])
unfolding nat_eq
same_one cluster found is = ground (arith, found)

same_none : HasDuration machinery changing "c1" 60 []
unfolding nat_eq
same_none cluster found is = ground (arith, found)

sync-stays_stopped_example :
    let s' =
      after_all machinery changing "c1" renewing
        ([] ∷ (get_cluster "c1" ∷ []) ∷ [] ∷ (get_cluster "c1" ∷ []) ∷ []) in
    (s'.routine ≡ none) × (s'.last_lease_duration_seconds ≡ 60)
unfolding nat_eq
sync-stays_stopped_example =
    sync-stays_stopped machinery changing "c1" renewing denied []
      ((get_cluster "c1" ∷ []) ∷ [] ∷ (get_cluster "c1" ∷ []) ∷ []) refl refl
      (same_one, (same_none, (same_one, tt)))

abbrev long : ManagedCluster
long = record accepted { lease_duration_seconds = 500000000 }

is_fresh-overflow_example : is_fresh 1000 1000 long ≡ false
is_fresh-overflow_example = is_fresh-overflow 1000 long (omega arith) (omega arith)

abbrev lapsed : Lease
lapsed = record {
  namespace = "c1";
  name = lease_name;
  labels = [];
  holder_identity = lease_name;
  renew_time = 0;
}

abbrev unknown : ManagedCluster
unknown = cluster_with "c1" [] false true (accepted_condition ∷ unknown_condition ∷ [])

abbrev no_cluster : ClusterApi
no_cluster = record {
  get = λ h name. err not_found;
  create = λ h new. ok new;
  update = λ h new. ok new;
  update_status = λ h new. ok new;
  lister_get = λ h name. err not_found;
  lister_list = λ h. ok [];
}

abbrev is_anonymous : String → Bool
is_anonymous text = false

abbrev new : ManagedCluster
new = new_cluster no_cluster is_anonymous "c1" ("https://c1" ∷ []) ""

abbrev claim : String → ClusterClaim
claim name = record { name = name; value = "" }

abbrev claims : List ClusterClaim
claims = claim "b" ∷ claim "a" ∷ claim "id.k8s.io" ∷ []

exposed_lem_example :
    ((p : ClusterClaim → Bool)
      → count (λ c. p c && is_reserved ("id.k8s.io" ∷ []) c) (exposed ("id.k8s.io" ∷ []) 1 claims)
        ≡ count (λ c. p c && is_reserved ("id.k8s.io" ∷ []) c) claims)
    × (count (λ c. not (is_reserved ("id.k8s.io" ∷ []) c)) (exposed ("id.k8s.io" ∷ []) 1 claims)
        ≤ 1)
    × (count (λ c. not (is_reserved ("id.k8s.io" ∷ []) c)) claims ≤ 1
        → (p : ClusterClaim → Bool)
        → count p (exposed ("id.k8s.io" ∷ []) 1 claims) ≡ count p claims)
exposed_lem_example = exposed_lem ("id.k8s.io" ∷ []) 1 claims
