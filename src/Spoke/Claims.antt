-- ===== src/Spoke/Claims.antt =====
-- pkg/spoke/managedcluster/claim_controller.go: the claims of the managed cluster in its status on
-- the hub. `sort.SliceStable` is an insertion sort by name, which keeps the order of equal names.
pub mod Exposed
use Prim.Native.Nat.{Ordering}
use Prim.Native.String.{compare}
use ocm_registration.Base.{
  ℕ, zero, suc, String, Bool, true, false, List, [], ◌∷◌, ◌++◌, ◌==◌, string_eq, if◌then◌else◌, not,
  ltb, length, take, keep_if, contains,
}
use ocm_registration.Kube.{
  Err, wrapped, Result, ok, err, event, Trace, Exec, pure, raise, read, ◌>>=◌, ◌>>◌, record_event,
  handle, Machinery, ManagedCluster, ManagedClusterStatus, ClusterClaim, ClusterApi,
}
use ocm_registration.Helpers.Status.{UpdateFunc, update_managed_cluster_status}

abbrev pub joined : String
joined = "ManagedClusterJoined"

abbrev is_before : String → String → Bool
is_before a b = elim (compare a b) [ Ordering.lt ↦ true | _ ↦ false ]

abbrev pub insert_by_name : ClusterClaim → List ClusterClaim → List ClusterClaim
insert_by_name c [] = c ∷ []
insert_by_name c (d ∷ ds) = if is_before d.name c.name then d ∷ insert_by_name c ds else c ∷ d ∷ ds

unfoldable pub sort_stable : List ClusterClaim → List ClusterClaim
sort_stable [] = []
sort_stable (c ∷ cs) = insert_by_name c (sort_stable cs)

-- `ReservedClusterClaimNames` is in another package.
module _ (reserved_names : List String) where
  abbrev pub is_reserved : ClusterClaim → Bool
  is_reserved c = contains reserved_names c.name

  unfoldable pub reserved_claims : List ClusterClaim → List ClusterClaim
  unfolding sort_stable
  reserved_claims claims = sort_stable (keep_if is_reserved claims)

  unfoldable pub custom_claims : List ClusterClaim → List ClusterClaim
  unfolding sort_stable
  custom_claims claims = sort_stable (keep_if (λ c. not (is_reserved c)) claims)

  -- The custom claims that stay, and whether some do not.
  unfoldable pub truncate : ℕ → List ClusterClaim → List ClusterClaim × Bool
  truncate max claims = if ltb max (length claims) then (take max claims, true) else (claims, false)

  unfoldable pub exposed : ℕ → List ClusterClaim → List ClusterClaim
  unfolding reserved_claims custom_claims truncate
  exposed max claims =
      let (kept, truncated) = truncate max (custom_claims claims) in reserved_claims claims ++ kept

unfoldable pub update_cluster_claims_fn : List ClusterClaim → UpdateFunc ManagedClusterStatus
update_cluster_claims_fn claims status = ok (record status { cluster_claims = claims })

module _ (m : Machinery) (clusters : ClusterApi)
    (retry : Exec (ManagedClusterStatus × Bool) → Exec (ManagedClusterStatus × Bool))
    (claim_lister : Trace → Result (List ClusterClaim)) (reserved_names : List String)
    (cluster_name : String) (max_custom_cluster_claims : ℕ) where
  abbrev pub note_truncated : Bool → Trace → Trace
  note_truncated true h = event "CustomClusterClaimsTruncated" ∷ h
  note_truncated false h = h

  abbrev without_value : Result (ManagedClusterStatus × Bool) → Exec (Unit {0})
  without_value (ok _) = pure tt
  without_value (err e) = raise (wrapped "unable to update status of managed cluster" e)

  abbrev expose : Result (List ClusterClaim) → Exec (Unit {0})
  expose (err e) h = (err (wrapped "unable to list cluster claims" e), h)
  expose (ok claims) h =
      let (kept, truncated) =
        truncate reserved_names max_custom_cluster_claims (custom_claims reserved_names claims) in
      handle
        (update_managed_cluster_status m clusters retry cluster_name
          (update_cluster_claims_fn (exposed reserved_names max_custom_cluster_claims claims) ∷ []))
        without_value (note_truncated truncated h)

  unfoldable pub expose_claims : Exec (Unit {0})
  unfolding truncate custom_claims exposed
  expose_claims = handle (read claim_lister) expose

  abbrev with_cluster : Result ManagedCluster → Exec (Unit {0})
  with_cluster (err e) = raise (wrapped "unable to get managed cluster" e)
  with_cluster (ok cluster) =
      if not (m.is_status_condition_true cluster.status.conditions joined)
      then record_event "ManagedClusterIsNotAccepted"
      else expose_claims

  unfoldable pub sync : Exec (Unit {0})
  unfolding expose_claims
  sync = handle (read (λ h. clusters.lister_get h cluster_name)) with_cluster
