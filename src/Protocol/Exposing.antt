-- ===== src/Protocol/Exposing.antt =====
-- The agent's claims and its health checks write the same status on the hub, in any order.
use ocm_registration.Base.{
  ℕ, String, Bool, true, false, List, [], ◌∷◌, ◌≡◌, ◌≢◌, refl, ◌∙◌, sym, ap, arith, ◌==◌, string_eq,
}
use ocm_registration.Kube.{
  Err, Result, ok, Exec, Trace, event, Machinery, IsMachinery, ClusterApi, ClusterClaim, Condition,
  ManagedCluster, ManagedClusterStatus,
}
use ocm_registration.Helpers.Status.{IsRetry, apply_updates}
use ocm_registration.Hub.Lease.{available}
use ocm_registration.Spoke.Claims as Claims
use ocm_registration.Spoke.Claims.{
  exposed, truncate, custom_claims, update_cluster_claims_fn, joined,
}
use ocm_registration.Spoke.HealthCheck as HealthCheck
use ocm_registration.Spoke.HealthCheck.{Answer, check_kube_api_server_status}
use ocm_registration.Spoke.HealthCheck.Health.{check_kube_api_server_status_lem}
use ocm_registration.Protocol.Server.{IsServer, Compares, ComparesConditions, update_field}
use ocm_registration.Protocol.Recovering.{checked_status, sync_field}

differ : available ≢ joined
unfolding string_eq
differ p = let q : false ≡ true = ap (λ (s : String). s == joined) p in absurd (ground (arith, q))

module _ (m : Machinery) (k : IsMachinery m) (deep : ComparesConditions m)
    (deep_claims : Compares m (λ s. s.cluster_claims)) (name : String) (clusters : ClusterApi)
    (server : IsServer name clusters)
    {retry : Exec (ManagedClusterStatus × Bool) → Exec (ManagedClusterStatus × Bool)}
    (r : IsRetry retry) (number_text : ℕ → String) (error_text : Err → String)
    (claim_lister : Trace → Result (List ClusterClaim)) (reserved_names : List String)
    (max : ℕ) where
  abbrev pub expose : Exec (Unit {0})
  expose = Claims.sync m clusters retry claim_lister reserved_names name max

  abbrev pub check_health : Answer → Answer → Exec (Unit {0})
  check_health = HealthCheck.sync m clusters retry number_text error_text name

  abbrev pub HasJoined : Trace → Type 0
  HasJoined h = m.is_status_condition_true (server.stored h).status.conditions joined ≡ true

  -- The status that a run for the claims makes.
  abbrev claimed_status : List ClusterClaim → ManagedClusterStatus → ManagedClusterStatus
  claimed_status claims old = record old { cluster_claims = exposed reserved_names max claims }

  abbrev note : Bool → Trace → Trace
  note = Claims.note_truncated m clusters retry claim_lister reserved_names name max

  noted : (b : Bool) (h : Trace) → server.stored (note b h) ≡ server.stored h
  noted true h = server.stored_other h (event "CustomClusterClaimsTruncated") refl
  noted false h = refl

  -- A run for the claims of a joined cluster succeeds, and a part of the status that `DeepEqual`
  -- compares is then as it was made.
  expose_field :
      {A : Type 0} (field : ManagedClusterStatus → A)
      → Compares m field
      → (claims : List ClusterClaim) (h : Trace) → claim_lister h ≡ ok claims
      → HasJoined h
      → ((expose h).0 ≡ ok tt)
        × (field (server.stored (expose h).1).status
            ≡ field (claimed_status claims (server.stored h).status))
  unfolding Claims.sync Claims.expose_claims update_cluster_claims_fn apply_updates
  expose_field field compares claims h listed has_joined =
      let fs = update_cluster_claims_fn (exposed reserved_names max claims) ∷ [] in
      let cut = (truncate reserved_names max (custom_claims reserved_names claims)).1 in
      let h' = note cut h in
      let (s, done, has) =
        update_field m deep name clusters server r field compares fs
          (claimed_status claims (server.stored h').status) h' refl in
      rw (server.lists h, has_joined, listed, done)
        (
          refl,
          has ∙ ap (λ (c : ManagedCluster). field (claimed_status claims c.status)) (noted cut h),
        )

  check_field :
      {A : Type 0} (field : ManagedClusterStatus → A)
      → Compares m field
      → (livez healthz : Answer) (h : Trace)
      → let out = check_health livez healthz h in
        (out.0 ≡ ok tt)
        × (field (server.stored out.1).status
            ≡ field (
                checked_status m k deep name clusters server r number_text error_text livez healthz
                  (server.stored h).status))
  check_field = sync_field m k deep name clusters server r number_text error_text

  still-HasJoined :
      (h g : Trace) (livez healthz : Answer)
      → (server.stored g).status.conditions
        ≡ (checked_status m k deep name clusters server r number_text error_text livez healthz
            (server.stored h).status).conditions
      → HasJoined h
      → HasJoined g
  still-HasJoined h g livez healthz has has_joined =
      let old = (server.stored h).status.conditions in
      let c = check_kube_api_server_status number_text error_text livez healthz in
      let (type, _, _) = check_kube_api_server_status_lem number_text error_text livez healthz in
      let other : c.type ≢ joined = λ p. absurd (differ (sym type ∙ p)) in
      ap (λ cs. m.is_status_condition_true cs joined) has
      ∙ cc (
        k.is_true-find (m.set_status_condition old c) joined,
        k.find-set_other old c joined other,
        k.is_true-find old joined,
        has_joined,
      )

  -- The claims are those that are exposed, and the conditions those that the health check makes.
  abbrev pub HasBoth : List ClusterClaim → Answer → Answer → Trace → Trace → Type 0
  HasBoth claims livez healthz h h' =
      ((server.stored h').status.cluster_claims ≡ exposed reserved_names max claims)
      × ((server.stored h').status.conditions
          ≡ m.set_status_condition (server.stored h).status.conditions
              (check_kube_api_server_status number_text error_text livez healthz))

  -- A run for the claims of a joined cluster and a health check both succeed in either order, and in
  -- both orders the cluster on the server then has the exposed claims and the conditions with that of
  -- the health check: neither undoes what the other wrote. The listed claims stay
  -- the same, and the server refuses nothing.
  pub either_order :
      (claims : List ClusterClaim) (livez healthz : Answer) (h : Trace)
      → ((g : Trace) → claim_lister g ≡ ok claims)
      → HasJoined h
      → let exposed_first = check_health livez healthz (expose h).1 in
        let checked_first = expose (check_health livez healthz h).1 in
        ((expose h).0 ≡ ok tt)
        × (exposed_first.0 ≡ ok tt)
        × HasBoth claims livez healthz h exposed_first.1
        × ((check_health livez healthz h).0 ≡ ok tt)
        × (checked_first.0 ≡ ok tt)
        × HasBoth claims livez healthz h checked_first.1
  either_order claims livez healthz h listed has_joined =
      let conditions : ManagedClusterStatus → List Condition = λ s. s.conditions in
      let claims_of : ManagedClusterStatus → List ClusterClaim = λ s. s.cluster_claims in
      let h₁ = (expose h).1 in
      let h₂ = (check_health livez healthz h).1 in
      let (fine₁, claims₁) = expose_field claims_of deep_claims claims h (listed h) has_joined in
      let (_, conditions₁) = expose_field conditions deep claims h (listed h) has_joined in
      let (fine₂, claims₂) = check_field claims_of deep_claims livez healthz h in
      let (_, conditions₂) = check_field conditions deep livez healthz h in
      let still = still-HasJoined h h₂ livez healthz conditions₂ has_joined in
      let (fine₃, claims₃) = check_field claims_of deep_claims livez healthz h₁ in
      let (_, conditions₃) = check_field conditions deep livez healthz h₁ in
      let (fine₄, claims₄) = expose_field claims_of deep_claims claims h₂ (listed h₂) still in
      let (_, conditions₄) = expose_field conditions deep claims h₂ (listed h₂) still in
      let c = check_kube_api_server_status number_text error_text livez healthz in
      (
        fine₁,
        fine₃,
        (claims₃ ∙ claims₁, conditions₃ ∙ ap (λ cs. m.set_status_condition cs c) conditions₁),
        fine₂,
        fine₄,
        (claims₄, conditions₄ ∙ conditions₂),
      )
