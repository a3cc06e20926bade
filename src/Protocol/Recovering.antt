-- ===== src/Protocol/Recovering.antt =====
-- The agent reports whether the API server of its cluster is healthy, on the hub.
use ocm_registration.Base.{
  ℕ, String, Bool, true, false, [], ◌∷◌, some, ◌≡◌, ◌≢◌, refl, ◌∙◌, sym, ap, subst, ◌⊎◌, ◌↔◌,
}
use ocm_registration.Kube.{
  Err, ok, Exec, Trace, event, Machinery, IsMachinery, ClusterApi, Condition, condition_true,
  ManagedCluster, ManagedClusterStatus,
}
use ocm_registration.Helpers.Status.{
  IsRetry, update_managed_cluster_condition_fn, apply_updates, update_managed_cluster_status,
}
use ocm_registration.Hub.Lease.{available}
use ocm_registration.Spoke.HealthCheck.{Answer, check_kube_api_server_status, note_updated, sync}
use ocm_registration.Spoke.HealthCheck.Health.{check_kube_api_server_status_lem}
use ocm_registration.Protocol.Server.{IsServer, Compares, ComparesConditions, update_field}

-- /livez answers 200, or it answers 404 or 403 and /healthz answers 200.
abbrev pub IsHealthy : Answer → Answer → Type 0
IsHealthy livez healthz =
    (livez.status_code ≡ 200)
    ⊎ (((livez.status_code ≡ 404) ⊎ (livez.status_code ≡ 403)) × (healthz.status_code ≡ 200))

module _ (m : Machinery) (k : IsMachinery m) (deep : ComparesConditions m) (name : String)
    (clusters : ClusterApi) (server : IsServer name clusters)
    {retry : Exec (ManagedClusterStatus × Bool) → Exec (ManagedClusterStatus × Bool)}
    (r : IsRetry retry) (number_text : ℕ → String) (error_text : Err → String) where
  -- The cluster counts as available exactly if its API server is healthy, and its conditions of other
  -- types are as they were.
  abbrev pub Reports : Answer → Answer → ManagedCluster → ManagedCluster → Type 0
  Reports livez healthz before after =
      ((d : Condition) × (m.find_status_condition after.status.conditions available ≡ some d)
        × ((d.status ≡ condition_true) ↔ IsHealthy livez healthz))
      × ((t : String)
          → available ≢ t
          → m.find_status_condition after.status.conditions t
            ≡ m.find_status_condition before.status.conditions t)

  set-Reports :
      (livez healthz : Answer) (before after : ManagedCluster)
      → after.status.conditions
        ≡ m.set_status_condition before.status.conditions
            (check_kube_api_server_status number_text error_text livez healthz)
      → Reports livez healthz before after
  set-Reports livez healthz before after has =
      let c = check_kube_api_server_status number_text error_text livez healthz in
      let (type, healthy, _) =
        check_kube_api_server_status_lem number_text error_text livez healthz in
      let (d, found, same) = k.find-set before.status.conditions c in
      (
        (
          d,
          ap (λ cs. m.find_status_condition cs available) has
              ∙ ap
                  (λ t.
                    m.find_status_condition (m.set_status_condition before.status.conditions c) t)
                  (sym type)
              ∙ found,
          subst (λ s. (s ≡ condition_true) ↔ IsHealthy livez healthz) (sym same.status) healthy,
        ),
        λ t other.
            ap (λ cs. m.find_status_condition cs t) has
            ∙ k.find-set_other before.status.conditions c t (λ p. other (sym type ∙ p)),
      )

  noted :
      (s : ManagedClusterStatus × Bool) (h : Trace)
      → ((note_updated m clusters retry number_text error_text name (ok s) h).0 ≡ ok tt)
        × (server.stored (note_updated m clusters retry number_text error_text name (ok s) h).1
            ≡ server.stored h)
  noted (status, false) h = (refl, refl)
  noted (status, true) h =
      (refl, server.stored_other h (event "ManagedClusterAvailableConditionUpdated") refl)

  -- The status that a health check makes.
  abbrev pub checked_status : Answer → Answer → ManagedClusterStatus → ManagedClusterStatus
  checked_status livez healthz old = record old {
    conditions =
        m.set_status_condition old.conditions
          (check_kube_api_server_status number_text error_text livez healthz);
  }

  -- A health check succeeds, and a part of the status that `DeepEqual` compares is then as it was
  -- made.
  pub sync_field :
      {A : Type 0} (field : ManagedClusterStatus → A)
      → Compares m field
      → (livez healthz : Answer) (h : Trace)
      → let out = sync m clusters retry number_text error_text name livez healthz h in
        (out.0 ≡ ok tt)
        × (field (server.stored out.1).status
            ≡ field (checked_status livez healthz (server.stored h).status))
  unfolding sync update_managed_cluster_condition_fn apply_updates
  sync_field field compares livez healthz h =
      let c = check_kube_api_server_status number_text error_text livez healthz in
      let fs = update_managed_cluster_condition_fn m c ∷ [] in
      let (s, done, has) =
        update_field m deep name clusters server r field compares fs
          (checked_status livez healthz (server.stored h).status) h refl in
      let (fine, kept) = noted s (update_managed_cluster_status m clusters retry name fs h).1 in
      rw (server.lists h, done) (fine, ap (λ (x : ManagedCluster). field x.status) kept ∙ has)

  -- A health check of the agent succeeds, and the cluster on the server then counts as available
  -- exactly if its API server is healthy, also where the hub had set it to unknown; its conditions of
  -- other types stay. The server refuses nothing.
  pub sync-Reports :
      (livez healthz : Answer) (h : Trace)
      → let out = sync m clusters retry number_text error_text name livez healthz h in
        (out.0 ≡ ok tt) × Reports livez healthz (server.stored h) (server.stored out.1)
  sync-Reports livez healthz h =
      let (fine, has) = sync_field (λ s. s.conditions) deep livez healthz h in
      let out = sync m clusters retry number_text error_text name livez healthz h in
      (fine, set-Reports livez healthz (server.stored h) (server.stored out.1) has)
