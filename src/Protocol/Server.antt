-- ===== src/Protocol/Server.antt =====
-- An API server with one cluster, and the retried status update on it.
use ocm_registration.Base.{
  String, Bool, true, false, List, ◌∷◌, ◌≡◌, refl, ◌∙◌, inl, inr, Bool-cases,
}
use ocm_registration.Kube.{
  ok, Exec, Trace, Call, get_cluster, create_cluster, update_cluster, update_cluster_status,
  Machinery, ClusterApi, Condition, ManagedCluster, ManagedClusterStatus,
}
use ocm_registration.Helpers.Status.{
  UpdateFunc, apply_updates, IsRetry, attempt_cluster_status, update_managed_cluster_status,
}
use ocm_registration.Helpers.Status.Retries.{attempts_done}

abbrev pub writes_cluster : Call → Bool
writes_cluster (create_cluster c) = true
writes_cluster (update_cluster c) = true
writes_cluster (update_cluster_status c) = true
writes_cluster _ = false

-- The server has the cluster, answers and caches what it has, and refuses nothing. A write of the
-- cluster leaves its status, and a write of the status leaves all else.
pub record IsServer (name : String) (api : ClusterApi) : Type 0 where
  pub stored : Trace → ManagedCluster
  pub gets : (h : Trace) → api.get h name ≡ ok (stored h)
  pub lists : (h : Trace) → api.lister_get h name ≡ ok (stored h)
  pub updates : (h : Trace) (c : ManagedCluster) → api.update h c ≡ ok c
  pub update_status : (h : Trace) (c : ManagedCluster) → api.update_status h c ≡ ok c
  pub stored-update :
      (h : Trace) (c : ManagedCluster)
      → stored (update_cluster c ∷ h) ≡ record c { status = (stored h).status }
  pub stored-update_status :
      (h : Trace) (c : ManagedCluster)
      → stored (update_cluster_status c ∷ h) ≡ record (stored h) { status = c.status }
  pub stored_other : (h : Trace) (c : Call) → writes_cluster c ≡ false → stored (c ∷ h) ≡ stored h

-- `DeepEqual` of two statuses is that of a part of them, too.
abbrev pub Compares : {A : Type 0} → Machinery → (ManagedClusterStatus → A) → Type 0
Compares m field =
    (a b : ManagedClusterStatus) → m.same_cluster_status a b ≡ true → field a ≡ field b

abbrev pub ComparesConditions : Machinery → Type 0
ComparesConditions m = Compares m (λ s. s.conditions)

module _ (m : Machinery) (deep : ComparesConditions m) (name : String) (api : ClusterApi)
    (server : IsServer name api) where
  -- The status has the conditions, and nothing else of the cluster changed.
  abbrev pub HasConditions : List Condition → Trace → Trace → Type 0
  HasConditions conditions h h' =
      ((server.stored h').status.conditions ≡ conditions)
      × ((server.stored h').finalizers ≡ (server.stored h).finalizers)
      × ((server.stored h').deleting ≡ (server.stored h).deleting)
      × ((server.stored h').hub_accepts_client ≡ (server.stored h).hub_accepts_client)

  abbrev attempt : List (UpdateFunc ManagedClusterStatus) → Exec (ManagedClusterStatus × Bool)
  attempt = attempt_cluster_status m api name

  attempt_same :
      (fs : List (UpdateFunc ManagedClusterStatus)) (new : ManagedClusterStatus) (h : Trace)
      → apply_updates fs (server.stored h).status ≡ ok new
      → m.same_cluster_status (server.stored h).status new ≡ true
      → attempt fs h ≡ (ok (new, false), get_cluster name ∷ h)
  unfolding attempt_cluster_status
  attempt_same fs new h good same = rw (server.gets h, good, same) refl

  attempt_differs :
      (fs : List (UpdateFunc ManagedClusterStatus)) (new : ManagedClusterStatus) (h : Trace)
      → apply_updates fs (server.stored h).status ≡ ok new
      → m.same_cluster_status (server.stored h).status new ≡ false
      → let sent : ManagedCluster = record (server.stored h) { status = new } in
        attempt fs h ≡ (ok (new, true), update_cluster_status sent ∷ get_cluster name ∷ h)
  unfolding attempt_cluster_status
  attempt_differs fs new h good differ =
      let sent : ManagedCluster = record (server.stored h) { status = new } in
      let answer = server.update_status (get_cluster name ∷ h) sent in
      rw (server.gets h, good, differ, answer) refl

  same-HasConditions :
      (new : ManagedClusterStatus) (h : Trace)
      → m.same_cluster_status (server.stored h).status new ≡ true
      → HasConditions new.conditions h (get_cluster name ∷ h)
  same-HasConditions new h same =
      rw (server.stored_other h (get_cluster name) refl)
        (deep (server.stored h).status new same, refl, refl, refl)

  written-HasConditions :
      (new : ManagedClusterStatus) (h : Trace)
      → HasConditions new.conditions h
          (update_cluster_status (record (server.stored h) { status = new }) ∷ get_cluster name ∷ h)
  written-HasConditions new h =
      rw
        (
          server.stored-update_status (get_cluster name ∷ h)
              (record (server.stored h) { status = new }),
          server.stored_other h (get_cluster name) refl,
        )
        (refl, refl, refl, refl)

  -- A status update that makes the status that the cluster has writes nothing.
  pub update_same :
      {retry : Exec (ManagedClusterStatus × Bool) → Exec (ManagedClusterStatus × Bool)}
      (r : IsRetry retry) (fs : List (UpdateFunc ManagedClusterStatus)) (new : ManagedClusterStatus)
      (h : Trace)
      → apply_updates fs (server.stored h).status ≡ ok new
      → m.same_cluster_status (server.stored h).status new ≡ true
      → update_managed_cluster_status m api retry name fs h
        ≡ (ok (new, false), get_cluster name ∷ h)
  unfolding update_managed_cluster_status
  update_same r fs new h good same =
      r.retry_lem (attempt fs) h
      ∙ attempts_done r.more (attempt fs) h _ _ (attempt_same fs new h good same)

  -- A status update succeeds, and the cluster then has the conditions that were made.
  pub update_done :
      {retry : Exec (ManagedClusterStatus × Bool) → Exec (ManagedClusterStatus × Bool)}
      (r : IsRetry retry) (fs : List (UpdateFunc ManagedClusterStatus)) (new : ManagedClusterStatus)
      (h : Trace)
      → apply_updates fs (server.stored h).status ≡ ok new
      → (s : ManagedClusterStatus × Bool) × (h' : Trace) × (update_managed_cluster_status m api
            retry name fs h
          ≡ (ok s, h'))
        × HasConditions new.conditions h h'
  unfolding update_managed_cluster_status
  update_done r fs new h good =
      elim (Bool-cases (m.same_cluster_status (server.stored h).status new)) [
        | inl same ↦ (
          (new, false),
          get_cluster name ∷ h,
          update_same r fs new h good same,
          same-HasConditions new h same,
        )
        | inr differ ↦ (
          (new, true),
          update_cluster_status (record (server.stored h) { status = new }) ∷ get_cluster name ∷ h,
          r.retry_lem (attempt fs) h
              ∙ attempts_done r.more (attempt fs) h _ _ (attempt_differs fs new h good differ),
          written-HasConditions new h,
        )
      ]

  -- A status update succeeds, and a part of the status that `DeepEqual` compares is then as it was
  -- made.
  pub update_field :
      {A : Type 0} {retry : Exec (ManagedClusterStatus × Bool) → Exec (ManagedClusterStatus × Bool)}
      (r : IsRetry retry) (field : ManagedClusterStatus → A)
      → Compares m field
      → (fs : List (UpdateFunc ManagedClusterStatus)) (new : ManagedClusterStatus) (h : Trace)
      → apply_updates fs (server.stored h).status ≡ ok new
      → let out = update_managed_cluster_status m api retry name fs h in
        (s : ManagedClusterStatus × Bool) × (out.0 ≡ ok s)
        × (field (server.stored out.1).status ≡ field new)
  unfolding update_managed_cluster_status
  update_field {A} {retry} r field compares fs new h good =
      elim (Bool-cases (m.same_cluster_status (server.stored h).status new)) [
        | inl same ↦
            rw (update_same r fs new h good same, server.stored_other h (get_cluster name) refl)
              ((new, false), refl, compares (server.stored h).status new same)
        | inr differ ↦
            let e =
              r.retry_lem (attempt fs) h
              ∙ attempts_done r.more (attempt fs) h _ _ (attempt_differs fs new h good differ) in
            rw
              (
                e,
                server.stored-update_status (get_cluster name ∷ h)
                    (record (server.stored h) { status = new }),
              )
              ((new, true), refl, refl)
      ]
