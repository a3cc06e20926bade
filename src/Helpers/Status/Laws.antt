-- ===== src/Helpers/Status/Laws.antt =====
-- What a retried status update does: what it sends, and when it sends nothing.
use ocm_registration.Base.{
  String, Bool, true, false, List, [], ◌∷◌, some, ◌≡◌, refl, ◌⊎◌, inl, inr, arith, Bool-cases,
  subst, sym,
}
use ocm_registration.Kube.{
  Result, ok, err, Exec, Trace, Call, At, Only, Grows, event, Result-cases, Machinery, IsMachinery,
  SameCondition, ClusterApi, Condition, ManagedCluster, ManagedClusterStatus, get_cluster,
  update_cluster_status,
}
use ocm_registration.Helpers.Status.Retries.{
  Sends, attempts-Only, attempts-Grows, attempts-Sends, attempts_last, attempts_done,
}
use ocm_registration.Helpers.Status.{
  UpdateFunc, apply_updates, IsRetry, attempt_cluster_status, update_managed_cluster_status,
  update_managed_cluster_condition_fn,
}

-- A status that is written is what the functions make of some status.
abbrev pub Written : List (UpdateFunc ManagedClusterStatus) → Call → Type 0
Written fs (update_cluster_status c) =
    (old : ManagedClusterStatus) × (apply_updates fs old ≡ ok c.status)
Written fs _ = Unit {0}

abbrev is_status_call : Call → Bool
is_status_call (get_cluster name) = true
is_status_call (update_cluster_status c) = true
is_status_call (event reason) = true
is_status_call _ = false

module _ (m : Machinery) (api : ClusterApi) where
  -- How a successful update ended: with a write of the status that the functions made of the one
  -- just read, or with no write since they changed nothing.
  abbrev pub Ended :
      String
      → List (UpdateFunc ManagedClusterStatus)
      → Result (ManagedClusterStatus × Bool) × Trace
      → Type 0
  Ended name fs (ok (s, true), h) =
      (before : Trace) × (c c' : ManagedCluster) × (new : ManagedClusterStatus) × (api.get before
          name
        ≡ ok c)
      × (apply_updates fs c.status ≡ ok new)
      × (m.same_cluster_status c.status new ≡ false)
      × (api.update_status (get_cluster name ∷ before) (record c { status = new }) ≡ ok c')
      × (h ≡ update_cluster_status (record c { status = new }) ∷ get_cluster name ∷ before)
      × (s ≡ c'.status)
  Ended name fs (ok (s, false), h) =
      (before : Trace) × (c : ManagedCluster) × (api.get before name ≡ ok c)
      × (apply_updates fs c.status ≡ ok s)
      × (m.same_cluster_status c.status s ≡ true)
      × (h ≡ get_cluster name ∷ before)
  Ended name fs (err e, h) = Unit {0}

  attempt_cluster_status-Ended :
      (name : String) (fs : List (UpdateFunc ManagedClusterStatus)) (h : Trace)
      → Ended name fs (attempt_cluster_status m api name fs h)
  unfolding attempt_cluster_status
  attempt_cluster_status-Ended name fs h = elim (Result-cases (api.get h name)) [
    | inr (e, gone) ↦ rw gone tt
    | inl (c, got) ↦ elim (Result-cases (apply_updates fs c.status)) [
      | inr (e, bad) ↦ rw (got, bad) tt
      | inl (new, good) ↦ elim (Bool-cases (m.same_cluster_status c.status new)) [
        | inl same ↦ rw (got, good, same) (h, c, got, good, same, refl)
        | inr differ ↦
            let sent : ManagedCluster = record c { status = new } in
            elim (Result-cases (api.update_status (get_cluster name ∷ h) sent)) [
              | inr (e, refused) ↦ rw (got, good, differ, refused) tt
              | inl (c', stored) ↦
                  rw (got, good, differ, stored)
                    (h, c, c', new, got, good, differ, stored, refl, refl)
            ]
      ]
    ]
  ]

  attempt_cluster_status-Only :
      (name : String) (fs : List (UpdateFunc ManagedClusterStatus)) (h : Trace)
      → Only is_status_call h (attempt_cluster_status m api name fs h).1
  unfolding attempt_cluster_status
  attempt_cluster_status-Only name fs h c g p a = ground arith

  attempt_cluster_status-Grows :
      (name : String) (fs : List (UpdateFunc ManagedClusterStatus)) (h : Trace)
      → Grows h (attempt_cluster_status m api name fs h).1
  unfolding attempt_cluster_status
  attempt_cluster_status-Grows name fs h c g a = ground arith

  attempt_cluster_status_trace :
      (name : String) (fs : List (UpdateFunc ManagedClusterStatus)) (h : Trace)
      → ((attempt_cluster_status m api name fs h).1 ≡ get_cluster name ∷ h)
        ⊎ ((c : ManagedCluster) × (new : ManagedClusterStatus) × (apply_updates fs c.status
              ≡ ok new)
            × ((attempt_cluster_status m api name fs h).1
                ≡ update_cluster_status (record c { status = new }) ∷ get_cluster name ∷ h))
  unfolding attempt_cluster_status
  attempt_cluster_status_trace name fs h = elim (Result-cases (api.get h name)) [
    | inr (e, gone) ↦ inl (rw gone refl)
    | inl (c, got) ↦ elim (Result-cases (apply_updates fs c.status)) [
      | inr (e, bad) ↦ inl (rw (got, bad) refl)
      | inl (new, good) ↦ elim (Bool-cases (m.same_cluster_status c.status new)) [
        | inl same ↦ inl (rw (got, good, same) refl)
        | inr differ ↦ inr (c, new, good, ground arith)
      ]
    ]
  ]

  attempt_cluster_status-Sends :
      (name : String) (fs : List (UpdateFunc ManagedClusterStatus)) (h : Trace)
      → Sends (Written fs) h (attempt_cluster_status m api name fs h).1
  attempt_cluster_status-Sends name fs h c g a = elim (attempt_cluster_status_trace name fs h) [
    | inl read_only ↦ elim (subst (At c g) read_only a) [
      | inl (e, _) ↦ inr (subst (Written fs) (sym e) tt)
      | inr old ↦ inl old
    ]
    | inr (x, new, good, both) ↦ elim (subst (At c g) both a) [
      | inl (e, _) ↦ inr (subst (Written fs) (sym e) (x.status, good))
      | inr (inl (e, _)) ↦ inr (subst (Written fs) (sym e) tt)
      | inr (inr old) ↦ inl old
    ]
  ]

  attempt_cluster_condition-settled :
      (k : IsMachinery m) (name : String) (c : Condition) (h : Trace) {cluster : ManagedCluster}
      {d : Condition}
      → api.get h name ≡ ok cluster
      → m.find_status_condition cluster.status.conditions c.type ≡ some d
      → SameCondition c d
      → attempt_cluster_status m api name (update_managed_cluster_condition_fn m c ∷ []) h
        ≡ (ok (cluster.status, false), get_cluster name ∷ h)
  unfolding attempt_cluster_status update_managed_cluster_condition_fn
  attempt_cluster_condition-settled k name c h {cluster} {d} got found same =
      rw (got, k.set-settled cluster.status.conditions c d found same, k.same_cluster-refl) refl

  module _ {retry : Exec (ManagedClusterStatus × Bool) → Exec (ManagedClusterStatus × Bool)}
      (r : IsRetry retry) (name : String) where
    -- Every successful update ends with a read of the cluster, then either nothing more, when the
    -- functions leave the status as it was read, or one write of exactly what they made of it.
    pub update_managed_cluster_status-Ended :
        (fs : List (UpdateFunc ManagedClusterStatus)) (h : Trace)
        → Ended name fs (update_managed_cluster_status m api retry name fs h)
    unfolding update_managed_cluster_status
    update_managed_cluster_status-Ended fs h =
        let (g, last) = attempts_last r.more (attempt_cluster_status m api name fs) h in
        rw (r.retry_lem, last) (attempt_cluster_status-Ended name fs g)

    pub update_managed_cluster_status-Only :
        (fs : List (UpdateFunc ManagedClusterStatus)) (h : Trace)
        → Only is_status_call h (update_managed_cluster_status m api retry name fs h).1
    unfolding update_managed_cluster_status
    update_managed_cluster_status-Only fs h =
        rw r.retry_lem
          (attempts-Only is_status_call r.more _ (attempt_cluster_status-Only name fs) h)

    pub update_managed_cluster_status-Grows :
        (fs : List (UpdateFunc ManagedClusterStatus)) (h : Trace)
        → Grows h (update_managed_cluster_status m api retry name fs h).1
    unfolding update_managed_cluster_status
    update_managed_cluster_status-Grows fs h =
        rw r.retry_lem (attempts-Grows r.more _ (attempt_cluster_status-Grows name fs) h)

    pub update_managed_cluster_status-Sends :
        (fs : List (UpdateFunc ManagedClusterStatus)) (h : Trace)
        → Sends (Written fs) h (update_managed_cluster_status m api retry name fs h).1
    unfolding update_managed_cluster_status
    update_managed_cluster_status-Sends fs h =
        rw r.retry_lem
          (attempts-Sends (Written fs) r.more _ (attempt_cluster_status-Sends name fs) h)

    -- A condition that the cluster has already is not written again.
    pub update_managed_cluster_condition_settled :
        (k : IsMachinery m) (c : Condition) (h : Trace) {cluster : ManagedCluster} {d : Condition}
        → api.get h name ≡ ok cluster
        → m.find_status_condition cluster.status.conditions c.type ≡ some d
        → SameCondition c d
        → update_managed_cluster_status m api retry name
            (update_managed_cluster_condition_fn m c ∷ [])
            h
          ≡ (ok (cluster.status, false), get_cluster name ∷ h)
    unfolding update_managed_cluster_status update_managed_cluster_condition_fn
    update_managed_cluster_condition_settled k c h {cluster} {d} got found same =
        rw r.retry_lem (
          attempts_done r.more _ h _ _
            (attempt_cluster_condition-settled k name c h got found same))
