-- ===== src/Spoke/Lease/Routine.antt =====
-- When the lease routine runs.
use ocm_registration.Base.{
  ℕ, String, true, false, List, [], ◌∷◌, none, some, ◌≡◌, ◌≢◌, ◌⊎◌, inl, inr, ◌∙◌, sym, subst,
  arith, nat_eq, All, Bool-cases,
}
use ocm_registration.Kube.{Err, ok, err, Result-cases, Trace, Machinery, ManagedCluster, ClusterApi}
use ocm_registration.Hub.ManagedCluster.{hub_accepted}
use ocm_registration.Spoke.Lease.{State, observed_duration, sync}

-- A routine that runs has the period that is remembered.
abbrev pub WellFormed : State → Type 0
WellFormed s = (period : ℕ) → s.routine ≡ some period → period ≡ s.last_lease_duration_seconds

module _ (m : Machinery) (api : ClusterApi) (cluster_name : String) where
  -- A sync keeps the period of the running routine the one that is remembered; it leaves no routine
  -- running when the cluster cannot be read or is not accepted; and for an accepted cluster it
  -- remembers the observed duration, and a new one starts the routine.
  pub sync-routine :
      (s : State) (h : Trace)
      → WellFormed s
      → let (r, s', h') = sync m api cluster_name s h in
        WellFormed s'
        × ((e : Err) → api.lister_get h cluster_name ≡ err e → s'.routine ≡ none)
        × ((cluster : ManagedCluster)
            → api.lister_get h cluster_name ≡ ok cluster
            → ((m.is_status_condition_true cluster.status.conditions hub_accepted ≡ false)
                × (s'.routine ≡ none))
              ⊎ ((m.is_status_condition_true cluster.status.conditions hub_accepted ≡ true)
                  × (s'.last_lease_duration_seconds ≡ observed_duration cluster)
                  × ((s.last_lease_duration_seconds ≢ observed_duration cluster)
                      → s'.routine ≡ some (observed_duration cluster))))
  unfolding sync
  sync-routine s h wf = ground (arith, wf)

  -- The state after syncs with the given traces before them.
  abbrev pub after_all : State → List Trace → State
  after_all s [] = s
  after_all s (h ∷ hs) = after_all (sync m api cluster_name s h).1 hs

  -- If the sync finds the cluster accepted, it is with the duration.
  abbrev pub HasDuration : ℕ → Trace → Type 0
  HasDuration d h =
      (cluster : ManagedCluster)
      → api.lister_get h cluster_name ≡ ok cluster
      → m.is_status_condition_true cluster.status.conditions hub_accepted ≡ true
      → observed_duration cluster ≡ d

  stopped_step :
      (s : State) (h : Trace)
      → s.routine ≡ none
      → HasDuration s.last_lease_duration_seconds h
      → let s' = (sync m api cluster_name s h).1 in
        (s'.routine ≡ none) × (s'.last_lease_duration_seconds ≡ s.last_lease_duration_seconds)
  unfolding sync
  stopped_step s h stopped same = elim (Result-cases (api.lister_get h cluster_name)) [
    | inr (e, missing) ↦ ground (arith, missing, stopped)
    | inl (cluster, found) ↦
        elim (Bool-cases (m.is_status_condition_true cluster.status.conditions hub_accepted)) [
          | inl is ↦ ground (arith, found, is, stopped, same cluster found is)
          | inr refused ↦ ground (arith, found, refused, stopped)
        ]
  ]

  stopped_on :
      (d : ℕ) (s : State) (hs : List Trace)
      → s.routine ≡ none
      → s.last_lease_duration_seconds ≡ d
      → All (HasDuration d) hs
      → ((after_all s hs).routine ≡ none) × ((after_all s hs).last_lease_duration_seconds ≡ d)
  stopped_on d s [] stopped last has = (stopped, last)
  stopped_on d s (h ∷ hs) stopped last (has, rest) =
      let (stopped', last') =
        stopped_step s h stopped (subst (λ n. HasDuration n h) (sym last) has) in
      stopped_on d (sync m api cluster_name s h).1 hs stopped' (last' ∙ last) rest

  refused_step :
      (s : State) (denied : ManagedCluster) (h : Trace)
      → api.lister_get h cluster_name ≡ ok denied
      → m.is_status_condition_true denied.status.conditions hub_accepted ≡ false
      → let s' = (sync m api cluster_name s h).1 in
        (s'.routine ≡ none) × (s'.last_lease_duration_seconds ≡ s.last_lease_duration_seconds)
  unfolding sync
  refused_step s denied h found refused = ground (arith, found, refused)

  -- A sync that finds the cluster not accepted stops the routine, and it stays stopped through any
  -- number of later syncs, each of which fails to read the cluster, or finds it not accepted, or
  -- accepted with the duration that is remembered: no lease is renewed until the duration changes.
  pub sync-stays_stopped :
      (s : State) (denied : ManagedCluster) (h : Trace) (hs : List Trace)
      → api.lister_get h cluster_name ≡ ok denied
      → m.is_status_condition_true denied.status.conditions hub_accepted ≡ false
      → All (HasDuration s.last_lease_duration_seconds) hs
      → let s' = after_all s (h ∷ hs) in
        (s'.routine ≡ none) × (s'.last_lease_duration_seconds ≡ s.last_lease_duration_seconds)
  sync-stays_stopped s denied h hs found refused same =
      let (stopped, last) = refused_step s denied h found refused in
      stopped_on s.last_lease_duration_seconds (sync m api cluster_name s h).1 hs stopped last same
