-- ===== src/Spoke/Lease.antt =====
-- pkg/spoke/managedcluster/lease_controller.go: the routine that renews the lease of the cluster on
-- the hub. `sync` starts and stops it; a round of it is `update`. The lock is left out, since one
-- worker calls `sync`.
pub mod Routine
use ocm_registration.Base.{
  ℕ, String, Bool, true, false, List, [], ◌∷◌, Option, none, some, ◌==◌, nat_eq, if◌then◌else◌, not,
}
use ocm_registration.Kube.{
  Err, wrapped, Result, ok, err, Call, get_lease, update_lease, event, Trace, Exec, pure, request,
  read, ◌>>=◌, ◌>>◌, Machinery, ManagedCluster, Lease, ClusterApi, LeaseApi,
}
use ocm_registration.Hub.ManagedCluster.{hub_accepted}

abbrev pub lease_name : String
lease_name = "managed-cluster-lease"

-- The fields that the controller writes. `routine` stands for `leaseUpdater.cancel`: the period of
-- the routine that runs, `none` when the field is nil. A period is an int32 number of seconds.
pub record State : Type 0 where
  pub last_lease_duration_seconds : ℕ
  pub routine : Option ℕ

-- The state of a new controller.
abbrev pub initial : State
initial = record { last_lease_duration_seconds = 0; routine = none }

unfoldable pub start : ℕ → State → Trace → State × Trace
start lease_duration s h =
    (record s { routine = some lease_duration }, event "ManagedClusterLeaseUpdateStarted" ∷ h)

unfoldable stop : State → Trace → State × Trace
stop s h = elim s.routine [
  | none ↦ (s, h)
  | some _ ↦ (record s { routine = none }, event "ManagedClusterLeaseUpdateStoped" ∷ h)
]

abbrev pub observed_duration : ManagedCluster → ℕ
observed_duration cluster =
    if cluster.lease_duration_seconds == 0 then 60 else cluster.lease_duration_seconds

module _ (m : Machinery) (api : ClusterApi) (cluster_name : String) where
  abbrev restart : ℕ → State → Trace → State × Trace
  restart observed s h =
      let (s', h') = stop (record s { last_lease_duration_seconds = observed }) h in
      start observed s' h'

  -- An error and an unaccepted cluster both stop the routine.
  abbrev sync_with : Result ManagedCluster → State → Trace → Result (Unit {0}) × State × Trace
  sync_with (err e) s h =
      let (s', h') = stop s h in (err (wrapped "unable to get managed cluster" e), s', h')
  sync_with (ok cluster) s h =
      let (stopped, h₁) = stop s h in
      let (started, h₂) = restart (observed_duration cluster) s h in
      if not (m.is_status_condition_true cluster.status.conditions hub_accepted)
      then (ok tt, stopped, h₁)
      else if s.last_lease_duration_seconds == observed_duration cluster
      then (ok tt, s, h)
      else (ok tt, started, h₂)

  unfoldable pub sync : State → Trace → Result (Unit {0}) × State × Trace
  unfolding start stop
  sync s h = sync_with (api.lister_get h cluster_name) s h

-- One round of the routine at the time `now`. Its errors are only logged.
module _ (leases : LeaseApi) (cluster_name : String) where
  unfoldable pub update : ℕ → Exec (Unit {0})
  update now = do
    lease ← request (get_lease cluster_name lease_name) (λ h. leases.get h cluster_name lease_name)
    let renewed = record lease { renew_time = now }
    request (update_lease renewed) (λ h. leases.update h renewed)
    pure tt
