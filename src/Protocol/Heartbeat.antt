-- ===== src/Protocol/Heartbeat.antt =====
-- The agent renews its lease, and the hub looks at it.
use ocm_registration.Base.{
  ℕ, String, Bool, true, false, ◌∷◌, ◌≡◌, ◌∙◌, ap, inl, inr, Bool-cases, arith, subst, ◌<◌, ◌≤◌,
  ◌+◌, ◌*◌,
}
use ocm_registration.Kube.{
  ok, Exec, Trace, Call, At, get_lease, create_lease, update_lease, update_cluster_status,
  Machinery, ClusterApi, LeaseApi, Lease, ManagedCluster, ManagedClusterStatus,
}
use ocm_registration.Hub.ManagedCluster.{hub_accepted}
use ocm_registration.Hub.Lease.{lease_name, lease_duration, is_fresh, check_cluster}
use ocm_registration.Hub.Lease.Grace.{is_fresh_iff}
use ocm_registration.Spoke.Lease.{update}

abbrev pub writes_lease : Call → Bool
writes_lease (create_lease l) = true
writes_lease (update_lease l) = true
writes_lease _ = false

-- The server has the lease of the cluster, answers and caches what it has, and refuses nothing.
pub record IsLeaseServer (cluster_name : String) (leases : LeaseApi) : Type 0 where
  pub stored : Trace → Lease
  pub gets : (h : Trace) → leases.get h cluster_name lease_name ≡ ok (stored h)
  pub lists : (h : Trace) → leases.lister_get h cluster_name lease_name ≡ ok (stored h)
  pub updates : (h : Trace) (l : Lease) → leases.update h l ≡ ok l
  pub stored-update : (h : Trace) (l : Lease) → stored (update_lease l ∷ h) ≡ l
  pub stored_other : (h : Trace) (c : Call) → writes_lease c ≡ false → stored (c ∷ h) ≡ stored h

abbrev pub writes_status : Call → Bool
writes_status (update_cluster_status c) = true
writes_status _ = false

other_calm :
    (updated : ManagedCluster) (c : Call) (h g : Trace)
    → writes_status c ≡ false
    → At (update_cluster_status updated) g (c ∷ h)
    → At (update_cluster_status updated) g h
other_calm updated c h g quiet (inr a) = a
other_calm updated c h g quiet (inl (is, _)) =
    let q : true ≡ false = ap writes_status is ∙ quiet in absurd (ground (arith, q))

module _ (m : Machinery) (clusters : ClusterApi) (leases : LeaseApi)
    (retry : Exec (ManagedClusterStatus × Bool) → Exec (ManagedClusterStatus × Bool))
    (name : String) (server : IsLeaseServer name leases) where
  round_trace :
      (now : ℕ) (h : Trace)
      → (update leases name now h).1
        ≡ update_lease (record (server.stored h) { renew_time = now })
          ∷ get_lease name lease_name
          ∷ h
  unfolding update
  round_trace now h = ground (arith, server.gets h)

  round_renews :
      (now : ℕ) (h : Trace) → (server.stored (update leases name now h).1).renew_time ≡ now
  round_renews now h =
      ap (λ (g : Trace). (server.stored g).renew_time) (round_trace now h)
      ∙ ap (λ (l : Lease). l.renew_time)
          (server.stored-update (get_lease name lease_name ∷ h)
            (record (server.stored h) { renew_time = now }))

  round_calm :
      (updated : ManagedCluster) (now : ℕ) (h g : Trace)
      → At (update_cluster_status updated) g (update leases name now h).1
      → At (update_cluster_status updated) g h
  unfolding update
  round_calm updated now h g a = ground (arith, server.gets h, a)

  check_leaves :
      (now : ℕ) (cluster : ManagedCluster) (h : Trace)
      → cluster.name ≡ name
      → is_fresh now (server.stored h).renew_time cluster ≡ true
      → (check_cluster m clusters leases retry now cluster h).1 ≡ h
  unfolding check_cluster
  check_leaves now cluster h named fresh =
      let found : leases.lister_get h cluster.name lease_name ≡ ok (server.stored h) =
        ap (λ n. leases.lister_get h n lease_name) named ∙ server.lists h in
      elim (Bool-cases (m.is_status_condition_true cluster.status.conditions hub_accepted)) [
        | inl accepted ↦ ground (arith, accepted, found, fresh)
        | inr unaccepted ↦ ground (arith, unaccepted)
      ]

  module _ (start : Trace) where
    -- Rounds of the agent, checks of the hub and other calls in any order, since a first round. The
    -- number is the time of the last round, after which each check comes in less than five durations
    -- of the cluster that the hub listed, one of at most 429496729 seconds.
    pub data Alive : ℕ → Trace → Type 0 where
      begin : (now : ℕ) → Alive now (update leases name now start).1
      renew : (last now : ℕ) (h : Trace) → Alive last h → Alive now (update leases name now h).1
      other :
          (last : ℕ) (h : Trace) (c : Call)
          → Alive last h
          → writes_lease c ≡ false
          → writes_status c ≡ false
          → Alive last (c ∷ h)
      check :
          (last now : ℕ) (cluster : ManagedCluster) (h : Trace)
          → Alive last h
          → cluster.name ≡ name
          → cluster.lease_duration_seconds ≤ 429496729
          → now < last + 5 * lease_duration cluster
          → Alive last (check_cluster m clusters leases retry now cluster h).1

    -- A cluster whose agent keeps renewing its lease stays as it is: through rounds of the agent,
    -- checks by the hub's lease controller and any other calls that write neither the lease nor a
    -- status, in any order, the lease on the server has the time of the last round, and no status
    -- was written since the start.
    pub Alive-no_status :
        (last : ℕ) (h : Trace)
        → Alive last h
        → ((server.stored h).renew_time ≡ last)
          × ((updated : ManagedCluster) (g : Trace)
              → At (update_cluster_status updated) g h
              → At (update_cluster_status updated) g start)
    Alive-no_status _ _ (begin now) =
        (round_renews now start, λ updated g a. round_calm updated now start g a)
    Alive-no_status _ _ (renew last now h alive) =
        let (_, calm) = Alive-no_status last h alive in
        (round_renews now h, λ updated g a. calm updated g (round_calm updated now h g a))
    Alive-no_status _ _ (other last h c alive keeps quiet) =
        let (time, calm) = Alive-no_status last h alive in
        (
          ap (λ (l : Lease). l.renew_time) (server.stored_other h c keeps) ∙ time,
          λ updated g a. calm updated g (other_calm updated c h g quiet a),
        )
    Alive-no_status _ _ (check last now cluster h alive named small soon) =
        let (time, calm) = Alive-no_status last h alive in
        let fresh : is_fresh now (server.stored h).renew_time cluster ≡ true =
          ground (arith, is_fresh_iff now last cluster small, soon, time) in
        let same = check_leaves now cluster h named fresh in
        (
          ap (λ (g : Trace). (server.stored g).renew_time) same ∙ time,
          λ updated g a. calm updated g (subst (At (update_cluster_status updated) g) same a),
        )
