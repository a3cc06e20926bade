-- ===== src/Protocol/Lapsing.antt =====
-- The hub notices an agent that has stopped.
use ocm_registration.Base.{
  ℕ, String, Bool, true, false, List, [], ◌∷◌, some, ◌≡◌, refl, ◌∙◌, sym, ap, arith, subst, ◌<>◌,
  ◌+◌, ◌*◌, ◌≤◌,
}
use ocm_registration.Kube.{
  Result, ok, Exec, Trace, ◌>>=◌, event, Machinery, IsMachinery, ClusterApi, LeaseApi, Lease,
  Condition, condition_unknown, ManagedCluster, ManagedClusterStatus,
}
use ocm_registration.Helpers.Status.{IsRetry, update_managed_cluster_condition_fn, apply_updates}
use ocm_registration.Hub.ManagedCluster.{hub_accepted}
use ocm_registration.Hub.Lease.{
  lease_name, lease_duration, available, unknown_condition, note_unknown, set_unknown,
  check_cluster,
}
use ocm_registration.Hub.Lease.Grace.{is_fresh_iff, check_cluster-set_unknown}
use ocm_registration.Protocol.Server.{IsServer, ComparesConditions, update_done}

module _ (m : Machinery) (k : IsMachinery m) (deep : ComparesConditions m) (name : String)
    (clusters : ClusterApi) (server : IsServer name clusters) (leases : LeaseApi)
    {retry : Exec (ManagedClusterStatus × Bool) → Exec (ManagedClusterStatus × Bool)}
    (r : IsRetry retry) (now : ℕ) where
  -- It is not known whether the cluster is available.
  abbrev pub IsUnknown : Trace → Type 0
  IsUnknown h =
      (c : Condition) × (m.find_status_condition (server.stored h).status.conditions available
        ≡ some c)
      × (c.status ≡ condition_unknown)

  -- The lease with a name is in the cache, and its last renewal is five durations ago or more.
  abbrev pub HasLapsed : ManagedCluster → String → Trace → Type 0
  HasLapsed cluster lease h =
      (l : Lease) × (leases.lister_get h cluster.name lease ≡ ok l)
      × (l.renew_time + 5 * lease_duration cluster ≤ now)

  set-IsUnknown :
      (cs : List Condition) (h : Trace)
      → (server.stored h).status.conditions ≡ m.set_status_condition cs unknown_condition
      → IsUnknown h
  set-IsUnknown cs h has =
      let (d, found, same) = k.find-set cs unknown_condition in
      (
        d,
        ap (λ (ds : List Condition). m.find_status_condition ds available) has ∙ found,
        same.status,
      )

  noted :
      (s : ManagedClusterStatus × Bool) (h : Trace)
      → ((note_unknown m clusters leases retry now s h).0 ≡ ok tt)
        × (server.stored (note_unknown m clusters leases retry now s h).1 ≡ server.stored h)
  noted (status, false) h = (refl, refl)
  noted (status, true) h =
      (refl, server.stored_other h (event "ManagedClusterAvailableConditionUpdated") refl)

  set_unknown-IsUnknown :
      (h : Trace)
      → ((set_unknown m clusters leases retry now name h).0 ≡ ok tt)
        × IsUnknown (set_unknown m clusters leases retry now name h).1
  unfolding set_unknown update_managed_cluster_condition_fn apply_updates
  set_unknown-IsUnknown h =
      let old = (server.stored h).status in
      let new : ManagedClusterStatus = record old {
        conditions = m.set_status_condition old.conditions unknown_condition;
      } in
      let (s, h', e, (has, _, _, _)) =
        update_done m deep name clusters server r
          (update_managed_cluster_condition_fn m unknown_condition ∷ []) new h refl in
      let (fine, kept) = noted s h' in
      let ends =
        ap
          (λ (u : Result (ManagedClusterStatus × Bool) × Trace).
            ◌>>=◌ (λ h. u) (note_unknown m clusters leases retry now) h)
          e in
      (
        ap (λ (x : Result (Unit {0}) × Trace). x.0) ends ∙ fine,
        subst
            (λ (c : ManagedCluster).
              (d : Condition) × (m.find_status_condition c.status.conditions available ≡ some d)
              × (d.status ≡ condition_unknown))
            (sym (ap (λ (x : Result (Unit {0}) × Trace). server.stored x.1) ends ∙ kept))
            (set-IsUnknown old.conditions h' has),
      )

  -- When the leases of both names of an accepted cluster have lapsed, a check of the hub succeeds, and
  -- the cluster on the server then has an unknown availability, whatever its status was. The
  -- duration is at most 429496729 seconds, and the server refuses nothing.
  pub check_cluster-IsUnknown :
      (cluster : ManagedCluster) (h : Trace)
      → cluster.name ≡ name
      → cluster.lease_duration_seconds ≤ 429496729
      → m.is_status_condition_true cluster.status.conditions hub_accepted ≡ true
      → HasLapsed cluster lease_name h
      → HasLapsed cluster ("cluster-lease-" <> cluster.name) h
      → ((check_cluster m clusters leases retry now cluster h).0 ≡ ok tt)
        × IsUnknown (check_cluster m clusters leases retry now cluster h).1
  check_cluster-IsUnknown cluster h named small accepted (l, found, late) (o, found_o, late_o) =
      let same =
        check_cluster-set_unknown m clusters leases retry now cluster h accepted
          (l, found, ground (arith, is_fresh_iff now l.renew_time cluster small, late))
          (o, found_o, ground (arith, is_fresh_iff now o.renew_time cluster small, late_o)) in
      let whole = same ∙ ap (λ n. set_unknown m clusters leases retry now n h) named in
      subst (λ (x : Result (Unit {0}) × Trace). (x.0 ≡ ok tt) × IsUnknown x.1) (sym whole)
        (set_unknown-IsUnknown h)
