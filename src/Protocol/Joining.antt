-- ===== src/Protocol/Joining.antt =====
-- The runs of the hub's controller and of the agent's that bring an accepted cluster in.
use ocm_registration.Base.{
  ℕ, String, Bool, true, false, List, Option, ◌≡◌, ◌≢◌, refl, ◌∙◌, sym, ap, arith, subst, ◌==◌,
  string_eq,
}
use ocm_registration.Kube.{
  Err, Result, ok, Exec, Trace, event, Machinery, IsMachinery, ClusterApi, RbacApi, Manifest,
  Condition, ManagedCluster, ManagedClusterStatus,
}
use ocm_registration.Helpers.Status.{IsRetry, apply_updates, update_managed_cluster_condition_fn}
use ocm_registration.Hub.ManagedCluster.{hub_accepted}
use ocm_registration.Spoke.Claims.{joined}
use ocm_registration.Spoke.Joining.{
  Node, joined_condition, update_cluster_resources_fn, update_funcs, note_joined, with_version,
  sync,
}
use ocm_registration.Protocol.Server.{IsServer, ComparesConditions, update_done}
use ocm_registration.Protocol.Accepting.{Wanted, IsTrue, IsTrue-set, run, two_runs}

different : joined ≢ hub_accepted
unfolding string_eq
different p =
    let q : false ≡ true = ap (λ (s : String). s == hub_accepted) p in absurd (ground (arith, q))

module _ (m : Machinery) (k : IsMachinery m) (deep : ComparesConditions m) (name : String)
    (clusters : ClusterApi) (server : IsServer name clusters)
    {retry : Exec (ManagedClusterStatus × Bool) → Exec (ManagedClusterStatus × Bool)}
    (r : IsRetry retry) (node_lister : Trace → Result (List Node))
    (server_version : Trace → Result String) (as_int64 : ℕ → ℕ) (parse_mi : ℕ → Option ℕ) where
  noted :
      (was : Bool) (s : ManagedClusterStatus × Bool) (h : Trace)
      → let out =
          note_joined m clusters retry node_lister server_version as_int64 parse_mi name was
            (ok s)
            h in
        (out.0 ≡ ok tt) × (server.stored out.1 ≡ server.stored h)
  noted was (status, false) h = (refl, refl)
  noted true (status, true) h = (refl, refl)
  noted false (status, true) h = (refl, server.stored_other h (event "ManagedClusterJoined") refl)

  -- The conditions that the status update makes.
  abbrev made : Bool → List Condition → List Condition
  made true cs = cs
  made false cs = m.set_status_condition cs joined_condition

  made_lem :
      (was : Bool) (nodes : List Node) (version : String) (old : ManagedClusterStatus)
      → (new : ManagedClusterStatus) × (apply_updates
            (update_funcs m clusters retry node_lister server_version as_int64 parse_mi name was
              nodes version)
            old
          ≡ ok new)
        × (new.conditions ≡ made was old.conditions)
  unfolding apply_updates update_managed_cluster_condition_fn update_cluster_resources_fn
  made_lem true nodes version old = (_, refl, refl)
  made_lem false nodes version old = (_, refl, refl)

  made-IsTrue :
      (was : Bool) (h h' : Trace)
      → m.is_status_condition_true (server.stored h).status.conditions joined ≡ was
      → IsTrue m k deep name clusters server hub_accepted h
      → (server.stored h').status.conditions ≡ made was (server.stored h).status.conditions
      → IsTrue m k deep name clusters server joined h'
        × IsTrue m k deep name clusters server hub_accepted h'
  made-IsTrue true h h' is accepted has = ground (arith, is, accepted, has)
  made-IsTrue false h h' is accepted has =
      let cs = (server.stored h).status.conditions in
      let differ : joined ≢ hub_accepted = different in
      (
        IsTrue-set m k deep name clusters server cs joined_condition joined h' has refl refl,
        ground (
          arith,
          has,
          accepted,
          k.find-set_other cs joined_condition hub_accepted differ,
          k.is_true-find cs hub_accepted,
          k.is_true-find (m.set_status_condition cs joined_condition) hub_accepted,
        ),
      )

  abbrev pub join : Trace → Result (Unit {0}) × Trace
  join = sync m clusters retry node_lister server_version as_int64 parse_mi name

  join_steps :
      (h : Trace) (nodes : List Node) (version : String)
      → IsTrue m k deep name clusters server hub_accepted h
      → node_lister h ≡ ok nodes
      → server_version h ≡ ok version
      → join h
        ≡ with_version m clusters retry node_lister server_version as_int64 parse_mi name
            (m.is_status_condition_true (server.stored h).status.conditions joined)
            nodes
            (ok version)
            h
  unfolding sync
  join_steps h nodes version accepted listed read = rw (server.lists h, accepted, listed, read) refl

  join_run :
      (h : Trace) (nodes : List Node) (version : String)
      → IsTrue m k deep name clusters server hub_accepted h
      → node_lister h ≡ ok nodes
      → server_version h ≡ ok version
      → ((join h).0 ≡ ok tt)
        × IsTrue m k deep name clusters server joined (join h).1
        × IsTrue m k deep name clusters server hub_accepted (join h).1
  join_run h nodes version accepted listed read =
      let was = m.is_status_condition_true (server.stored h).status.conditions joined in
      let (new, good, conditions) = made_lem was nodes version (server.stored h).status in
      let (s, h', e, (has, _, _, _)) =
        update_done m deep name clusters server r
          (update_funcs m clusters retry node_lister server_version as_int64 parse_mi name was nodes
            version)
          new h good in
      let (fine, kept) = noted was s h' in
      let (is_joined, is_accepted) = made-IsTrue was h h' refl accepted (has ∙ conditions) in
      let whole =
        join_steps h nodes version accepted listed read
        ∙ ap
            (λ (u : Result (ManagedClusterStatus × Bool) × Trace).
              note_joined m clusters retry node_lister server_version as_int64 parse_mi name was u.0
                u.1)
            e in
      let ends = ap (λ (x : Result (Unit {0}) × Trace). server.stored x.1) whole ∙ kept in
      let (now_joined, now_accepted) =
        subst
          (λ (c : ManagedCluster).
            (m.is_status_condition_true c.status.conditions joined ≡ true)
            × (m.is_status_condition_true c.status.conditions hub_accepted ≡ true))
          (sym ends) (is_joined, is_accepted) in
      (ap (λ (x : Result (Unit {0}) × Trace). x.0) whole ∙ fine, now_joined, now_accepted)

  module _ (rbac : RbacApi) (asset : String → String → Result String)
      (decode : String → Result Manifest) (error_text : Err → String) where
    -- A cluster that the administrator accepts, and that is not being deleted, joins: after two runs
    -- of the hub's controller and one of the agent's, which then succeeds, the cluster on the server
    -- has the conditions that it is accepted and that it has joined, both true. That is so whatever
    -- conditions and finalizers it had before, and whatever became of the manifests; the server
    -- refuses nothing, and the agent can list its nodes and read its version.
    pub cluster_joins :
        (h : Trace) (nodes : List Node) (version : String)
        → Wanted m k deep name clusters server h
        → let hub = run m k deep name clusters server rbac r asset decode error_text in
          let h' = hub (hub h) in
          node_lister h' ≡ ok nodes
          → server_version h' ≡ ok version
          → ((join h').0 ≡ ok tt)
            × IsTrue m k deep name clusters server hub_accepted (join h').1
            × IsTrue m k deep name clusters server joined (join h').1
    cluster_joins h nodes version wanted listed read =
        let hub = run m k deep name clusters server rbac r asset decode error_text in
        let (_, _, accepted) =
          two_runs m k deep name clusters server rbac r asset decode error_text h wanted in
        let (fine, is_joined, is_accepted) =
          join_run (hub (hub h)) nodes version accepted listed read in
        (fine, is_accepted, is_joined)
