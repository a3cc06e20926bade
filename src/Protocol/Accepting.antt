-- ===== src/Protocol/Accepting.antt =====
-- What runs of the hub's controller do to an accepted cluster on the server.
use ocm_registration.Base.{
  String, Bool, true, false, List, [], ◌∷◌, ◌++◌, ◌≡◌, refl, ◌∙◌, sym, ap, inl, inr, Bool-cases,
  arith, subst, contains, string_eq,
}
use ocm_registration.Kube.{
  Err, Result, ok, Exec, Trace, event, update_cluster, apply_manifest, Manifest, Machinery,
  IsMachinery, ClusterApi, RbacApi, Condition, condition_true, ManagedCluster, ManagedClusterStatus,
}
use ocm_registration.Helpers.Status.{IsRetry, update_managed_cluster_condition_fn, apply_updates}
use ocm_registration.Hub.ManagedCluster.{
  managed_cluster_finalizer, hub_accepted, apply_files, apply_all, condition_after, accept, sync,
  note_accepted,
}
use ocm_registration.Hub.ManagedCluster.Applying.{condition_after_lem}
use ocm_registration.Protocol.Server.{IsServer, ComparesConditions, update_done}

contains-append : (xs : List String) (f : String) → contains (xs ++ f ∷ []) f ≡ true
contains-append [] f = ground arith
contains-append (x ∷ xs) f = ground (arith, contains-append xs f)

module _ (m : Machinery) (k : IsMachinery m) (deep : ComparesConditions m) (name : String)
    (clusters : ClusterApi) (server : IsServer name clusters) where
  -- The cluster is accepted by the administrator and stays.
  abbrev pub Wanted : Trace → Type 0
  Wanted h = ((server.stored h).deleting ≡ false) × ((server.stored h).hub_accepts_client ≡ true)

  abbrev pub HasFinalizer : Trace → Type 0
  HasFinalizer h = contains (server.stored h).finalizers managed_cluster_finalizer ≡ true

  abbrev pub IsTrue : String → Trace → Type 0
  IsTrue t h = m.is_status_condition_true (server.stored h).status.conditions t ≡ true

  pub IsTrue-set :
      (cs : List Condition) (c : Condition) (t : String) (h : Trace)
      → (server.stored h).status.conditions ≡ m.set_status_condition cs c
      → c.type ≡ t
      → c.status ≡ condition_true
      → IsTrue t h
  IsTrue-set cs c t h has is up =
      let (d, found, same) = k.find-set cs c in
      ground (
        arith,
        has,
        is,
        up,
        k.is_true-find (m.set_status_condition cs c) c.type,
        found,
        same.status,
      )

  module _ (rbac : RbacApi)
      {retry : Exec (ManagedClusterStatus × Bool) → Exec (ManagedClusterStatus × Bool)}
      (r : IsRetry retry) (asset : String → String → Result String)
      (decode : String → Result Manifest) (error_text : Err → String) where
    pub stored-apply_all :
        (files : List String) (h : Trace)
        → server.stored (apply_all rbac files h).1 ≡ server.stored h
    unfolding apply_all
    stored-apply_all [] h = refl
    stored-apply_all (file ∷ files) h =
        stored-apply_all files (apply_manifest file ∷ h)
        ∙ server.stored_other h (apply_manifest file) refl

    noted :
        (s : ManagedClusterStatus × Bool) (h : Trace)
        → server.stored (note_accepted m clusters rbac retry asset decode error_text (ok s) h)
          ≡ server.stored h
    noted (status, false) h = refl
    noted (status, true) h = server.stored_other h (event "ManagedClusterAccepted") refl

    -- The accepted condition that a run makes.
    abbrev pub condition_at : Trace → Condition
    condition_at h = condition_after m error_text (apply_all rbac apply_files h).0

    -- After `accept` the condition is set and true, and the rest of the cluster is as before.
    abbrev Accepts : Condition → ManagedCluster → ManagedCluster → Type 0
    Accepts c before after =
        (after.status.conditions ≡ m.set_status_condition before.status.conditions c)
        × (m.is_status_condition_true after.status.conditions hub_accepted ≡ true)
        × (after.finalizers ≡ before.finalizers)
        × (after.deleting ≡ before.deleting)
        × (after.hub_accepts_client ≡ before.hub_accepts_client)

    pub accept_done :
        (h : Trace)
        → Accepts
            (condition_at h)
            (server.stored h)
            (server.stored (accept m clusters rbac retry asset decode error_text name h).1)
    unfolding accept update_managed_cluster_condition_fn apply_updates
    accept_done h =
        let out = apply_all rbac apply_files h in
        let c = condition_after m error_text out.0 in
        let (is, up, _, _) = condition_after_lem m error_text out.0 in
        let old = (server.stored out.1).status in
        let new : ManagedClusterStatus = record old {
          conditions = m.set_status_condition old.conditions c;
        } in
        let (s, h', e, (has, same_f, same_d, same_a)) =
          update_done m deep name clusters server r (update_managed_cluster_condition_fn m c ∷ [])
            new out.1 refl in
        let true_now = IsTrue-set old.conditions c hub_accepted h' has is up in
        let kept = stored-apply_all apply_files h in
        let ends : server.stored (accept m clusters rbac retry asset decode error_text name h).1
            ≡ server.stored h' =
          ap
            (λ (u : Result (ManagedClusterStatus × Bool) × Trace).
              server.stored (note_accepted m clusters rbac retry asset decode error_text u.0 u.1))
            e
          ∙ noted s h' in
        subst (Accepts c (server.stored h)) (sym ends) (
          has ∙ ap (λ (x : ManagedCluster). m.set_status_condition x.status.conditions c) kept,
          true_now,
          same_f ∙ ap (λ (x : ManagedCluster). x.finalizers) kept,
          same_d ∙ ap (λ (x : ManagedCluster). x.deleting) kept,
          same_a ∙ ap (λ (x : ManagedCluster). x.hub_accepts_client) kept,
        )

    -- A run on a wanted cluster gives it the finalizer if it lacks that, and else accepts it.
    abbrev pub run : Trace → Trace
    run h = (sync m clusters rbac retry asset decode error_text name h).1

    abbrev with_finalizer : ManagedCluster → ManagedCluster
    with_finalizer c = record c { finalizers = c.finalizers ++ managed_cluster_finalizer ∷ [] }

    run_adds :
        (h : Trace)
        → Wanted h
        → contains (server.stored h).finalizers managed_cluster_finalizer ≡ false
        → run h ≡ update_cluster (with_finalizer (server.stored h)) ∷ h
    unfolding sync
    run_adds h (live, accepted) lacks =
        ground
          (arith, server.lists h, live, lacks, server.updates h (with_finalizer (server.stored h)))

    pub run_accepts :
        (h : Trace)
        → Wanted h
        → HasFinalizer h
        → run h ≡ (accept m clusters rbac retry asset decode error_text name h).1
    unfolding sync
    run_accepts h (live, accepted) has = rw (server.lists h, live, has, accepted) refl

    pub run_first :
        (h : Trace)
        → Wanted h
        → contains (server.stored h).finalizers managed_cluster_finalizer ≡ false
        → Wanted (run h) × HasFinalizer (run h)
    run_first h (live, accepted) lacks =
        let c = server.stored h in
        let ends =
          ap server.stored (run_adds h (live, accepted) lacks)
          ∙ server.stored-update h (with_finalizer c) in
        subst
          (λ (x : ManagedCluster).
            ((x.deleting ≡ false) × (x.hub_accepts_client ≡ true))
            × (contains x.finalizers managed_cluster_finalizer ≡ true))
          (sym ends) ((live, accepted), contains-append c.finalizers managed_cluster_finalizer)

    pub run-IsTrue :
        (h : Trace)
        → Wanted h
        → HasFinalizer h
        → Wanted (run h) × HasFinalizer (run h) × IsTrue hub_accepted (run h)
    run-IsTrue h (live, accepted) has =
        let (_, up, same_f, same_d, same_a) = accept_done h in
        let ends = ap server.stored (run_accepts h (live, accepted) has) in
        subst
          (λ (x : ManagedCluster).
            ((x.deleting ≡ false) × (x.hub_accepts_client ≡ true))
            × (contains x.finalizers managed_cluster_finalizer ≡ true)
            × (m.is_status_condition_true x.status.conditions hub_accepted ≡ true))
          (sym ends)
          (
            (same_d ∙ live, same_a ∙ accepted),
            ap (λ fs. contains fs managed_cluster_finalizer) same_f ∙ has,
            up,
          )

    -- Two runs accept the cluster, with the finalizer or without it before.
    pub two_runs :
        (h : Trace)
        → Wanted h
        → Wanted (run (run h)) × HasFinalizer (run (run h)) × IsTrue hub_accepted (run (run h))
    two_runs h wanted =
        elim (Bool-cases (contains (server.stored h).finalizers managed_cluster_finalizer)) [
          | inl has ↦
              let (wanted', has', _) = run-IsTrue h wanted has in run-IsTrue (run h) wanted' has'
          | inr lacks ↦
              let (wanted', has') = run_first h wanted lacks in run-IsTrue (run h) wanted' has'
        ]
