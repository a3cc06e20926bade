-- ===== src/Protocol/Settling.antt =====
-- Runs of the hub's controller come to an end: each write of a cluster leads to another run for it,
-- and that one writes nothing.
use ocm_registration.Base.{
  String, Bool, true, false, List, [], ◌∷◌, ◌≡◌, refl, ◌∙◌, sym, ap, arith, subst, inl, inr,
  contains, string_eq, Bool-cases,
}
use ocm_registration.Kube.{
  Err, Result, Exec, Trace, At, Call, get_cluster, apply_manifest, Manifest, Machinery, IsMachinery,
  ClusterApi, RbacApi, Condition, ManagedCluster, ManagedClusterStatus,
}
use ocm_registration.Helpers.Status.{IsRetry, update_managed_cluster_condition_fn, apply_updates}
use ocm_registration.Hub.ManagedCluster.{
  hub_accepted, managed_cluster_finalizer, apply_files, apply_all, accept, note_accepted,
}
use ocm_registration.Protocol.Server.{IsServer, ComparesConditions, writes_cluster, update_same}
use ocm_registration.Protocol.Accepting.{
  Wanted, HasFinalizer, IsTrue, run, condition_at, accept_done, run_accepts, run-IsTrue, run_first,
  stored-apply_all,
}

other_call :
    (c d : Call) (h g : Trace)
    → writes_cluster c ≡ true
    → writes_cluster d ≡ false
    → At c g (d ∷ h)
    → At c g h
other_call c d h g w o (inr a) = a
other_call c d h g w o (inl (is, _)) =
    let q : true ≡ false = sym w ∙ ap writes_cluster is ∙ o in absurd (ground (arith, q))

module _ (rbac : RbacApi) where
  apply_all-writes :
      (files : List String) (h : Trace) (c : Call) (g : Trace)
      → writes_cluster c ≡ true
      → At c g (apply_all rbac files h).1
      → At c g h
  unfolding apply_all
  apply_all-writes [] h c g w a = a
  apply_all-writes (file ∷ files) h c g w a =
      other_call c (apply_manifest file) h g w refl
        (apply_all-writes files (apply_manifest file ∷ h) c g w a)

module _ (m : Machinery) (k : IsMachinery m) (deep : ComparesConditions m) (name : String)
    (clusters : ClusterApi) (server : IsServer name clusters) (rbac : RbacApi)
    {retry : Exec (ManagedClusterStatus × Bool) → Exec (ManagedClusterStatus × Bool)}
    (r : IsRetry retry) (asset : String → String → Result String)
    (decode : String → Result Manifest) (error_text : Err → String) where
  abbrev hub : Trace → Trace
  hub = run m k deep name clusters server rbac r asset decode error_text

  abbrev condition : Trace → Condition
  condition = condition_at m k deep name clusters server rbac r asset decode error_text

  -- Setting a condition a second time changes nothing.
  set-set :
      (cs : List Condition) (c : Condition)
      → m.set_status_condition (m.set_status_condition cs c) c ≡ m.set_status_condition cs c
  set-set cs c = let (d, found, same) = k.find-set cs c in k.set-settled _ c d found same

  -- A run that makes the condition that the cluster has applies the manifests and reads the cluster.
  run_settled :
      (h : Trace)
      → Wanted m k deep name clusters server h
      → HasFinalizer m k deep name clusters server h
      → m.set_status_condition (server.stored h).status.conditions (condition h)
        ≡ (server.stored h).status.conditions
      → hub h ≡ get_cluster name ∷ (apply_all rbac apply_files h).1
  unfolding accept update_managed_cluster_condition_fn apply_updates
  run_settled h wanted has settled =
      let out = apply_all rbac apply_files h in
      let c = condition h in
      let old = (server.stored out.1).status in
      let new : ManagedClusterStatus = record old {
        conditions = m.set_status_condition old.conditions c;
      } in
      let kept =
        ap (λ (x : ManagedCluster). x.status.conditions)
          (stored-apply_all m k deep name clusters server rbac r asset decode error_text apply_files
            h) in
      let still : m.set_status_condition old.conditions c ≡ old.conditions =
        ap (λ cs. m.set_status_condition cs c) kept ∙ settled ∙ sym kept in
      let same : m.same_cluster_status old new ≡ true =
        subst (λ cs. m.same_cluster_status old (record old { conditions = cs }) ≡ true) (sym still)
          (k.same_cluster-refl old) in
      run_accepts m k deep name clusters server rbac r asset decode error_text h wanted has
      ∙ ap
          (λ (u : Result (ManagedClusterStatus × Bool) × Trace).
            note_accepted m clusters rbac retry asset decode error_text u.0 u.1)
          (update_same m deep name clusters server r (update_managed_cluster_condition_fn m c ∷ [])
            new out.1 refl same)

  -- The cluster is accepted, and no call between the traces writes it.
  abbrev pub Settles : Trace → Trace → Type 0
  Settles h h' =
      IsTrue m k deep name clusters server hub_accepted h'
      × ((c : Call) (g : Trace) → writes_cluster c ≡ true → At c g h' → At c g h)

  second_writes :
      (h : Trace)
      → Wanted m k deep name clusters server h
      → HasFinalizer m k deep name clusters server h
      → condition (hub h) ≡ condition h
      → Settles (hub h) (hub (hub h))
  second_writes h wanted has same =
      let (wanted', has', _) =
        run-IsTrue m k deep name clusters server rbac r asset decode error_text h wanted has in
      let (set, _, _, _, _) =
        accept_done m k deep name clusters server rbac r asset decode error_text h in
      let ends =
        run_accepts m k deep name clusters server rbac r asset decode error_text h wanted has in
      let conditions = ap (λ g. (server.stored g).status.conditions) ends ∙ set in
      let settled : m.set_status_condition (server.stored (hub h)).status.conditions
            (condition (hub h))
          ≡ (server.stored (hub h)).status.conditions =
        rw (same, conditions) (set-set (server.stored h).status.conditions (condition h)) in
      let whole = run_settled (hub h) wanted' has' settled in
      let (_, _, up) =
        run-IsTrue m k deep name clusters server rbac r asset decode error_text (hub h) wanted'
          has' in
      (
        up,
        λ c g w a.
            apply_all-writes rbac apply_files (hub h) c g w
              (other_call c (get_cluster name) _ g w refl (subst (At c g) whole a)),
      )

  -- The runs for an accepted cluster that stays end: of three runs, the first and second of which may
  -- write the cluster, and so cause another run, the third makes no call that writes it, and the
  -- cluster is accepted on the server. The second and the third run make the same condition of what
  -- became of the manifests, and the server refuses nothing.
  pub third_run-writes :
      (h : Trace)
      → Wanted m k deep name clusters server h
      → condition (hub (hub h)) ≡ condition (hub h)
      → Settles (hub (hub h)) (hub (hub (hub h)))
  third_run-writes h wanted same =
      elim (Bool-cases (contains (server.stored h).finalizers managed_cluster_finalizer)) [
        | inl has ↦
            let (wanted', has', _) =
              run-IsTrue m k deep name clusters server rbac r asset decode error_text h wanted
                has in
            second_writes (hub h) wanted' has' same
        | inr lacks ↦
            let (wanted', has') =
              run_first m k deep name clusters server rbac r asset decode error_text h wanted
                lacks in
            second_writes (hub h) wanted' has' same
      ]
