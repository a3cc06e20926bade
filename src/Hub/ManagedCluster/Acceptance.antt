-- ===== src/Hub/ManagedCluster/Acceptance.antt =====
-- A cluster that the hub's administrator accepts or denies: when manifests are applied, and what a
-- successful run has done.
use ocm_registration.Base.{
  String, Bool, true, false, List, [], ◌∷◌, ◌++◌, some, ◌≡◌, ◌≢◌, refl, ◌⊎◌, inl, inr, string_eq,
  nat_eq, arith, All, contains, subst₂, ◌∙◌,
}
use ocm_registration.Kube.{
  Err, Result, ok, Result-cases, Exec, Trace, Call, At, Only, Avoids, event, ◌>>◌, Machinery,
  IsMachinery, ClusterApi, RbacApi, Manifest, Condition, condition_true, ManagedCluster,
  ManagedClusterStatus, apply_manifest, update_cluster_status, result_of,
}
use ocm_registration.Helpers.Status.{
  IsRetry, UpdateFunc, apply_updates, update_managed_cluster_condition_fn,
}
use ocm_registration.Helpers.Status.Laws.{
  Written, update_managed_cluster_status-Sends, update_managed_cluster_status-Only,
  update_managed_cluster_status-Grows,
}
use ocm_registration.Helpers.Cleanup.Calls.{is_cleanup}
use ocm_registration.Hub.ManagedCluster.Applying.{
  Applied, apply_all-Applied, apply_all-never_status, condition_after_lem,
}
use ocm_registration.Hub.ManagedCluster.{
  apply_files, hub_accepted, managed_cluster_finalizer, denied_condition, condition_after,
  remove_managed_cluster_resources, remove_managed_cluster_finalizer, add_finalizer, deny, accept,
  apply_all, sync,
}
use ocm_registration.Hub.ManagedCluster.Deletion.{remove_managed_cluster_resources-Only}

module _ (m : Machinery) (clusters : ClusterApi) (rbac : RbacApi)
    {retry : Exec (ManagedClusterStatus × Bool) → Exec (ManagedClusterStatus × Bool)}
    (r : IsRetry retry) (asset : String → String → Result String)
    (decode : String → Result Manifest) (error_text : Err → String) where
  abbrev remove : String → Exec (Unit {0})
  remove = remove_managed_cluster_resources m clusters rbac retry asset decode error_text

  abbrev run : String → Exec (Unit {0})
  run = sync m clusters rbac retry asset decode error_text

  removal_Only : (name : String) (h : Trace) → Only is_cleanup h (remove name h).1
  removal_Only = remove_managed_cluster_resources-Only m clusters rbac retry asset decode error_text

  deny-Avoids :
      (file name : String)
      → Avoids (apply_manifest file) (deny m clusters rbac retry asset decode error_text name)
  unfolding deny
  deny-Avoids file name h g a =
      let h' = event "ManagedClusterDenied" ∷ h in
      let fs = update_managed_cluster_condition_fn m denied_condition ∷ [] in
      ground (
        arith,
        removal_Only name h' (apply_manifest file) g refl,
        update_managed_cluster_status-Only m clusters r name fs (remove name h').1
            (apply_manifest file) g refl,
      )

  add_finalizer-Avoids :
      (file : String) (cluster : ManagedCluster)
      → Avoids
          (apply_manifest file)
          (add_finalizer m clusters rbac retry asset decode error_text cluster)
  unfolding add_finalizer
  add_finalizer-Avoids file cluster h g a = ground arith

  remove_managed_cluster_finalizer-Avoids :
      (file : String) (cluster : ManagedCluster)
      → Avoids
          (apply_manifest file)
          (remove_managed_cluster_finalizer m clusters rbac retry asset decode error_text cluster)
  unfolding remove_managed_cluster_finalizer
  remove_managed_cluster_finalizer-Avoids file cluster h g a = ground arith

  delete-Avoids :
      (file name : String) (cluster : ManagedCluster)
      → Avoids (apply_manifest file) (do
        remove name
        remove_managed_cluster_finalizer m clusters rbac retry asset decode error_text cluster)
  delete-Avoids file name cluster h g a = ground (
    arith,
    removal_Only name h (apply_manifest file) g refl,
    remove_managed_cluster_finalizer-Avoids file cluster (remove name h).1 g,
  )

  -- Manifests are applied only for a cluster in the lister's cache that is not being deleted,
  -- carries the clean-up finalizer and is accepted by the hub's administrator.
  pub sync-apply_needs_acceptance :
      (name file : String) (g : Trace)
      → At (apply_manifest file) g (run name []).1
      → (cluster : ManagedCluster) × (clusters.lister_get [] name ≡ ok cluster)
        × (cluster.deleting ≡ false)
        × (contains cluster.finalizers managed_cluster_finalizer ≡ true)
        × (cluster.hub_accepts_client ≡ true)
  unfolding sync
  sync-apply_needs_acceptance name file g a = elim (Result-cases (clusters.lister_get [] name)) [
    | inr (e, missing) ↦ absurd (ground arith)
    | inl (cluster, listed) ↦
        let new = add_finalizer-Avoids file cluster [] g in
        let gone = delete-Avoids file name cluster [] g in
        let denied = deny-Avoids file name [] g in
        (
          cluster,
          listed,
          ground (arith, new, gone, denied),
          ground (arith, new, gone, denied),
          ground (arith, new, gone, denied),
        )
  ]

  abbrev applied : Trace → List Err × Trace
  applied = apply_all rbac apply_files

  abbrev accept_conditions : List Err → List (UpdateFunc ManagedClusterStatus)
  accept_conditions errs =
      update_managed_cluster_condition_fn m (condition_after m error_text errs) ∷ []

  module _ (k : IsMachinery m) (name : String) (h : Trace) {cluster : ManagedCluster}
      (listed : clusters.lister_get h name ≡ ok cluster) (stays : cluster.deleting ≡ false)
      (held : contains cluster.finalizers managed_cluster_finalizer ≡ true)
      (accepted : cluster.hub_accepts_client ≡ true) where
    sync-accept : run name h ≡ accept m clusters rbac retry asset decode error_text name h
    unfolding sync
    sync-accept = ground arith

    accept_trace :
        (c : Call) (g : Trace)
        → At c g (applied h).1
        → At c g (accept m clusters rbac retry asset decode error_text name h).1
    unfolding accept
    accept_trace c g a = ground (
      arith,
      update_managed_cluster_status-Grows m clusters r name (accept_conditions (applied h).0)
          (applied h).1 c g a,
    )

    accept_ok :
        (accept m clusters rbac retry asset decode error_text name h).0 ≡ ok tt → (applied h).0 ≡ []
    unfolding accept
    accept_ok e = no_errors (applied h).0 _ e
      where
        no_errors :
            (errs more : List Err)
            → result_of (m.new_multi_line_aggregate (errs ++ more)) ≡ ok tt
            → errs ≡ []
        no_errors [] more _ = refl
        no_errors (x ∷ errs) more f = absurd (ground (arith, k.aggregate-cons x (errs ++ more)))

    -- For an accepted cluster every manifest, the namespace first, is applied, whatever became of
    -- those before it; and a run without an error had none from any of them.
    pub sync-Applied :
        All
          (λ file.
            (g : Trace) × At (apply_manifest file) g (run name h).1
            × ((run name h).0 ≡ ok tt → rbac.apply_manifest g file ≡ ok tt))
          apply_files
    sync-Applied = rw sync-accept (lift apply_files (apply_all-Applied rbac apply_files h))
      where
        lift :
            (files : List String)
            → All (Applied rbac (applied h).0 (applied h).1) files
            → All
                (λ file.
                  (g : Trace) × At
                    (apply_manifest file)
                    g
                    (accept m clusters rbac retry asset decode error_text name h).1
                  × ((accept m clusters rbac retry asset decode error_text name h).0 ≡ ok tt
                      → rbac.apply_manifest g file ≡ ok tt))
                files
        lift [] _ = tt
        lift (file ∷ files) ((g, a, e), rest) =
            ((g, accept_trace _ g a, λ fine. e (accept_ok fine)), lift files rest)

    accept_writes :
        (c' : ManagedCluster) (g : Trace)
        → At
            (update_cluster_status c')
            g
            (accept m clusters rbac retry asset decode error_text name h).1
        → At (update_cluster_status c') g h
          ⊎ Written (accept_conditions (applied h).0) (update_cluster_status c')
    unfolding accept
    accept_writes c' g a =
        let sent =
          update_managed_cluster_status-Sends m clusters r name (accept_conditions (applied h).0)
            (applied h).1 (update_cluster_status c') g in
        let before = apply_all-never_status rbac apply_files c' h g in ground (arith, sent, before)

    -- A status that the run writes for an accepted cluster has the accepted condition, true also
    -- when manifests failed, and with the reason "Error" exactly when one did.
    pub sync-accepted_condition :
        (c' : ManagedCluster) (g : Trace)
        → At (update_cluster_status c') g (run name h).1
        → At (update_cluster_status c') g h
          ⊎ ((d : Condition) × (m.find_status_condition c'.status.conditions hub_accepted ≡ some d)
              × (d.status ≡ condition_true)
              × ((applied h).0 ≡ [] → d.reason ≡ "HubClusterAdminAccepted")
              × ((applied h).0 ≢ [] → d.reason ≡ "Error"))
    unfolding update_managed_cluster_condition_fn apply_updates
    sync-accepted_condition c' g a = elim (accept_writes c' g (rw sync-accept at a)) [
      | inl old ↦ inl old
      | inr (old, e) ↦
          let c = condition_after m error_text (applied h).0 in
          let (d, found, same) = k.find-set old.conditions c in
          let (named, set, without, with_error) = condition_after_lem m error_text (applied h).0 in
          let stored : m.set_status_condition old.conditions c ≡ c'.status.conditions = cc in
          inr (
            d,
            subst₂ (λ cs t. m.find_status_condition cs t ≡ some d) stored named found,
            same.status ∙ set,
            λ none_failed. same.reason ∙ without none_failed,
            λ failed. same.reason ∙ with_error failed,
          )
    ]
