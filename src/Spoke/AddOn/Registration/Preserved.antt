-- ===== src/Spoke/AddOn/Registration/Preserved.antt =====
-- A predicate of the state that a run keeps, if the two ways in which one changes the state keep it.
use ocm_registration.Base.{
  String, false, List, [], ◌∷◌, ◌≡◌, inl, inr, ◌==◌, string_eq, nat_eq, Option-cases, Bool-cases,
}
use ocm_registration.Base.Dict.{Dict, IsMap}
use ocm_registration.Kube.{
  Err, Result, ok, Result-cases, is_not_found, Trace, Machinery, Registration, AddOnApi, SecretApi,
}
use ocm_registration.Spoke.AddOn.Configuration.{
  RegistrationConfig, get_registration_configs, get_registration_configs-IsMap,
}
use ocm_registration.Spoke.AddOn.Registration.{
  State, cleanup, reconcile, sync_addon, resync, sync, if_stopped,
}

module _ (m : Machinery) (addons : AddOnApi) (secrets : SecretApi)
    (hash_of : Registration → Result String) (cluster_name agent_name kubeconfig_data : String)
    (Holds : State → Type 0) where
  pub if_stopped-Holds :
      (f : State → State) (out : List Err × State × Trace)
      → Holds out.1
      → Holds (f out.1)
      → Holds (if_stopped m addons secrets hash_of cluster_name agent_name kubeconfig_data f out).1
  if_stopped-Holds f (errs, s, h) safe safe' =
      elim (Option-cases (m.new_multi_line_aggregate errs)) [
        | inl fine ↦ rw (if_stopped, fine) safe'
        | inr (e, failed) ↦ rw (if_stopped, failed) safe
      ]

  -- The clean-up of an add-on, and the replacement of the entries of one that is not called "key".
  abbrev pub Cleans : Type 0
  Cleans =
      (addon_name : String) (s : State) (h : Trace)
      → Holds s
      → Holds
          (cleanup m addons secrets hash_of cluster_name agent_name kubeconfig_data addon_name s
            h).1

  abbrev pub Reconciles : Type 0
  Reconciles =
      (addon_name : String) (s : State) (h : Trace) (r : Result (Dict RegistrationConfig))
      → (addon_name == "key") ≡ false
      → ((wanted : Dict RegistrationConfig) → r ≡ ok wanted → IsMap wanted)
      → Holds s
      → Holds
          (reconcile m addons secrets hash_of cluster_name agent_name kubeconfig_data addon_name s h
            r).1

  module _ (cleans : Cleans) (reconciles : Reconciles) where
    sync_addon-Holds :
        (addon_name : String) (s : State) (h : Trace)
        → (addon_name == "key") ≡ false
        → Holds s
        → Holds
            (sync_addon m addons secrets hash_of cluster_name agent_name kubeconfig_data addon_name
              s h).1
    unfolding sync_addon
    sync_addon-Holds addon_name s h named safe =
        elim (Result-cases (addons.lister_get h cluster_name addon_name)) [
          | inr (e, missing) ↦ elim (Bool-cases (is_not_found e)) [
            | inl gone ↦ rw (missing, gone) (cleans addon_name s h safe)
            | inr other ↦ rw (missing, other) safe
          ]
          | inl (addon, found) ↦ elim (Bool-cases addon.deleting) [
            | inl deleting ↦ rw (found, deleting) (cleans addon_name s h safe)
            | inr live ↦
                rw (found, live)
                  (reconciles addon_name s h (get_registration_configs hash_of addon) named
                    (get_registration_configs-IsMap hash_of addon) safe)
          ]
        ]

    resync-Holds :
        (names : Dict (Dict RegistrationConfig)) (s : State) (h : Trace)
        → Holds s
        → Holds
            (resync m addons secrets hash_of cluster_name agent_name kubeconfig_data names s h).1
    unfolding resync
    resync-Holds [] s h safe = safe
    resync-Holds ((addon_name, d) ∷ rest) s h safe =
        elim (Result-cases (addons.lister_get h cluster_name addon_name)) [
          | inl (addon, found) ↦ rw found (resync-Holds rest s _ safe)
          | inr (e, missing) ↦ elim (Bool-cases (is_not_found e)) [
            | inl gone ↦ rw (missing, gone) (resync-Holds rest _ _ (cleans addon_name s h safe))
            | inr other ↦ rw (missing, other) (resync-Holds rest s h safe)
          ]
        ]

    pub sync-Holds :
        (queue_key : String) (s : State) (h : Trace)
        → Holds s
        → Holds
            (sync m addons secrets hash_of cluster_name agent_name kubeconfig_data queue_key s h).1
    unfolding sync
    sync-Holds queue_key s h safe = elim (Bool-cases (queue_key == "key")) [
      | inl resyncs ↦ rw resyncs (resync-Holds s.configs s h safe)
      | inr one ↦ rw one (sync_addon-Holds queue_key s h one safe)
    ]
