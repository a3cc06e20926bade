-- ===== src/Hub/ManagedCluster/Applying.antt =====
-- The manifests that are applied one after the other, and the condition that is made of their
-- errors.
use ocm_registration.Base.{
  String, List, [], ◌∷◌, ◌≡◌, ◌≢◌, refl, inl, inr, string_eq, nat_eq, arith, All,
}
use ocm_registration.Kube.{
  Err, ok, Trace, At, Grows, Machinery, RbacApi, condition_true, ManagedCluster, apply_manifest,
  update_cluster_status,
}
use ocm_registration.Hub.ManagedCluster.{hub_accepted, condition_after, apply_all}

module _ (rbac : RbacApi) where
  apply_all-Grows : (files : List String) (h : Trace) → Grows h (apply_all rbac files h).1
  unfolding apply_all
  apply_all-Grows [] h c g a = a
  apply_all-Grows (file ∷ files) h c g a = apply_all-Grows files _ c g (inr a)

  -- The file was applied, and if no error is left it was applied without one.
  abbrev pub Applied : List Err → Trace → String → Type 0
  Applied errs h file =
      (g : Trace) × At (apply_manifest file) g h × (errs ≡ [] → rbac.apply_manifest g file ≡ ok tt)

  pub apply_all-Applied :
      (files : List String) (h : Trace)
      → All (Applied (apply_all rbac files h).0 (apply_all rbac files h).1) files
  unfolding apply_all
  apply_all-Applied [] h = tt
  apply_all-Applied (file ∷ files) h = (
    (h, apply_all-Grows files _ _ h (inl (refl, refl)), λ e. ground arith),
    weaken files (apply_all-Applied files (apply_manifest file ∷ h)),
  )
    where
      weaken :
          (fs : List String)
          → All
              (Applied
                (apply_all rbac files (apply_manifest file ∷ h)).0
                (apply_all rbac files (apply_manifest file ∷ h)).1)
              fs
          → All (Applied (apply_all rbac (file ∷ files) h).0 (apply_all rbac (file ∷ files) h).1) fs
      weaken [] _ = tt
      weaken (f ∷ fs) ((g, a, e), rest) = ((g, a, λ none_left. e (ground arith)), weaken fs rest)

  pub apply_all-never_status :
      (files : List String) (c : ManagedCluster) (h g : Trace)
      → At (update_cluster_status c) g (apply_all rbac files h).1
      → At (update_cluster_status c) g h
  unfolding apply_all
  apply_all-never_status [] c h g a = a
  apply_all-never_status (file ∷ files) c h g a =
      ground (arith, apply_all-never_status files c (apply_manifest file ∷ h) g a)

module _ (m : Machinery) (error_text : Err → String) where
  pub condition_after_lem :
      (errs : List Err)
      → let c = condition_after m error_text errs in
        (c.type ≡ hub_accepted)
        × (c.status ≡ condition_true)
        × (errs ≡ [] → c.reason ≡ "HubClusterAdminAccepted")
        × (errs ≢ [] → c.reason ≡ "Error")
  unfolding condition_after
  condition_after_lem [] = (refl, refl, λ _. refl, λ n. absurd (n refl))
  condition_after_lem (e ∷ errs) = ground arith
