-- ===== src/Hub/RbacFinalizer/Laws.antt =====
-- When the finalizer is taken off a role or a role binding.
use ocm_registration.Base.{
  ℕ, String, true, false, List, [], ◌∷◌, Option, none, some, ◌≡◌, refl, ◌⊎◌, inl, inr, ◌==◌,
  string_eq, nat_eq, arith, not, ◌&&◌, length, keep_if, contains, if◌then◌else◌, subst, Bool-cases,
  eq-nil_of_length,
}
use ocm_registration.Kube.{
  Err, ok, err, Result-cases, Exec, Trace, At, Grows, RbacApi, Role, RoleBinding, Namespace,
  ManagedCluster, update_role,
}
use ocm_registration.Hub.RbacFinalizer.{
  manifest_work_finalizer, role_meta, role_binding_meta, has_finalizer, split_finalizers,
  remove_finalizer, pending_finalization, is_deleting, finalize, sync_role_and_role_binding,
  remove_finalizer_from_role_binding,
}

split_finalizers-keep_if :
    (fs : List String) (name : String)
    → split_finalizers fs name ≡ (contains fs name, keep_if (λ f. not (f == name)) fs)
unfolding split_finalizers
split_finalizers-keep_if [] name = refl
split_finalizers-keep_if (f ∷ fs) name = ground (arith, split_finalizers-keep_if fs name)

-- `removeFinalizer` takes off every copy of the finalizer, keeps the others in their order, and
-- reports a change exactly when the finalizer was there.
pub remove_finalizer-keep_if :
    (fs : List String) (name : String)
    → remove_finalizer fs name
      ≡ (if contains fs name then some (keep_if (λ f. not (f == name)) fs) else none)
unfolding remove_finalizer
remove_finalizer-keep_if fs name = ground (arith, split_finalizers-keep_if fs name)

module _ (rbac : RbacApi) (works_left : ℕ → String → Err) where
  abbrev run :
      Option Role → Option RoleBinding → Namespace → Option ManagedCluster → Exec (Unit {0})
  run = sync_role_and_role_binding rbac works_left

  abbrev pub without : List String → List String
  without = keep_if (λ f. not (f == manifest_work_finalizer))

  abbrev pub Ends : Namespace → Option ManagedCluster → Type 0
  Ends ns cluster = (ns.deleting ≡ true) ⊎ (is_deleting cluster ≡ true)

  -- A run does nothing, or it goes on to the finalizers, with no work left where something ends.
  sync_role_and_role_binding_cases :
      (role : Option Role) (binding : Option RoleBinding) (ns : Namespace)
      (cluster : Option ManagedCluster) (h : Trace)
      → ((run role binding ns cluster h).1 ≡ h)
        ⊎ ((run role binding ns cluster h ≡ finalize rbac role binding h)
            × (Ends ns cluster → rbac.manifest_work_lister h ns.name ≡ ok []))
  unfolding sync_role_and_role_binding
  sync_role_and_role_binding_cases role binding ns cluster h =
      elim (Result-cases (rbac.manifest_work_lister h ns.name)) [
        | inr (e, failed) ↦ ground arith
        | inl (works, listed) ↦ ground (arith, eq-nil_of_length works)
      ]

  binding_step :
      (binding : Option RoleBinding) (h g : Trace) (written : Role)
      → At
          (update_role written)
          g
          (remove_finalizer_from_role_binding rbac binding manifest_work_finalizer h).1
      → At (update_role written) g h
  unfolding remove_finalizer_from_role_binding
  binding_step none h g written a = a
  binding_step (some b) h g written a =
      ground (arith, remove_finalizer-keep_if b.finalizers manifest_work_finalizer)

  finalize-sent :
      (r : Role) (binding : Option RoleBinding) (h g : Trace) (written : Role)
      → (r.deleting && contains r.finalizers manifest_work_finalizer) ≡ true
      → At (update_role written) g (finalize rbac (some r) binding h).1
      → At
          (update_role written)
          g
          (update_role (record r { finalizers = without r.finalizers }) ∷ h)
  unfolding finalize pending_finalization
  finalize-sent r binding h g written both a =
      let updated : Role = record r { finalizers = without r.finalizers } in
      ground (
        arith,
        remove_finalizer-keep_if r.finalizers manifest_work_finalizer,
        binding_step binding (update_role updated ∷ h) g written,
      )

  finalize-unsent :
      (r : Role) (binding : Option RoleBinding) (h g : Trace) (written : Role)
      → (r.deleting && contains r.finalizers manifest_work_finalizer) ≡ false
      → At (update_role written) g (finalize rbac (some r) binding h).1
      → At (update_role written) g h
  unfolding finalize pending_finalization
  finalize-unsent r binding h g written not_both a = ground (
    arith,
    remove_finalizer-keep_if r.finalizers manifest_work_finalizer,
    binding_step binding h g written,
  )

  finalize-role :
      (role : Option Role) (binding : Option RoleBinding) (h g : Trace) (written : Role)
      → At (update_role written) g (finalize rbac role binding h).1
      → At (update_role written) g h
        ⊎ ((r : Role) × (role ≡ some r)
            × (r.deleting ≡ true)
            × (contains r.finalizers manifest_work_finalizer ≡ true)
            × (written ≡ record r { finalizers = without r.finalizers }))
  unfolding finalize pending_finalization
  finalize-role none none h g written a = inl a
  finalize-role none (some b) h g written a =
      inl (ground (arith, remove_finalizer-keep_if b.finalizers manifest_work_finalizer))
  finalize-role (some r) binding h g written a =
      elim (Bool-cases (r.deleting && contains r.finalizers manifest_work_finalizer)) [
        | inl both ↦
            let updated : Role = record r { finalizers = without r.finalizers } in
            let sent : At (update_role written) g (update_role updated ∷ h) =
              finalize-sent r binding h g written both a in
            (elim sent [
              | inl (e, _) ↦ inr (r, refl, ground arith, ground arith, cc)
              | inr old ↦ inl old
            ])
        | inr not_both ↦ inl (finalize-unsent r binding h g written not_both a)
      ]

  -- A role is written only while it is being deleted and has the finalizer, only to take that off,
  -- and, if its namespace or its cluster is being deleted, only when no ManifestWork is left there.
  pub sync_role_and_role_binding-role :
      (role : Option Role) (binding : Option RoleBinding) (ns : Namespace)
      (cluster : Option ManagedCluster) (h g : Trace) (written : Role)
      → At (update_role written) g (run role binding ns cluster h).1
      → At (update_role written) g h
        ⊎ ((r : Role) × (role ≡ some r)
            × (r.deleting ≡ true)
            × (contains r.finalizers manifest_work_finalizer ≡ true)
            × (written ≡ record r { finalizers = without r.finalizers })
            × (Ends ns cluster → rbac.manifest_work_lister h ns.name ≡ ok []))
  sync_role_and_role_binding-role role binding ns cluster h g written a =
      elim (sync_role_and_role_binding_cases role binding ns cluster h) [
        | inl nothing ↦ inl (subst (At (update_role written) g) nothing a)
        | inr (goes_on, empty) ↦ (elim (finalize-role role binding h g written (rw goes_on at a)) [
          | inl old ↦ inl old
          | inr (r, e, d, c, w) ↦ inr (r, e, d, c, w, empty)
        ])
      ]

  binding_step-Grows :
      (binding : Option RoleBinding) (h : Trace)
      → Grows h (remove_finalizer_from_role_binding rbac binding manifest_work_finalizer h).1
  unfolding remove_finalizer_from_role_binding
  binding_step-Grows none h c g a = a
  binding_step-Grows (some b) h c g a =
      ground (arith, remove_finalizer-keep_if b.finalizers manifest_work_finalizer)

  finalize_releases :
      (r : Role) (binding : Option RoleBinding) (h : Trace)
      → r.deleting ≡ true
      → contains r.finalizers manifest_work_finalizer ≡ true
      → At
          (update_role (record r { finalizers = without r.finalizers }))
          h
          (finalize rbac (some r) binding h).1
  unfolding finalize pending_finalization
  finalize_releases r binding h deleting held =
      let updated : Role = record r { finalizers = without r.finalizers } in
      ground (
        arith,
        remove_finalizer-keep_if r.finalizers manifest_work_finalizer,
        binding_step-Grows binding (update_role updated ∷ h) (update_role updated) h
            (inl (refl, refl)),
      )

  -- With ManifestWorks left in a namespace that ends, or whose cluster does, and the finalizer on
  -- the role or the role binding, the run returns the error and calls nothing.
  pub sync_role_and_role_binding_blocked :
      (role : Option Role) (binding : Option RoleBinding) (ns : Namespace)
      (cluster : Option ManagedCluster) (h : Trace) (work : String) (works : List String)
      → (has_finalizer (role_meta role) manifest_work_finalizer ≡ true)
        ⊎ (has_finalizer (role_binding_meta binding) manifest_work_finalizer ≡ true)
      → Ends ns cluster
      → rbac.manifest_work_lister h ns.name ≡ ok (work ∷ works)
      → run role binding ns cluster h ≡ (err (works_left (length (work ∷ works)) ns.name), h)
  unfolding sync_role_and_role_binding
  sync_role_and_role_binding_blocked role binding ns cluster h work works held ends listed =
      ground arith

  -- A role that is being deleted loses the finalizer in a run that no ManifestWork stands against.
  pub sync_role_and_role_binding_releases :
      (r : Role) (binding : Option RoleBinding) (ns : Namespace) (cluster : Option ManagedCluster)
      (h : Trace)
      → r.deleting ≡ true
      → contains r.finalizers manifest_work_finalizer ≡ true
      → (Ends ns cluster → rbac.manifest_work_lister h ns.name ≡ ok [])
      → At
          (update_role (record r { finalizers = without r.finalizers }))
          h
          (run (some r) binding ns cluster h).1
  unfolding sync_role_and_role_binding has_finalizer
  sync_role_and_role_binding_releases r binding ns cluster h deleting held empty =
      let done = finalize_releases r binding h deleting held in ground (arith, done)
