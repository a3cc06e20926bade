-- ===== src/Helpers/Cleanup/Bindings.antt =====
-- `CleanUpGroupFromClusterRoleBindings` and `CleanUpGroupFromRoleBindings`: what becomes of the
-- listed bindings.
use ocm_registration.Base.{
  String, true, false, Bool-cases, ap, ◌==◌, length, List, [], ◌∷◌, ◌≡◌, ◌≢◌, refl, ◌⊎◌, inl, inr,
  nat_eq, string_eq, arith, All, length-keep_if-lt, eq-nil_of_length, keep_if-of_none, any,
}
use ocm_registration.Kube.{
  ok, Result-cases, Call, Trace, At, Grows, RbacApi, RoleBinding, delete_cluster_role_binding,
  update_cluster_role_binding, list_cluster_role_bindings, list_role_bindings, delete_role_binding,
  update_role_binding,
}
use ocm_registration.Helpers.Cleanup.{
  is_group, other_subjects, clean_up_cluster_role_binding, clean_up_cluster_role_binding_items,
  clean_up_group_from_cluster_role_bindings, clean_up_role_binding, clean_up_role_binding_items,
  clean_up_group_from_role_bindings,
}
use ocm_registration.Helpers.Cleanup.Each.{
  CleanedBy, TouchedBy, each, each-CleanedBy, each-TouchedBy, noted_call,
}
use ocm_registration.Helpers.Status.Retries.{Sends}

after_list : {c d : Call} {h g : Trace} {P : Type 0} → At c g (d ∷ h) ⊎ P → At c g h ⊎ (c ≡ d) ⊎ P
after_list (inl (inl (is, _))) = inr (inl is)
after_list (inl (inr old)) = inl old
after_list (inr new) = inr (inr new)

module _ (api : RbacApi) (group : String) where
  abbrev pub ClusterCleaned : Trace → RoleBinding → Type 0
  ClusterCleaned =
      CleanedBy (λ b. delete_cluster_role_binding b.name) update_cluster_role_binding group

  abbrev pub NamespaceCleaned : Trace → RoleBinding → Type 0
  NamespaceCleaned =
      CleanedBy (λ b. delete_role_binding b.namespace b.name) update_role_binding group

  clean_up_cluster_role_binding-ClusterCleaned :
      (b : RoleBinding) (h : Trace)
      → Grows h (clean_up_cluster_role_binding api group b h).1
        × ClusterCleaned (clean_up_cluster_role_binding api group b h).1 b
  unfolding clean_up_cluster_role_binding
  clean_up_cluster_role_binding-ClusterCleaned b h =
      let rest = other_subjects group b.subjects in
      let fewer = length-keep_if-lt (is_group group) b.subjects in
      let empty = eq-nil_of_length rest in
      (λ c g a. ground arith, (λ e. (h, ground arith), λ e n. (h, ground (arith, fewer, empty))))

  clean_up_role_binding-NamespaceCleaned :
      (b : RoleBinding) (h : Trace)
      → Grows h (clean_up_role_binding api group b h).1
        × NamespaceCleaned (clean_up_role_binding api group b h).1 b
  unfolding clean_up_role_binding
  clean_up_role_binding-NamespaceCleaned b h =
      let rest = other_subjects group b.subjects in
      let fewer = length-keep_if-lt (is_group group) b.subjects in
      let empty = eq-nil_of_length rest in
      (λ c g a. ground arith, (λ e. (h, ground arith), λ e n. (h, ground (arith, fewer, empty))))

  abbrev pub ClusterTouched : List RoleBinding → Call → Type 0
  ClusterTouched =
      TouchedBy (λ b. delete_cluster_role_binding b.name) update_cluster_role_binding group

  abbrev pub NamespaceTouched : List RoleBinding → Call → Type 0
  NamespaceTouched =
      TouchedBy (λ b. delete_role_binding b.namespace b.name) update_role_binding group

  rest_of-none :
      (b : RoleBinding)
      → length (other_subjects group b.subjects) ≡ 0
      → other_subjects group b.subjects ≡ []
  rest_of-none b e = eq-nil_of_length (other_subjects group b.subjects) e

  -- The rest is shorter only if the group was named.
  named_if_shorter :
      (b : RoleBinding)
      → (length (other_subjects group b.subjects) == length b.subjects) ≡ false
      → any (is_group group) b.subjects ≡ true
  named_if_shorter b shorter = elim (Bool-cases (any (is_group group) b.subjects)) [
    | inl named ↦ named
    | inr not_named ↦ absurd (
        ground (
          arith,
          shorter,
          ap (λ xs. length xs) (keep_if-of_none (is_group group) b.subjects not_named),
        ))
  ]

  clean_up_cluster_role_binding-ClusterTouched :
      (b : RoleBinding) (h : Trace)
      → Sends (ClusterTouched (b ∷ [])) h (clean_up_cluster_role_binding api group b h).1
  unfolding clean_up_cluster_role_binding
  clean_up_cluster_role_binding-ClusterTouched b h c g a =
      let rest = other_subjects group b.subjects in
      elim (Bool-cases (length rest == 0)) [
        | inl empty ↦
            let done =
              noted_call (delete_cluster_role_binding b.name)
                (λ h. api.delete_cluster_role_binding h b.name) "ClusterRoleBindingDeleted" c h g
                (ground (arith, empty, a)) in
            let none_left : rest ≡ [] = rest_of-none b (ground (arith, empty)) in
            elim done [
              | inl old ↦ inl old
              | inr (inl is) ↦ inr (b, inl refl, inl (is, none_left))
              | inr (inr is) ↦ inr (b, inl refl, inr (inr (_, is)))
            ]
        | inr some_left ↦ elim (Bool-cases (length rest == length b.subjects)) [
          | inl all_left ↦ inl (ground (arith, some_left, all_left))
          | inr shorter ↦
              let written = record b { subjects = rest } in
              let done =
                noted_call (update_cluster_role_binding written)
                  (λ h. api.update_cluster_role_binding h written) "ClusterRoleBindingUpdated" c h g
                  (ground (arith, some_left, shorter, a)) in
              elim done [
                | inl old ↦ inl old
                | inr (inl is) ↦ inr (
                  b,
                  inl refl,
                  inr (
                      inl (
                        is,
                        (λ e. absurd (ground (arith, e, some_left))),
                        named_if_shorter b shorter,
                      )),
                )
                | inr (inr is) ↦ inr (b, inl refl, inr (inr (_, is)))
              ]
        ]
      ]

  clean_up_role_binding-NamespaceTouched :
      (b : RoleBinding) (h : Trace)
      → Sends (NamespaceTouched (b ∷ [])) h (clean_up_role_binding api group b h).1
  unfolding clean_up_role_binding
  clean_up_role_binding-NamespaceTouched b h c g a =
      let rest = other_subjects group b.subjects in
      elim (Bool-cases (length rest == 0)) [
        | inl empty ↦
            let done =
              noted_call (delete_role_binding b.namespace b.name)
                (λ h. api.delete_role_binding h b.namespace b.name) "RoleBindingDeleted" c h g
                (ground (arith, empty, a)) in
            let none_left : rest ≡ [] = rest_of-none b (ground (arith, empty)) in
            elim done [
              | inl old ↦ inl old
              | inr (inl is) ↦ inr (b, inl refl, inl (is, none_left))
              | inr (inr is) ↦ inr (b, inl refl, inr (inr (_, is)))
            ]
        | inr some_left ↦ elim (Bool-cases (length rest == length b.subjects)) [
          | inl all_left ↦ inl (ground (arith, some_left, all_left))
          | inr shorter ↦
              let written = record b { subjects = rest } in
              let done =
                noted_call (update_role_binding written) (λ h. api.update_role_binding h written)
                  "RoleBindingUpdated" c h g (ground (arith, some_left, shorter, a)) in
              elim done [
                | inl old ↦ inl old
                | inr (inl is) ↦ inr (
                  b,
                  inl refl,
                  inr (
                      inl (
                        is,
                        (λ e. absurd (ground (arith, e, some_left))),
                        named_if_shorter b shorter,
                      )),
                )
                | inr (inr is) ↦ inr (b, inl refl, inr (inr (_, is)))
              ]
        ]
      ]

  cluster_items-each :
      (bs : List RoleBinding) (h : Trace)
      → clean_up_cluster_role_binding_items api group bs h
        ≡ each (clean_up_cluster_role_binding api group) bs h
  unfolding clean_up_cluster_role_binding_items each
  cluster_items-each [] h = refl
  cluster_items-each (b ∷ bs) h =
      elim (Result-cases (clean_up_cluster_role_binding api group b h).0) [
        | inr (_, failed) ↦ rw failed refl
        | inl (_, fine) ↦ rw fine (cluster_items-each bs _)
      ]

  items-each :
      (bs : List RoleBinding) (h : Trace)
      → clean_up_role_binding_items api group bs h ≡ each (clean_up_role_binding api group) bs h
  unfolding clean_up_role_binding_items each
  items-each [] h = refl
  items-each (b ∷ bs) h = elim (Result-cases (clean_up_role_binding api group b h).0) [
    | inr (_, failed) ↦ rw failed refl
    | inl (_, fine) ↦ rw fine (items-each bs _)
  ]

  pub cluster_bindings_cleaned :
      (h : Trace) {items : List RoleBinding}
      → api.list_cluster_role_bindings h ≡ ok items
      → (clean_up_group_from_cluster_role_bindings api group h).0 ≡ ok tt
      → All (ClusterCleaned (clean_up_group_from_cluster_role_bindings api group h).1) items
  unfolding clean_up_group_from_cluster_role_bindings
  cluster_bindings_cleaned h {items} listed e =
      rw (listed, cluster_items-each items (list_cluster_role_bindings ∷ h))
        (each-CleanedBy (clean_up_cluster_role_binding api group)
          (λ b. delete_cluster_role_binding b.name) update_cluster_role_binding group
          (λ b h. (clean_up_cluster_role_binding-ClusterCleaned b h).0)
          (λ b h. (clean_up_cluster_role_binding-ClusterCleaned b h).1) items
          (list_cluster_role_bindings ∷ h)
          (rw (listed, cluster_items-each items (list_cluster_role_bindings ∷ h)) at e))

  pub bindings_cleaned :
      (h : Trace) {items : List RoleBinding}
      → api.list_role_bindings h ≡ ok items
      → (clean_up_group_from_role_bindings api group h).0 ≡ ok tt
      → All (NamespaceCleaned (clean_up_group_from_role_bindings api group h).1) items
  unfolding clean_up_group_from_role_bindings
  bindings_cleaned h {items} listed e =
      rw (listed, items-each items (list_role_bindings ∷ h))
        (each-CleanedBy (clean_up_role_binding api group)
          (λ b. delete_role_binding b.namespace b.name) update_role_binding group
          (λ b h. (clean_up_role_binding-NamespaceCleaned b h).0)
          (λ b h. (clean_up_role_binding-NamespaceCleaned b h).1) items (list_role_bindings ∷ h)
          (rw (listed, items-each items (list_role_bindings ∷ h)) at e))

  cluster_bindings_touched :
      (h : Trace) {items : List RoleBinding}
      → api.list_cluster_role_bindings h ≡ ok items
      → Sends
          (λ c. (c ≡ list_cluster_role_bindings) ⊎ ClusterTouched items c)
          h
          (clean_up_group_from_cluster_role_bindings api group h).1
  unfolding clean_up_group_from_cluster_role_bindings
  cluster_bindings_touched h {items} listed c g a =
      let h' = list_cluster_role_bindings ∷ h in
      let there : At c g (each (clean_up_cluster_role_binding api group) items h').1 =
        rw (listed, cluster_items-each items h') at a in
      after_list (
        each-TouchedBy (clean_up_cluster_role_binding api group)
          (λ b. delete_cluster_role_binding b.name) update_cluster_role_binding group
          clean_up_cluster_role_binding-ClusterTouched items h' c g there)

  bindings_touched :
      (h : Trace) {items : List RoleBinding}
      → api.list_role_bindings h ≡ ok items
      → Sends
          (λ c. (c ≡ list_role_bindings) ⊎ NamespaceTouched items c)
          h
          (clean_up_group_from_role_bindings api group h).1
  unfolding clean_up_group_from_role_bindings
  bindings_touched h {items} listed c g a =
      let h' = list_role_bindings ∷ h in
      let there : At c g (each (clean_up_role_binding api group) items h').1 =
        rw (listed, items-each items h') at a in
      after_list (
        each-TouchedBy (clean_up_role_binding api group)
          (λ b. delete_role_binding b.namespace b.name) update_role_binding group
          clean_up_role_binding-NamespaceTouched items h' c g there)

  -- When the clean-up of a group from the ClusterRoleBindings and then that from the RoleBindings of
  -- all namespaces succeed, every listed binding that named the group is deleted or written without
  -- it, in calls of its run: deleted when no other subject is left, which is also the fate of a listed
  -- binding that had no subjects at all, and else written with the others. Each run calls nothing
  -- else but the listing and events, so that a listed binding that has subjects, and does not name the
  -- group, is left alone.
  pub clean_up_groups-Cleaned :
      (h : Trace) {items cluster_items : List RoleBinding}
      → let between = (clean_up_group_from_cluster_role_bindings api group h).1 in
        api.list_cluster_role_bindings h ≡ ok cluster_items
        → (clean_up_group_from_cluster_role_bindings api group h).0 ≡ ok tt
        → api.list_role_bindings between ≡ ok items
        → (clean_up_group_from_role_bindings api group between).0 ≡ ok tt
        → let end = (clean_up_group_from_role_bindings api group between).1 in
          All (ClusterCleaned between) cluster_items
          × All (NamespaceCleaned end) items
          × Sends (λ c. (c ≡ list_cluster_role_bindings) ⊎ ClusterTouched cluster_items c) h between
          × Sends (λ c. (c ≡ list_role_bindings) ⊎ NamespaceTouched items c) between end
  clean_up_groups-Cleaned h cluster_listed cluster_fine listed fine = (
    cluster_bindings_cleaned h cluster_listed cluster_fine,
    bindings_cleaned _ listed fine,
    cluster_bindings_touched h cluster_listed,
    bindings_touched _ listed,
  )

  clean_up_cluster_role_binding-unnamed :
      (b : RoleBinding) (h : Trace)
      → any (is_group group) b.subjects ≡ false
      → b.subjects ≢ []
      → clean_up_cluster_role_binding api group b h ≡ (ok tt, h)
  unfolding clean_up_cluster_role_binding
  clean_up_cluster_role_binding-unnamed b h none_named some_left =
      rw (keep_if-of_none (is_group group) b.subjects none_named)
        (ground (arith, eq-nil_of_length b.subjects))

  -- A listed ClusterRoleBinding that does not name the group, and has subjects, is left alone.
  abbrev Unnamed : RoleBinding → Type 0
  Unnamed b = (any (is_group group) b.subjects ≡ false) × (b.subjects ≢ [])

  clean_up_cluster_role_binding_items-Unnamed :
      (bs : List RoleBinding) (h : Trace)
      → All Unnamed bs
      → clean_up_cluster_role_binding_items api group bs h ≡ (ok tt, h)
  unfolding clean_up_cluster_role_binding_items
  clean_up_cluster_role_binding_items-Unnamed [] h _ = refl
  clean_up_cluster_role_binding_items-Unnamed (b ∷ bs) h ((u, v), rest) =
      rw (clean_up_cluster_role_binding-unnamed b h u v)
        (clean_up_cluster_role_binding_items-Unnamed bs h rest)

  -- When no listed ClusterRoleBinding names the group, and each has a subject, the run only lists.
  clean_up_group_from_cluster_role_bindings-Unnamed :
      (h : Trace) {items : List RoleBinding}
      → api.list_cluster_role_bindings h ≡ ok items
      → All Unnamed items
      → clean_up_group_from_cluster_role_bindings api group h
        ≡ (ok tt, list_cluster_role_bindings ∷ h)
  unfolding clean_up_group_from_cluster_role_bindings
  clean_up_group_from_cluster_role_bindings-Unnamed h {items} listed u =
      rw listed (clean_up_cluster_role_binding_items-Unnamed items _ u)
