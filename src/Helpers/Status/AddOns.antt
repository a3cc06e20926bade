-- ===== src/Helpers/Status/AddOns.antt =====
-- What the retried status update of an add-on sends.
use ocm_registration.Base.{
  String, Bool, [], ◌∷◌, some, ◌≡◌, refl, ◌⊎◌, inl, inr, arith, Bool-cases, subst, sym,
}
use ocm_registration.Kube.{
  Result, Exec, Trace, Call, At, Grows, Result-cases, Machinery, IsMachinery, SameCondition,
  AddOnApi, Condition, ManagedClusterAddOn, AddOnStatus, get_addon, update_addon_status,
}
use ocm_registration.Helpers.Status.Retries.{Sends, attempts-Grows, attempts-Sends, attempts_first}
use ocm_registration.Helpers.Status.{
  IsRetry, attempt_addon_status, update_managed_cluster_addon_status,
  update_managed_cluster_addon_status_fn,
}

-- The call is the read of the add-on, or a write of an add-on that has the condition, up to the
-- transition time.
abbrev pub Reports : Machinery → Condition → Call → Type 0
Reports m c (update_addon_status a) =
    (d : Condition) × (m.find_status_condition a.status.conditions c.type ≡ some d)
    × SameCondition c d
Reports m c (get_addon namespace name) = Unit
Reports m c _ = ⊥

module _ (m : Machinery) (k : IsMachinery m) (api : AddOnApi) (namespace name : String)
    (c : Condition) where
  abbrev attempt : Exec (AddOnStatus × Bool)
  attempt =
      attempt_addon_status m api namespace name (update_managed_cluster_addon_status_fn m c ∷ [])

  attempt_trace :
      (h : Trace)
      → ((attempt h).1 ≡ get_addon namespace name ∷ h)
        ⊎ ((a : ManagedClusterAddOn) × ((attempt h).1
              ≡ update_addon_status (record a {
                status = record a.status {
                  conditions = m.set_status_condition a.status.conditions c;
                };
              })
                ∷ get_addon namespace name
                ∷ h))
  unfolding attempt_addon_status update_managed_cluster_addon_status_fn
  attempt_trace h = elim (Result-cases (api.get h namespace name)) [
    | inr (e, gone) ↦ inl (rw gone refl)
    | inl (a, got) ↦
        let new : AddOnStatus = record a.status {
          conditions = m.set_status_condition a.status.conditions c;
        } in
        elim (Bool-cases (m.same_addon_status a.status new)) [
          | inl same ↦ inl (rw (got, same) refl)
          | inr differ ↦ inr (a, ground (arith, got, differ))
        ]
  ]

  attempt-Grows : (h : Trace) → Grows h (attempt h).1
  attempt-Grows h d g a = elim (attempt_trace h) [
    | inl read_only ↦ subst (At d g) (sym read_only) (inr a)
    | inr (_, both) ↦ subst (At d g) (sym both) (inr (inr a))
  ]

  attempt-Sends : (h : Trace) → Sends (Reports m c) h (attempt h).1
  attempt-Sends h d g a = elim (attempt_trace h) [
    | inl read_only ↦ elim (subst (At d g) read_only a) [
      | inl (e, _) ↦ inr (subst (Reports m c) (sym e) tt)
      | inr old ↦ inl old
    ]
    | inr (x, both) ↦ elim (subst (At d g) both a) [
      | inl (e, _) ↦ inr (subst (Reports m c) (sym e) (k.find-set x.status.conditions c))
      | inr (inl (e, _)) ↦ inr (subst (Reports m c) (sym e) tt)
      | inr (inr old) ↦ inl old
    ]
  ]

  attempt_reads : (h : Trace) → At (get_addon namespace name) h (attempt h).1
  attempt_reads h = elim (attempt_trace h) [
    | inl read_only ↦ subst (At (get_addon namespace name) h) (sym read_only) (inl (refl, refl))
    | inr (_, both) ↦ subst (At (get_addon namespace name) h) (sym both) (inr (inl (refl, refl)))
  ]

  module _ {retry : Exec (AddOnStatus × Bool) → Exec (AddOnStatus × Bool)} (r : IsRetry retry)
      (h : Trace) where
    abbrev pub update : Result (AddOnStatus × Bool) × Trace
    update =
        update_managed_cluster_addon_status m api retry namespace name
          (update_managed_cluster_addon_status_fn m c ∷ []) h

    pub update-Grows : Grows h update.1
    unfolding update_managed_cluster_addon_status
    update-Grows = rw r.retry_lem (attempts-Grows r.more attempt attempt-Grows h)

    pub update-Sends : Sends (Reports m c) h update.1
    unfolding update_managed_cluster_addon_status
    update-Sends = rw r.retry_lem (attempts-Sends (Reports m c) r.more attempt attempt-Sends h)

    pub update_reads : At (get_addon namespace name) h update.1
    unfolding update_managed_cluster_addon_status
    update_reads = rw r.retry_lem (
        attempts_first r.more attempt attempt-Grows h (get_addon namespace name) h
          (attempt_reads h))
