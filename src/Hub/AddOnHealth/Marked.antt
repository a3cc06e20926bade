-- ===== src/Hub/AddOnHealth/Marked.antt =====
-- Which add-ons are marked, and with what.
use ocm_registration.Base.{
  String, Bool, true, false, List, [], ◌∷◌, some, ◌≡◌, refl, ◌⊎◌, inl, inr, arith, All,
  Option-cases, subst, sym,
}
use ocm_registration.Kube.{
  Err, Result, ok, err, Result-cases, event, get_addon, Trace, Exec, Call, At, Grows, Machinery,
  IsMachinery, ManagedCluster, ManagedClusterAddOn, AddOnStatus, Condition, condition_unknown,
  same_status, ClusterApi, AddOnApi,
}
use ocm_registration.Helpers.Status.{IsRetry}
use ocm_registration.Helpers.Status.Retries.{Sends}
use ocm_registration.Helpers.Status.AddOns.{
  Reports, update, update-Grows, update-Sends, update_reads,
}
use ocm_registration.Hub.Lease.{available}
use ocm_registration.Hub.AddOnHealth.{addon_condition, noted, mark, mark_all, sync}

-- A call of a run that marks with the condition, of the type of an add-on's, or an event.
abbrev pub Marks : Machinery → Condition → Call → Type 0
Marks m c call =
    ((d : Condition) × (d.type ≡ "Available")
      × (d.status ≡ c.status)
      × (d.reason ≡ c.reason)
      × (d.message ≡ c.message)
      × Reports m d call)
    ⊎ ((reason : String) × (call ≡ event reason))

module _ (m : Machinery) (k : IsMachinery m) (clusters : ClusterApi) (addons : AddOnApi)
    {retry : Exec (AddOnStatus × Bool) → Exec (AddOnStatus × Bool)} (r : IsRetry retry) where
  noted_trace :
      (out : Result (AddOnStatus × Bool) × Trace)
      → ((noted m clusters addons retry out).1 ≡ out.1)
        ⊎ ((noted m clusters addons retry out).1 ≡ event "ManagedClusterAddOnStatusUpdated" ∷ out.1)
  noted_trace (err e, h) = inl refl
  noted_trace (ok (status, false), h) = inl refl
  noted_trace (ok (status, true), h) = inr refl

  -- The add-on is tried, what is done is a mark, and what was done stays.
  abbrev pub Tries : Condition → ManagedClusterAddOn → Trace → Trace → Type 0
  Tries c a h h' =
      Grows h h' × ((g : Trace) × At (get_addon a.namespace a.name) g h') × Sends (Marks m c) h h'

  mark-Tries :
      (c : Condition) (a : ManagedClusterAddOn) (h : Trace)
      → Tries c a h (mark m clusters addons retry c a h).1
  unfolding mark
  mark-Tries c a h =
      let out = update m k addons a.namespace a.name (addon_condition c) r h in
      let grows = update-Grows m k addons a.namespace a.name (addon_condition c) r h in
      let sends = update-Sends m k addons a.namespace a.name (addon_condition c) r h in
      let reads = update_reads m k addons a.namespace a.name (addon_condition c) r h in
      let marks : Sends (Marks m c) h out.1 = λ d g at_d. (elim (sends d g at_d) [
        | inl old ↦ inl old
        | inr new ↦ inr (inl (addon_condition c, refl, refl, refl, refl, new))
      ]) in
      elim (noted_trace out) [
        | inl same ↦ subst (Tries c a h) (sym same) (grows, (h, reads), marks)
        | inr more ↦ subst (Tries c a h) (sym more) (
          λ d g at_d. inr (grows d g at_d),
          (h, inr reads),
          λ d g at_d. (elim at_d [
            | inl (e, _) ↦ inr (inr ("ManagedClusterAddOnStatusUpdated", e))
            | inr before ↦ marks d g before
          ]),
        )
      ]

  mark_all-Tries :
      (c : Condition) (found : List ManagedClusterAddOn) (h : Trace)
      → let h' = (mark_all m clusters addons retry c found h).1 in
        Grows h h'
        × All
            (λ (a : ManagedClusterAddOn). (g : Trace) × At (get_addon a.namespace a.name) g h')
            found
        × Sends (Marks m c) h h'
  unfolding mark_all
  mark_all-Tries c [] h = (λ d g at_d. at_d, tt, λ d g at_d. inl at_d)
  mark_all-Tries c (a ∷ rest) h =
      let h' = (mark m clusters addons retry c a h).1 in
      let (grows, (g', reads), sends) = mark-Tries c a h in
      let (grows', all, sends') = mark_all-Tries c rest h' in
      (
        λ d g at_d. grows' d g (grows d g at_d),
        ((g', grows' _ _ reads), all),
        λ d g at_d. (elim (sends' d g at_d) [ inl before ↦ sends d g before | inr new ↦ inr new ]),
      )

  -- If the cluster's availability is unknown, every add-on that the lister has is tried, whatever
  -- errors the others had, and all that a run does is read add-ons, record events, and write add-ons
  -- whose condition of type "Available" has the status, the reason and the message of the cluster's.
  pub sync-Marks :
      (name : String) (h : Trace) (cluster : ManagedCluster) (c : Condition)
      (found : List ManagedClusterAddOn)
      → clusters.lister_get h name ≡ ok cluster
      → m.find_status_condition cluster.status.conditions available ≡ some c
      → c.status ≡ condition_unknown
      → addons.lister_list h name ≡ ok found
      → let h' = (sync m clusters addons retry name h).1 in
        All
          (λ (a : ManagedClusterAddOn). (g : Trace) × At (get_addon a.namespace a.name) g h')
          found
        × Sends (Marks m c) h h'
  unfolding sync
  sync-Marks name h cluster c found got has is listed =
      let (_, all, sends) = mark_all-Tries c found h in
      let unknown : same_status c.status condition_unknown ≡ true = ground (arith, is) in
      rw (got, has, unknown, listed) (all, sends)

  -- Otherwise a run makes no call: if the cluster is not found or cannot be read, has no such
  -- condition, or one that is not unknown. It fails only if the cluster cannot be read.
  pub sync_leaves :
      (name : String) (h : Trace)
      → ((cluster : ManagedCluster) (c : Condition)
          → clusters.lister_get h name ≡ ok cluster
          → m.find_status_condition cluster.status.conditions available ≡ some c
          → same_status c.status condition_unknown ≡ false)
      → ((sync m clusters addons retry name h).1 ≡ h)
        × ((e : Err)
            → (sync m clusters addons retry name h).0 ≡ err e
            → clusters.lister_get h name ≡ err e)
  unfolding sync
  sync_leaves name h known = elim (Result-cases (clusters.lister_get h name)) [
    | inr (e, missing) ↦ ground (arith, missing)
    | inl (cluster, got) ↦
        elim (Option-cases (m.find_status_condition cluster.status.conditions available)) [
          | inl none' ↦ ground (arith, got, none')
          | inr (c, has) ↦ ground (arith, got, has, known cluster c got has)
        ]
  ]
