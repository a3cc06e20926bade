-- ===== src/Helpers/Cleanup/Each.antt =====
-- A loop over the listed bindings that ends at the first error.
use ocm_registration.Base.{
  String, true, List, [], ◌∷◌, ◌≡◌, ◌≢◌, refl, sym, subst, ◌⊎◌, inl, inr, nat_eq, string_eq, arith,
  All, any,
}
use ocm_registration.Kube.{
  Result, ok, Result-cases, Exec, pure, ◌>>◌, Call, event, request, record_event, Trace, At, Grows,
  RoleBinding,
}
use ocm_registration.Helpers.Status.Retries.{Sends}
use ocm_registration.Helpers.Cleanup.{is_group, other_subjects}

abbrev pub Listed : RoleBinding → List RoleBinding → Type 0
Listed b [] = ⊥
Listed b (x ∷ xs) = (b ≡ x) ⊎ Listed b xs

-- What a run with the trace `h` did about a listed binding: deleted it if no subject but the group is
-- left, wrote it with the other subjects if it named the group, else nothing.
abbrev pub CleanedBy :
    (RoleBinding → Call) → (RoleBinding → Call) → String → Trace → RoleBinding → Type 0
CleanedBy delete update group h b =
    let rest = other_subjects group b.subjects in
    (rest ≡ [] → (g : Trace) × At (delete b) g h)
    × (rest ≢ []
        → any (is_group group) b.subjects ≡ true
        → (g : Trace) × At (update (record b { subjects = rest })) g h)

module _ (delete update : RoleBinding → Call) (group : String) (h h' : Trace) (p : Grows h h') where
  CleanedBy-Grows :
      (b : RoleBinding) → CleanedBy delete update group h b → CleanedBy delete update group h' b
  CleanedBy-Grows b (gone, written) =
      (λ e. let (g, a) = gone e in (g, p _ g a), λ e n. let (g, a) = written e n in (g, p _ g a))

  pub All-CleanedBy-Grows :
      (bs : List RoleBinding)
      → All (CleanedBy delete update group h) bs
      → All (CleanedBy delete update group h') bs
  All-CleanedBy-Grows [] _ = tt
  All-CleanedBy-Grows (b ∷ bs) (c, cs) = (CleanedBy-Grows b c, All-CleanedBy-Grows bs cs)

-- What a run may do about some listed binding: delete it if no subject but the group is left, or write
-- it with the other subjects if it named the group.
abbrev pub TouchedBy :
    (RoleBinding → Call) → (RoleBinding → Call) → String → List RoleBinding → Call → Type 0
TouchedBy delete update group items c =
    (b : RoleBinding) × Listed b items
    × (((c ≡ delete b) × (other_subjects group b.subjects ≡ []))
        ⊎ ((c ≡ update (record b { subjects = other_subjects group b.subjects }))
            × (other_subjects group b.subjects ≢ [])
            × (any (is_group group) b.subjects ≡ true))
        ⊎ ((reason : String) × (c ≡ event reason)))

-- A call and then an event add nothing else to a trace.
pub noted_call :
    {A : Type 0} (call : Call) (answer : Trace → Result A) (reason : String) (c : Call)
    (h g : Trace)
    → At c g ((request call answer >> record_event reason) h).1
    → At c g h ⊎ (c ≡ call) ⊎ (c ≡ event reason)
noted_call call answer reason c h g a = elim (Result-cases (answer h)) [
  | inl (x, good) ↦
      let there : At c g (event reason ∷ call ∷ h) = ground (arith, good, a) in
      elim there [
        | inl (is, _) ↦ inr (inr is)
        | inr (inl (is, _)) ↦ inr (inl is)
        | inr (inr old) ↦ inl old
      ]
  | inr (e, bad) ↦
      let there : At c g (call ∷ h) = ground (arith, bad, a) in
      elim there [ inl (is, _) ↦ inr (inl is) | inr old ↦ inl old ]
]

-- A loop over bindings that ends at the first error.
module _ (one : RoleBinding → Exec (Unit {0})) where
  unfoldable pub each : List RoleBinding → Exec (Unit {0})
  each [] = pure tt
  each (b ∷ bs) = do one b; each bs

  module _ (delete update : RoleBinding → Call) (group : String)
      (grows : (b : RoleBinding) (h : Trace) → Grows h (one b h).1)
      (cleans : (b : RoleBinding) (h : Trace) → CleanedBy delete update group (one b h).1 b) where
    each-Grows : (bs : List RoleBinding) (h : Trace) → Grows h (each bs h).1
    unfolding each
    each-Grows [] h c g a = a
    each-Grows (b ∷ bs) h c g a = elim (Result-cases (one b h).0) [
      | inr (_, failed) ↦ rw failed (grows b h c g a)
      | inl (_, fine) ↦ rw fine (each-Grows bs _ c g (grows b h c g a))
    ]

    each_step :
        (b : RoleBinding) (bs : List RoleBinding) (h : Trace)
        → (each (b ∷ bs) h).0 ≡ ok tt
        → each (b ∷ bs) h ≡ each bs (one b h).1
    unfolding each
    each_step b bs h e = elim (Result-cases (one b h).0) [
      | inl (_, fine) ↦ rw fine refl
      | inr (_, failed) ↦ absurd (ground (arith, failed, e))
    ]

    pub each-CleanedBy :
        (bs : List RoleBinding) (h : Trace)
        → (each bs h).0 ≡ ok tt
        → All (CleanedBy delete update group (each bs h).1) bs
    each-CleanedBy [] h e = tt
    each-CleanedBy (b ∷ bs) h e =
        let h' = (one b h).1 in
        let step = each_step b bs h e in
        subst
          (λ (r : Result (Unit {0}) × Trace).
            CleanedBy delete update group r.1 b × All (CleanedBy delete update group r.1) bs)
          (sym step)
          (
            CleanedBy-Grows delete update group h' _ (each-Grows bs h') b (cleans b h),
            each-CleanedBy bs h' (subst (λ (r : Result (Unit {0}) × Trace). r.0 ≡ ok tt) step e),
          )

  module _ (delete update : RoleBinding → Call) (group : String)
      (touches : (b : RoleBinding) (h : Trace)
        → Sends (TouchedBy delete update group (b ∷ [])) h (one b h).1) where
    widened :
        (b : RoleBinding) (bs : List RoleBinding) (c : Call)
        → TouchedBy delete update group (b ∷ []) c
        → TouchedBy delete update group (b ∷ bs) c
    widened b bs c (x, inl same, what) = (x, inl same, what)
    widened b bs c (x, inr nowhere, what) = absurd nowhere

    pub each-TouchedBy :
        (bs : List RoleBinding) (h : Trace)
        → Sends (TouchedBy delete update group bs) h (each bs h).1
    unfolding each
    each-TouchedBy [] h c g a = inl a
    each-TouchedBy (b ∷ bs) h c g a = elim (Result-cases (one b h).0) [
      | inr (_, failed) ↦ elim (touches b h c g (subst (At c g) (rw failed refl) a)) [
        | inl old ↦ inl old
        | inr new ↦ inr (widened b bs c new)
      ]
      | inl (_, fine) ↦ elim (each-TouchedBy bs (one b h).1 c g (subst (At c g) (rw fine refl) a)) [
        | inr (x, there, what) ↦ inr (x, inr there, what)
        | inl before ↦ elim (touches b h c g before) [
          | inl old ↦ inl old
          | inr new ↦ inr (widened b bs c new)
        ]
      ]
    ]
