-- ===== src/Spoke/AddOn/Registration/Deletes.antt =====
-- Which secrets the loops that stop controllers delete.
use ocm_registration.Base.{
  String, Bool, false, [], ◌∷◌, ◌≡◌, refl, ◌⊎◌, inl, inr, arith, Bool-cases, sym, subst,
}
use ocm_registration.Base.Dict.{Dict}
use ocm_registration.Kube.{delete_secret, Call, Trace, At, Grows, SecretApi}
use ocm_registration.Spoke.AddOn.Configuration.{RegistrationConfig}
use ocm_registration.Spoke.AddOn.Registration.{State, stop_registration, stop_unless}

abbrev pub IsEntry : String → RegistrationConfig → Dict RegistrationConfig → Type 0
IsEntry hash c [] = ⊥
IsEntry hash c ((k, d) ∷ rest) = ((hash ≡ k) × (c ≡ d)) ⊎ IsEntry hash c rest

-- The calls that are made are the deletions of the secrets of the unwanted entries, each of which is
-- made.
abbrev pub Deletes : (String → Type 0) → Dict RegistrationConfig → Trace → Trace → Type 0
Deletes unwanted d h h' =
    ((call : Call) (g : Trace)
      → At call g h'
      → At call g h
        ⊎ ((hash : String) × (c : RegistrationConfig) × IsEntry hash c d
            × unwanted hash
            × (call ≡ delete_secret c.installation_namespace c.secret_name)))
    × ((hash : String) (c : RegistrationConfig)
        → IsEntry hash c d
        → unwanted hash
        → (g : Trace) × At (delete_secret c.installation_namespace c.secret_name) g h')

kept-Deletes :
    (unwanted : String → Type 0) (key : String) (d : RegistrationConfig)
    (rest : Dict RegistrationConfig) (h h' : Trace)
    → (unwanted key → ⊥)
    → Deletes unwanted rest h h'
    → Deletes unwanted ((key, d) ∷ rest) h h'
kept-Deletes unwanted key d rest h h' wanted (only, all) = (
  λ call g a. elim (only call g a) [
    | inl before ↦ inl before
    | inr (hash, c, e, out, same) ↦ inr (hash, c, inr e, out, same)
  ],
  λ hash c e out. elim e [
    | inl (is, _) ↦ absurd (wanted (subst unwanted is out))
    | inr e' ↦ all hash c e' out
  ],
)

stopped-Deletes :
    (unwanted : String → Type 0) (key : String) (d : RegistrationConfig)
    (rest : Dict RegistrationConfig) (h h' : Trace)
    → let h₁ = delete_secret d.installation_namespace d.secret_name ∷ h in
      unwanted key
      → Grows h₁ h'
      → Deletes unwanted rest h₁ h'
      → Deletes unwanted ((key, d) ∷ rest) h h'
stopped-Deletes unwanted key d rest h h' unwanted_key grows (only, all) = (
  λ call g a. elim (only call g a) [
    | inl (inl (is, _)) ↦ inr (key, d, inl (refl, refl), unwanted_key, is)
    | inl (inr before) ↦ inl before
    | inr (hash, c, e, out, same) ↦ inr (hash, c, inr e, out, same)
  ],
  λ hash c e out. elim e [
    | inl (_, same) ↦
        subst
          (λ (x : RegistrationConfig).
            (g : Trace) × At (delete_secret x.installation_namespace x.secret_name) g h')
          (sym same) (h, grows _ h (inl (refl, refl)))
    | inr e' ↦ all hash c e' out
  ],
)

module _ (secrets : SecretApi) where
  stop_unless-Grows :
      (keep : String → Bool) (d : Dict RegistrationConfig) (s : State) (h : Trace)
      → Grows h (stop_unless secrets keep d s h).2
  unfolding stop_unless stop_registration
  stop_unless-Grows keep [] s h c g a = a
  stop_unless-Grows keep ((hash, d) ∷ rest) s h c g a = elim (Bool-cases (keep hash)) [
    | inl kept ↦ ground (arith, kept, stop_unless-Grows keep rest s h c g a)
    | inr stopped ↦
        let one = stop_registration secrets d s h in
        ground (arith, stopped, stop_unless-Grows keep rest one.1 one.2 c g (inr a))
  ]

  pub stop_unless-Deletes :
      (keep : String → Bool) (d : Dict RegistrationConfig) (s : State) (h : Trace)
      → Deletes (λ hash. keep hash ≡ false) d h (stop_unless secrets keep d s h).2
  unfolding stop_unless stop_registration
  stop_unless-Deletes keep [] s h = (λ call g a. inl a, λ hash c e out. absurd e)
  stop_unless-Deletes keep ((key, d) ∷ rest) s h = elim (Bool-cases (keep key)) [
    | inl kept ↦
        let end : (stop_unless secrets keep ((key, d) ∷ rest) s h).2
            ≡ (stop_unless secrets keep rest s h).2 =
          ground (arith, kept) in
        subst (Deletes (λ hash. keep hash ≡ false) ((key, d) ∷ rest) h) (sym end) (
          kept-Deletes (λ hash. keep hash ≡ false) key d rest h _ (λ out. ground (arith, kept, out))
            (stop_unless-Deletes keep rest s h))
    | inr stopped ↦
        let one = stop_registration secrets d s h in
        let end : (stop_unless secrets keep ((key, d) ∷ rest) s h).2
            ≡ (stop_unless secrets keep rest one.1 one.2).2 =
          ground (arith, stopped) in
        subst (Deletes (λ hash. keep hash ≡ false) ((key, d) ∷ rest) h) (sym end) (
          stopped-Deletes (λ hash. keep hash ≡ false) key d rest h _ stopped
            (stop_unless-Grows keep rest one.1 one.2) (stop_unless-Deletes keep rest one.1 one.2))
  ]

pub Deletes-map :
    (p q : String → Type 0) (d : Dict RegistrationConfig) (h h' : Trace)
    → ((hash : String) → p hash → q hash)
    → ((hash : String) → q hash → p hash)
    → Deletes p d h h'
    → Deletes q d h h'
Deletes-map p q d h h' to from (only, all) = (
  λ call g a. elim (only call g a) [
    | inl before ↦ inl before
    | inr (hash, c, e, out, same) ↦ inr (hash, c, e, to hash out, same)
  ],
  λ hash c e out. all hash c e (from hash out),
)

pub Deletes-none :
    (q : String → Type 0) (d : Dict RegistrationConfig) (h : Trace)
    → ((hash : String) → q hash → ⊥)
    → Deletes q d h h
Deletes-none q d h never = (λ call g a. inl a, λ hash c e out. absurd (never hash out))
