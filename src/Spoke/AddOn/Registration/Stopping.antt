-- ===== src/Spoke/AddOn/Registration/Stopping.antt =====
-- What the loops that stop controllers do.
use ocm_registration.Base.{
  ℕ, String, Bool, true, false, List, [], ◌∷◌, Option, none, some, ◌≡◌, ◌≢◌, refl, inl, inr, arith,
  ◌==◌, string_eq, nat_eq, any, not, ◌&&◌, keep_if, Option-cases, Bool-cases,
}
use ocm_registration.Base.Dict.{Dict, lookup}
use ocm_registration.Kube.{SecretApi, Trace}
use ocm_registration.Spoke.AddOn.Configuration.{RegistrationConfig}
use ocm_registration.Spoke.AddOn.Registration.{
  State, Started, cancel, stop_registration, stop_unless,
}

-- The controller with the number runs.
abbrev pub Running : State → ℕ → Type 0
Running s i = any (λ (x : Started). x.id == i) s.running ≡ true

any-keep_if :
    (i id : ℕ) (xs : List Started)
    → any (λ (x : Started). x.id == i) (keep_if (λ (x : Started). not (x.id == id)) xs)
      ≡ (any (λ (x : Started). x.id == i) xs && not (i == id))
any-keep_if i id [] = refl
any-keep_if i id (x ∷ xs) = ground (arith, any-keep_if i id xs)

cancel-Running :
    (f : Option ℕ) (s : State) (i : ℕ) → Running (cancel f s) i → Running s i × (f ≢ some i)
unfolding cancel
cancel-Running none s i p = (p, λ q. absurd (ground (arith, q)))
cancel-Running (some id) s i p = ground (arith, any-keep_if i id s.running, p)

module _ (secrets : SecretApi) where
  -- The map is left as it is.
  pub stop_unless-configs :
      (keep : String → Bool) (d : Dict RegistrationConfig) (s : State) (h : Trace)
      → (stop_unless secrets keep d s h).1.configs ≡ s.configs
  unfolding stop_unless cancel
  stop_unless-configs keep [] s h = refl
  stop_unless-configs keep ((hash, c) ∷ rest) s h =
      let one = stop_registration secrets c s h in
      ground (
        arith,
        stop_unless-configs keep rest s h,
        stop_unless-configs keep rest one.1 one.2,
        Option-cases c.stop_func,
      )

  -- What still runs did so before, and is no controller of an entry that was to be stopped.
  pub stop_unless-Running :
      (keep : String → Bool) (d : Dict RegistrationConfig) (s : State) (h : Trace) (i : ℕ)
      → Running (stop_unless secrets keep d s h).1 i
      → Running s i
        × ((hash : String) (c : RegistrationConfig)
            → lookup hash d ≡ some c
            → keep hash ≡ false
            → c.stop_func ≢ some i)
  unfolding stop_unless lookup
  stop_unless-Running keep [] s h i p = (p, λ hash c e _. absurd (ground (arith, e)))
  stop_unless-Running keep ((key, d) ∷ rest) s h i p = elim (Bool-cases (keep key)) [
    | inl kept ↦
        let (before, others) = stop_unless-Running keep rest s h i (ground (arith, kept, p)) in
        (before, λ hash c e out. ground (arith, kept, e, out, others hash c))
    | inr stopped ↦
        let one = stop_registration secrets d s h in
        let (between, others) =
          stop_unless-Running keep rest one.1 one.2 i (ground (arith, stopped, p)) in
        let (before, other) = cancel-Running d.stop_func s i between in
        (before, λ hash c e out. ground (arith, e, out, others hash c, other))
  ]
