-- ===== src/ClientCert/Certificate/Laws.antt =====
-- Which certificates are valid, the period of a chain, and which requests count as approved.
use ocm_registration.Base.{
  ℕ, String, Bool, true, false, List, [], ◌∷◌, Option, none, some, ◌≡◌, ◌≢◌, ◌↔◌, refl, ◌⊎◌, inl,
  inr, ◌≤◌, ◌==◌, string_eq, arith, All, ltb, any, if◌then◌else◌, Option-cases,
}
use ocm_registration.Base.Dict.{Dict, lookup}
use ocm_registration.Kube.{ok, CsrCondition}
use ocm_registration.ClientCert.Certificate.{
  Cert, kubeconfig_file, tls_key_file, tls_cert_file, chain_valid, chain_period, narrow,
  is_certificate_valid, has_valid_hub_kubeconfig, get_cert_validity_period, is_denied, is_approved,
  approved_from, is_csr_approved,
}

not_expired_iff :
    (now : ℕ) (cs : List Cert)
    → (any (λ (x : Cert). ltb x.not_after now) cs ≡ false)
      ↔ All (λ (x : Cert). now ≤ x.not_after) cs
not_expired_iff now [] = (λ _. tt, λ _. refl)
not_expired_iff now (c ∷ cs) = ground (arith, not_expired_iff now cs)

-- Some certificate of the chain is for the subject, if one is asked for.
abbrev pub Names : Option String → List Cert → Type 0
Names none cs = Unit
Names (some common_name) cs = any (λ (x : Cert). x.common_name == common_name) cs ≡ true

chain_valid_iff :
    (now : ℕ) (subject : Option String) (certs : List Cert)
    → (chain_valid now subject certs ≡ ok true)
      ↔ ((certs ≢ []) × All (λ (x : Cert). now ≤ x.not_after) certs × Names subject certs)
chain_valid_iff now subject [] = (λ e. absurd (ground arith), λ (p, _, _). absurd (p refl))
chain_valid_iff now none (c ∷ cs) = ground (arith, not_expired_iff now (c ∷ cs))
chain_valid_iff now (some s) (c ∷ cs) = ground (arith, not_expired_iff now (c ∷ cs))

module _ (parse_certs : String → Option (List Cert)) where
  -- A certificate is valid exactly when it parses to a chain with a certificate in it, none of them
  -- has expired, and one is for the subject if a subject is given.
  pub is_certificate_valid_iff :
      (now : ℕ) (cert_data : String) (subject : Option String)
      → (is_certificate_valid parse_certs now cert_data subject ≡ ok true) ↔ (
          (certs : List Cert) × (parse_certs cert_data ≡ some certs)
          × (certs ≢ [])
          × All (λ (x : Cert). now ≤ x.not_after) certs
          × Names subject certs)
  unfolding is_certificate_valid
  is_certificate_valid_iff now cert_data subject = elim (Option-cases (parse_certs cert_data)) [
    | inl bad ↦ (
      λ e. absurd (ground (arith, bad, e)),
      λ (certs, good, p, q, r). absurd (ground (arith, bad, good)),
    )
    | inr (certs, good) ↦ (
      λ e.
          let (p, q, r) = (chain_valid_iff now subject certs).0 (ground (arith, good, e)) in
          (certs, good, p, q, r),
      λ (certs', good', p, q, r).
          ground (arith, (chain_valid_iff now subject certs').1 (p, q, r), good'),
    )
  ]

narrow_bounds :
    (b a : ℕ) (cs : List Cert)
    → let (nb, na) = narrow (b, a) cs in
      (b ≤ nb) × (na ≤ a) × All (λ (c : Cert). (c.not_before ≤ nb) × (na ≤ c.not_after)) cs
unfolding narrow
narrow_bounds b a [] = ground arith
narrow_bounds b a (c ∷ cs) = ground (
  arith,
  narrow_bounds (if ltb b c.not_before then c.not_before else b)
      (if ltb c.not_after a then c.not_after else a) cs,
)

approved_from_iff :
    (b : Bool) (cs : List CsrCondition)
    → (approved_from b cs ≡ true) ↔ (
        (any (λ (c : CsrCondition). is_denied c.type) cs ≡ false)
        × ((b ≡ true) ⊎ (any (λ (c : CsrCondition). is_approved c.type) cs ≡ true)))
unfolding approved_from
approved_from_iff b [] = ground arith
approved_from_iff b (c ∷ cs) = ground (arith, approved_from_iff b cs, approved_from_iff true cs)

-- A request counts as approved exactly when a condition approves it and none denies it, in any
-- order.
is_csr_approved_iff :
    (cs : List CsrCondition)
    → (is_csr_approved cs ≡ true) ↔ (
        (any (λ (c : CsrCondition). is_denied c.type) cs ≡ false)
        × (any (λ (c : CsrCondition). is_approved c.type) cs ≡ true))
unfolding is_csr_approved
is_csr_approved_iff cs = ground (arith, approved_from_iff false cs)

-- The period of a chain is a period of each of its certificates.
chain_period-All :
    (certs : List Cert) (b a : ℕ)
    → chain_period certs ≡ ok (b, a)
    → (certs ≢ []) × All (λ (c : Cert). (c.not_before ≤ b) × (a ≤ c.not_after)) certs
chain_period-All [] b a e = absurd (ground arith)
chain_period-All (c ∷ cs) b a e = ground (arith, narrow_bounds c.not_before c.not_after cs)

module _ (parse_certs : String → Option (List Cert)) where
  -- A secret without a certificate, or with a text that has no certificate in it, has no period.
  -- Otherwise its chain has one, and every certificate of the chain is valid throughout the period.
  get_cert_validity_period_lem :
      (contents : Dict String) (not_before not_after : ℕ)
      → get_cert_validity_period parse_certs contents ≡ ok (not_before, not_after)
      → (cert_data : String) × (certs : List Cert) × (lookup tls_cert_file contents
          ≡ some cert_data)
        × (parse_certs cert_data ≡ some certs)
        × (certs ≢ [])
        × All (λ (c : Cert). (c.not_before ≤ not_before) × (not_after ≤ c.not_after)) certs
  unfolding get_cert_validity_period
  get_cert_validity_period_lem contents nb na e =
      elim (Option-cases (lookup tls_cert_file contents)) [
        | inl bad ↦ absurd (ground (arith, bad, e))
        | inr (cert_data, has) ↦ elim (Option-cases (parse_certs cert_data)) [
          | inl bad ↦ absurd (ground (arith, has, bad, e))
          | inr (certs, good) ↦
              let (p, q) = chain_period-All certs nb na (ground (arith, has, good, e)) in
              (cert_data, certs, has, good, p, q)
        ]
      ]

  -- A hub kubeconfig secret is valid exactly when it has a kubeconfig, a key and a certificate, and
  -- the certificate parses to a chain with a certificate in it, none of them expired, and one for
  -- the subject if a subject is given.
  pub has_valid_hub_kubeconfig_iff :
      (now : ℕ) (contents : Dict String) (subject : Option String)
      → (has_valid_hub_kubeconfig parse_certs now contents subject ≡ true) ↔ (
          (config key cert_data : String) × (certs : List Cert) × (lookup kubeconfig_file contents
            ≡ some config)
          × (lookup tls_key_file contents ≡ some key)
          × (lookup tls_cert_file contents ≡ some cert_data)
          × (parse_certs cert_data ≡ some certs)
          × (certs ≢ [])
          × All (λ (x : Cert). now ≤ x.not_after) certs
          × Names subject certs)
  unfolding has_valid_hub_kubeconfig
  has_valid_hub_kubeconfig_iff now contents subject = (
    λ e. elim (Option-cases (lookup kubeconfig_file contents)) [
      | inl bad ↦ absurd (ground (arith, bad, e))
      | inr (config, has_config) ↦ elim (Option-cases (lookup tls_key_file contents)) [
        | inl bad ↦ absurd (ground (arith, has_config, bad, e))
        | inr (key, has_key) ↦ elim (Option-cases (lookup tls_cert_file contents)) [
          | inl bad ↦ absurd (ground (arith, has_config, has_key, bad, e))
          | inr (cert_data, has_cert) ↦
              let (certs, p, q, r, t) =
                (is_certificate_valid_iff parse_certs now cert_data subject).0
                  (ground (arith, has_config, has_key, has_cert, e)) in
              (config, key, cert_data, certs, has_config, has_key, has_cert, p, q, r, t)
        ]
      ]
    ],
    λ (config, key, cert_data, certs, has_config, has_key, has_cert, p, q, r, t).
        let valid =
          (is_certificate_valid_iff parse_certs now cert_data subject).1 (certs, p, q, r, t) in
        ground (arith, has_config, has_key, has_cert, valid),
  )
