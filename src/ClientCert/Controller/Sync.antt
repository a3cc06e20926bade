-- ===== src/ClientCert/Controller/Sync.antt =====
-- What a whole sync does with the pending request: what is remembered, and when one is made.
use ocm_registration.Base.{
  ℕ, String, true, false, ◌∷◌, some, string_eq, ◌≡◌, ◌≢◌, ◌⊎◌, inl, inr, arith,
}
use ocm_registration.Kube.{
  ok, create_csr, event, Trace, At, Result-cases, Csr, Secret, SecretApi, CsrApi,
}
use ocm_registration.ClientCert.Controller.{
  Options, State, Crypto, new_csr, has_valid_client_certificate, data_from, sync_csr, save_secret,
  create_csr_for, needs_certificate, collect, request_new, get_client_secret, sync,
}
use ocm_registration.ClientCert.Controller.Requests.{
  WellFormed, IsDue, request_new-WellFormed, collect-WellFormed, needs_certificate-IsDue,
}

module _ (options : Options) (crypto : Crypto) (secrets : SecretApi) (csrs : CsrApi) where
  -- If the API server gives every request a name, a sync leaves a request and its key both
  -- remembered, or neither, whatever fails.
  pub sync-WellFormed :
      (now scale draw : ℕ) (s : State) (h : Trace)
      → ((g : Trace) (csr req : Csr) → csrs.create g csr ≡ ok req → req.name ≢ "")
      → WellFormed s
      → WellFormed (sync options crypto secrets csrs now scale draw s h).1
  unfolding sync
  sync-WellFormed now scale draw s h named wf =
      let getting = get_client_secret options crypto secrets csrs h in
      elim (Result-cases getting.0) [
        | inr (why, failed) ↦ ground (arith, failed, wf)
        | inl (secret, found) ↦ elim (string_eq.dec s.csr_name "") [
          | yes idle ↦ ground (
            arith,
            found,
            idle,
            request_new-WellFormed options crypto secrets csrs now scale draw secret s getting.1
                named idle wf,
          )
          | no pending ↦ ground (
            arith,
            found,
            pending,
            collect-WellFormed options crypto secrets csrs secret s getting.1 wf,
          )
        ]
      ]

  get_client_secret-uncreated :
      (csr : Csr) (h g : Trace)
      → At (create_csr csr) g (get_client_secret options crypto secrets csrs h).1
      → At (create_csr csr) g h
  unfolding get_client_secret
  get_client_secret-uncreated csr h g a = ground (arith, a)

  collect-uncreated :
      (csr : Csr) (secret : Secret) (s : State) (h g : Trace)
      → At (create_csr csr) g (collect options crypto secrets csrs s secret h).2
      → At (create_csr csr) g h
  unfolding collect sync_csr data_from save_secret
  collect-uncreated csr secret s h g a = ground (arith, a)

  needs_certificate-uncreated :
      (now scale draw : ℕ) (csr : Csr) (secret : Secret) (h g : Trace)
      → At
          (create_csr csr)
          g
          (needs_certificate options crypto secrets csrs now scale draw secret h).1
      → At (create_csr csr) g h
  unfolding needs_certificate
  needs_certificate-uncreated now scale draw csr secret h g a = ground (arith, a)

  request_new-IsDue :
      (now scale draw : ℕ) (csr : Csr) (secret : Secret) (s : State) (h g : Trace)
      → At (create_csr csr) g (request_new options crypto secrets csrs now scale draw s secret h).2
      → At (create_csr csr) g h ⊎ IsDue options crypto secrets csrs now scale draw secret
  unfolding request_new
  request_new-IsDue now scale draw csr secret s h g a =
      let need = needs_certificate options crypto secrets csrs now scale draw secret h in
      let before = needs_certificate-uncreated now scale draw csr secret h g in
      elim (Result-cases need.0) [
        | inr (why, bad) ↦ inl (before (ground (arith, bad, a)))
        | inl (false, no_need) ↦ inl (before (ground (arith, no_need, a)))
        | inl (true, due) ↦
            inr (needs_certificate-IsDue options crypto secrets csrs now scale draw secret h due)
      ]

  -- A sync asks for a certificate only while no request is pending, and only if the secret it read
  -- has no valid certificate or one without enough life left.
  pub sync-IsDue :
      (now scale draw : ℕ) (csr : Csr) (s : State) (h g : Trace)
      → At (create_csr csr) g (sync options crypto secrets csrs now scale draw s h).2
      → At (create_csr csr) g h
        ⊎ ((s.csr_name ≡ "")
            × (secret : Secret) × ((get_client_secret options crypto secrets csrs h).0 ≡ ok secret)
            × IsDue options crypto secrets csrs now scale draw secret)
  unfolding sync
  sync-IsDue now scale draw csr s h g a =
      let getting = get_client_secret options crypto secrets csrs h in
      let before = get_client_secret-uncreated csr h g in
      elim (Result-cases getting.0) [
        | inr (why, failed) ↦ inl (before (ground (arith, failed, a)))
        | inl (secret, found) ↦ elim (string_eq.dec s.csr_name "") [
          | yes idle ↦
              elim (request_new-IsDue now scale draw csr secret s getting.1 g
                (ground (arith, found, idle, a))) [
                  | inl earlier ↦ inl (before earlier)
                  | inr due ↦ inr (idle, secret, found, due)
                ]
          | no pending ↦ inl (
              before
                (collect-uncreated csr secret s getting.1 g (ground (arith, found, pending, a))))
        ]
      ]

  -- While none is pending and the secret has no valid certificate, a sync whose key, request and
  -- calls succeed ends with the new request and its key remembered, and the call made.
  pub sync-asks :
      (now scale draw : ℕ) (s : State) (secret : Secret) (key pem : String) (req : Csr) (h : Trace)
      → s.csr_name ≡ ""
      → (get_client_secret options crypto secrets csrs h).0 ≡ ok secret
      → has_valid_client_certificate options crypto secrets csrs now secret ≡ false
      → crypto.make_private_key ≡ ok key
      → crypto.make_csr key options.subject ≡ ok pem
      → ((g : Trace) (csr : Csr) → csrs.create g csr ≡ ok req)
      → let (r, s', h') = sync options crypto secrets csrs now scale draw s h in
        (r ≡ ok tt)
        × (s'.csr_name ≡ req.name)
        × (s'.key_data ≡ some key)
        × (g : Trace) × At (create_csr (new_csr options crypto secrets csrs pem)) g h'
  unfolding sync request_new needs_certificate create_csr_for
  sync-asks now scale draw s secret key pem req h idle found invalid made_key made_csr created =
      let getting = get_client_secret options crypto secrets csrs h in
      let g = event "NoValidCertificateFound" ∷ getting.1 in
      let csr = new_csr options crypto secrets csrs pem in
      (
        ground (arith, idle, found, invalid, made_key, made_csr, created g csr),
        ground (arith, idle, found, invalid, made_key, made_csr, created g csr),
        ground (arith, idle, found, invalid, made_key, made_csr, created g csr),
        g,
        ground (arith, idle, found, invalid, made_key, made_csr, created g csr),
      )
