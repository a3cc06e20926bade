-- ===== src/ClientCert/Controller/Written.antt =====
-- What the controller writes to the secret.
use ocm_registration.Base.{
  ℕ, String, true, [], ◌∷◌, Option, none, some, string_eq, ◌≡◌, ◌≢◌, ◌⊎◌, inl, inr, refl, arith, ap,
  ◌∙◌,
}
use ocm_registration.Base.Dict.{Dict, insert}
use ocm_registration.Kube.{
  Err, is_not_found, Result, ok, err, Call, create_secret, update_secret, get_csr, Trace, At,
  Result-cases, Csr, Secret, SecretApi, CsrApi,
}
use ocm_registration.ClientCert.Certificate.{tls_key_file, tls_cert_file, is_csr_approved}
use ocm_registration.ClientCert.Controller.{
  Options, State, Crypto, append, data_from, sync_csr, save_secret, saved, collected, new_secret,
  create_csr_for, needs_certificate, collect, request_new, get_client_secret, sync,
}

-- The request is the one of the remembered name, as the cache has it, or the server if the cache does
-- not find it.
abbrev pub IsPending : CsrApi → State → Csr → Type 0
IsPending csrs s csr =
    (h : Trace) × ((csrs.lister_get h s.csr_name ≡ ok csr)
      ⊎ ((e : Err) × (csrs.lister_get h s.csr_name ≡ err e)
          × (is_not_found e ≡ true)
          × (csrs.get h s.csr_name ≡ ok csr)))

-- The contents are the certificate of an approved request of the remembered name, with the key that
-- the controller remembers, and the additional data on top.
abbrev pub IsIssued : Options → Crypto → CsrApi → State → Secret → Type 0
IsIssued options crypto csrs s secret =
    (csr : Csr) × (key : String) × IsPending csrs s csr
    × (s.key_data ≡ some key)
    × (is_csr_approved csr.conditions ≡ true)
    × (csr.certificate ≢ "")
    × (crypto.key_matches csr.certificate key ≡ true)
    × (secret.contents
        ≡ append (insert tls_key_file key (insert tls_cert_file csr.certificate []))
            options.additional_secret_data)

abbrev Writes : Secret → Call → Type 0
Writes secret c = (c ≡ create_secret secret) ⊎ (c ≡ update_secret secret)

module _ (options : Options) (crypto : Crypto) (secrets : SecretApi) (csrs : CsrApi) where
  data_from_lem :
      (key : Option String) (csr : Csr) (h : Trace) (contents : Dict String)
      → (data_from options crypto secrets csrs key csr h).0 ≡ ok (some contents)
      → (k : String) × (key ≡ some k)
        × (is_csr_approved csr.conditions ≡ true)
        × (csr.certificate ≢ "")
        × (crypto.key_matches csr.certificate k ≡ true)
        × (contents ≡ insert tls_key_file k (insert tls_cert_file csr.certificate []))
  unfolding data_from
  data_from_lem none csr h contents e = absurd (ground (arith, e))
  data_from_lem (some k) csr h contents e =
      (k, refl, ground (arith, e), ground (arith, e), ground (arith, e), ground (arith, e))

  sync_csr_lem :
      (s : State) (h : Trace) (contents : Dict String)
      → (sync_csr options crypto secrets csrs s h).0 ≡ ok (some contents)
      → (csr : Csr) × (g : Trace) × IsPending csrs s csr
        × ((data_from options crypto secrets csrs s.key_data csr g).0 ≡ ok (some contents))
  unfolding sync_csr
  sync_csr_lem s h contents e = elim (Result-cases (csrs.lister_get h s.csr_name)) [
    | inl (csr, found) ↦ (csr, h, (h, inl found), ground (arith, found, e))
    | inr (why, missing) ↦
        let answer = csrs.get h s.csr_name in
        elim (Result-cases answer) [
          | inl (csr, found) ↦ (
            csr,
            get_csr s.csr_name ∷ h,
            (h, inr (why, missing, ground (arith, missing, e), found)),
            ground (arith, missing, found, e),
          )
          | inr (why', missing') ↦ absurd (ground (arith, missing, missing', e))
        ]
  ]

  -- A write that was made after `h` is the one of `save_secret`.
  save_secret_lem :
      (written saved : Secret) (c : Call) (h g : Trace)
      → Writes written c
      → At c g (save_secret options crypto secrets csrs saved h).1
      → At c g h ⊎ (written ≡ saved)
  unfolding save_secret
  save_secret_lem written saved c h g (inl w) a = ground (arith, w, a)
  save_secret_lem written saved c h g (inr w) a = ground (arith, w, a)

  sync_csr-unwritten :
      (written : Secret) (s : State) (c : Call) (h g : Trace)
      → Writes written c
      → At c g (sync_csr options crypto secrets csrs s h).1
      → At c g h
  unfolding sync_csr data_from
  sync_csr-unwritten written s c h g (inl w) a = ground (arith, w, a)
  sync_csr-unwritten written s c h g (inr w) a = ground (arith, w, a)

  get_client_secret-unwritten :
      (written : Secret) (c : Call) (h g : Trace)
      → Writes written c
      → At c g (get_client_secret options crypto secrets csrs h).1
      → At c g h
  unfolding get_client_secret
  get_client_secret-unwritten written c h g (inl w) a = ground (arith, w, a)
  get_client_secret-unwritten written c h g (inr w) a = ground (arith, w, a)

  request_new-unwritten :
      (now scale draw : ℕ) (written secret : Secret) (s : State) (c : Call) (h g : Trace)
      → Writes written c
      → At c g (request_new options crypto secrets csrs now scale draw s secret h).2
      → At c g h
  unfolding request_new needs_certificate create_csr_for
  request_new-unwritten now scale draw written secret s c h g (inl w) a = ground (arith, w, a)
  request_new-unwritten now scale draw written secret s c h g (inr w) a = ground (arith, w, a)

  saved-unwritten :
      (written : Secret) (s : State) (r : Result Secret) (c : Call) (h g : Trace)
      → Writes written c
      → At c g (saved options crypto secrets csrs s r h).2
      → At c g h
  saved-unwritten written s (err e) c h g w a = a
  saved-unwritten written s (ok _) c h g (inl w) a = ground (arith, w, a)
  saved-unwritten written s (ok _) c h g (inr w) a = ground (arith, w, a)

  collected-written :
      (written secret : Secret) (s : State) (r : Result (Option (Dict String))) (c : Call)
      (h g : Trace)
      → Writes written c
      → At c g (collected options crypto secrets csrs s secret r h).2
      → At c g h
        ⊎ ((contents : Dict String) × (r ≡ ok (some contents))
            × (written.contents ≡ append contents options.additional_secret_data))
  collected-written written secret s (err e) c h g w a = inl a
  collected-written written secret s (ok none) c h g w a = inl a
  collected-written written secret s (ok (some contents)) c h g w a =
      let stored =
        new_secret options crypto secrets csrs secret
          (append contents options.additional_secret_data) in
      let saving = save_secret options crypto secrets csrs stored h in
      elim (save_secret_lem written stored c h g w
        (saved-unwritten written s saving.0 c saving.1 g w a)) [
          | inl before ↦ inl before
          | inr same ↦ inr (contents, refl, ap (λ (x : Secret). x.contents) same)
        ]

  collect-IsIssued :
      (written secret : Secret) (s : State) (c : Call) (h g : Trace)
      → Writes written c
      → At c g (collect options crypto secrets csrs s secret h).2
      → At c g h ⊎ IsIssued options crypto csrs s written
  unfolding collect
  collect-IsIssued written secret s c h g w a =
      let pending = sync_csr options crypto secrets csrs s h in
      elim (collected-written written secret s pending.0 c pending.1 g w a) [
        | inl before ↦ inl (sync_csr-unwritten written s c h g w before)
        | inr (contents, done, same) ↦
            let (csr, at_call, pending_csr, fine) = sync_csr_lem s h contents done in
            let (key, kept, approved, signed, matches, from) =
              data_from_lem s.key_data csr at_call contents fine in
            inr (
              csr,
              key,
              pending_csr,
              kept,
              approved,
              signed,
              matches,
              same ∙ ap (λ x. append x options.additional_secret_data) from,
            )
      ]

  -- Every secret that a sync writes holds the certificate of a request that the cache has under the
  -- remembered name, or else the server, and that is approved, together with the remembered key, which
  -- matches it, and the additional data on top.
  pub sync-IsIssued :
      (now scale draw : ℕ) (written : Secret) (s : State) (c : Call) (h g : Trace)
      → Writes written c
      → At c g (sync options crypto secrets csrs now scale draw s h).2
      → At c g h ⊎ IsIssued options crypto csrs s written
  unfolding sync
  sync-IsIssued now scale draw written s c h g w a =
      let before = get_client_secret-unwritten written c h g w in
      let getting = get_client_secret options crypto secrets csrs h in
      elim (Result-cases getting.0) [
        | inr (why, failed) ↦ inl (before (ground (arith, failed, a)))
        | inl (secret, found) ↦
            let renewing = request_new-unwritten now scale draw written secret s c getting.1 g w in
            let collecting = collect-IsIssued written secret s c getting.1 g w in
            elim (string_eq.dec s.csr_name "") [
              | yes idle ↦ inl (before (renewing (ground (arith, found, idle, a))))
              | no pending ↦ elim (collecting (ground (arith, found, pending, a))) [
                | inl earlier ↦ inl (before earlier)
                | inr issued ↦ inr issued
              ]
            ]
      ]
