-- ===== src/ClientCert/Controller/Requests.antt =====
-- When the controller asks for a certificate, and what it remembers of a request.
use ocm_registration.Base.{
  ℕ, String, true, false, none, string_eq, ◌≡◌, ◌≢◌, ◌⊎◌, ◌↔◌, inl, inr, refl, arith, ◌+◌, ◌-◌, ◌*◌,
  ◌≤◌, ◌<◌, suc, Bool-cases,
}
use native.Mathlib.Nat.{mul-le-mul_left}
use ocm_registration.Kube.{Result, ok, err, Trace, Result-cases, Csr, Secret, SecretApi, CsrApi}
use ocm_registration.ClientCert.Certificate.{get_cert_validity_period}
use ocm_registration.ClientCert.Controller.{
  Options, State, Crypto, has_enough_life, new_csr, with_key, create_csr_for,
  has_valid_client_certificate, needs_certificate, collect, request_new,
}

-- A request is remembered together with its key, or neither is.
abbrev pub WellFormed : State → Type 0
WellFormed s = (s.csr_name ≡ "") ↔ (s.key_data ≡ none)

-- There is no valid certificate, or it has not enough of its life left.
abbrev pub IsDue : Options → Crypto → SecretApi → CsrApi → ℕ → ℕ → ℕ → Secret → Type 0
IsDue options crypto secrets csrs now scale draw secret =
    (has_valid_client_certificate options crypto secrets csrs now secret ≡ false)
    ⊎ ((b a : ℕ) × (get_cert_validity_period crypto.parse_certs secret.contents ≡ ok (b, a))
        × (has_enough_life now b a scale draw ≡ false))

-- The two comparisons with the whole life `t`, of which `r` remains.
life_enough :
    (t r scale draw : ℕ) → draw < scale → t < 4 * r → (4 * scale + draw) * t < 20 * scale * r
life_enough t r scale draw d less =
    let p : t * draw ≤ t * scale = mul-le-mul_left t (omega arith) in
    let q : scale * suc t ≤ scale * (4 * r) = mul-le-mul_left scale less in omega (arith, p, q, d)

life_short : (t r scale draw : ℕ) → 5 * r ≤ t → 20 * scale * r ≤ (4 * scale + draw) * t
life_short t r scale draw less =
    let q : scale * (5 * r) ≤ scale * t = mul-le-mul_left scale less in omega (arith, q)

-- For a certificate whose end is not before its start: while more than a quarter of the life
-- remains, it is enough, and when a fifth or less remains, it is not, whatever the random number
-- is.
pub has_enough_life_window :
    (now b a scale draw : ℕ)
    → draw < scale
    → b ≤ a
    → ((a - b < 4 * (a - now)) → has_enough_life now b a scale draw ≡ true)
      × ((5 * (a - now) ≤ a - b) → has_enough_life now b a scale draw ≡ false)
unfolding has_enough_life
has_enough_life_window now b a scale draw d le = (
  λ less. ground (arith, life_enough (a - b) (a - now) scale draw d less),
  λ less. ground (arith, life_short (a - b) (a - now) scale draw less),
)

module _ (options : Options) (crypto : Crypto) (secrets : SecretApi) (csrs : CsrApi) where
  create_csr_for-name :
      (key name : String) (h : Trace)
      → ((g : Trace) (csr req : Csr) → csrs.create g csr ≡ ok req → req.name ≢ "")
      → (create_csr_for options crypto secrets csrs key h).0 ≡ ok name
      → name ≢ ""
  unfolding create_csr_for
  create_csr_for-name key name h named e =
      elim (Result-cases (crypto.make_csr key options.subject)) [
        | inr (why, bad) ↦ absurd (ground (arith, bad, e))
        | inl (pem, good) ↦
            let csr = new_csr options crypto secrets csrs pem in
            elim (Result-cases (csrs.create h csr)) [
              | inr (why, bad) ↦ absurd (ground (arith, good, bad, e))
              | inl (req, made) ↦ ground (arith, good, made, e, named h csr req made)
            ]
      ]

  pub collect-WellFormed :
      (secret : Secret) (s : State) (h : Trace)
      → WellFormed s
      → WellFormed (collect options crypto secrets csrs s secret h).1
  unfolding collect
  collect-WellFormed secret s h wf = ground (arith, wf)

  pub needs_certificate-IsDue :
      (now scale draw : ℕ) (secret : Secret) (h : Trace)
      → (needs_certificate options crypto secrets csrs now scale draw secret h).0 ≡ ok true
      → IsDue options crypto secrets csrs now scale draw secret
  unfolding needs_certificate
  needs_certificate-IsDue now scale draw secret h e =
      elim (Bool-cases (has_valid_client_certificate options crypto secrets csrs now secret)) [
        | inr invalid ↦ inl invalid
        | inl valid ↦
            let period = get_cert_validity_period crypto.parse_certs secret.contents in
            elim (Result-cases period) [
              | inr (why, bad) ↦ absurd (ground (arith, valid, bad, e))
              | inl ((b, a), good) ↦ inr (b, a, good, ground (arith, valid, good, e))
            ]
      ]

  -- The branches once a certificate is needed.
  with_key-WellFormed :
      (s : State) (r : Result String) (h : Trace)
      → ((g : Trace) (csr req : Csr) → csrs.create g csr ≡ ok req → req.name ≢ "")
      → s.csr_name ≡ ""
      → WellFormed (with_key options crypto secrets csrs s r h).1
  with_key-WellFormed s (err e) h named idle = (λ _. refl, λ _. idle)
  with_key-WellFormed s (ok key) h named idle =
      elim (Result-cases (create_csr_for options crypto secrets csrs key h).0) [
        | inr (why, bad) ↦ ground (arith, bad)
        | inl (name, made) ↦ ground (arith, made, create_csr_for-name key name h named made)
      ]

  pub request_new-WellFormed :
      (now scale draw : ℕ) (secret : Secret) (s : State) (h : Trace)
      → ((g : Trace) (csr req : Csr) → csrs.create g csr ≡ ok req → req.name ≢ "")
      → s.csr_name ≡ ""
      → WellFormed s
      → WellFormed (request_new options crypto secrets csrs now scale draw s secret h).1
  unfolding request_new
  request_new-WellFormed now scale draw secret s h named idle wf =
      let need = needs_certificate options crypto secrets csrs now scale draw secret h in
      elim (Result-cases need.0) [
        | inr (why, bad) ↦ ground (arith, bad, wf)
        | inl (false, no_need) ↦ ground (arith, no_need, wf)
        | inl (true, due) ↦
            ground (arith, due, with_key-WellFormed s crypto.make_private_key need.1 named idle)
      ]
