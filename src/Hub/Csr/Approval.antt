-- ===== src/Hub/Csr/Approval.antt =====
-- When a certificate request is approved.
use ocm_registration.Base.{
  String, true, false, [], ◌∷◌, ◌++◌, Option, ◌≡◌, ◌↔◌, inl, inr, string_eq, arith,
}
use ocm_registration.Kube.{
  ok, Result-cases, Exec, Trace, At, CsrApi, AccessApi, Csr, create_access_review, update_approval,
}
use ocm_registration.Helpers.Status.{is_csr_in_terminal_state}
use ocm_registration.Hub.Csr.{
  Block, is_spoke_cluster_client_cert_renewal, renew_review, auto_approved, sync,
}

module _ (csrs : CsrApi) (access : AccessApi) (decode_request : String → Option Block) where
  abbrev run : String → Exec (Unit {0})
  run = sync csrs access decode_request

  -- The request may be approved: it has no decision yet, it is a renewal, and its user may renew.
  abbrev pub Approvable : Csr → Trace → Type 0
  Approvable csr h =
      (is_csr_in_terminal_state csr.conditions ≡ false)
      × (is_spoke_cluster_client_cert_renewal decode_request csr ≡ true)
      × (access.create_review h (renew_review csr) ≡ ok true)

  abbrev pub approved : Csr → Csr
  approved csr = record csr { conditions = csr.conditions ++ auto_approved ∷ [] }

  -- A run approves nothing but the request that it is for, as the lister has it, and only if that
  -- may be approved; all that it writes is the added condition.
  pub sync-approves_only :
      (name : String) (c' : Csr) (g : Trace)
      → At (update_approval c') g (run name []).1
      → (csr : Csr) × (csrs.lister_get [] name ≡ ok csr) × Approvable csr [] × (c' ≡ approved csr)
  unfolding sync
  sync-approves_only name c' g a = elim (Result-cases (csrs.lister_get [] name)) [
    | inr (e, missing) ↦ absurd (ground arith)
    | inl (csr, listed) ↦ (csr, listed, (ground arith, ground arith, ground arith), ground arith)
  ]

  -- A request that may be approved is: after the review the approval is sent, and the run's result
  -- is the answer to that.
  pub sync-approves :
      (name : String) (h : Trace) {csr : Csr}
      → csrs.lister_get h name ≡ ok csr
      → Approvable csr h
      → let asked = create_access_review (renew_review csr) ∷ h in
        At (update_approval (approved csr)) asked (run name h).1
        × (((run name h).0 ≡ ok tt)
            ↔ ((c : Csr) × (csrs.update_approval asked (approved csr) ≡ ok c)))
  unfolding sync
  sync-approves name h {csr} listed (fresh, renewal, may) =
      let asked = create_access_review (renew_review csr) ∷ h in
      elim (Result-cases (csrs.update_approval asked (approved csr))) [
        | inl (c, stored) ↦ (ground arith, (λ _. (c, stored), λ _. ground arith))
        | inr (e, failed) ↦
            (ground arith, (λ f. absurd (ground arith), λ (c, stored). absurd (ground arith)))
      ]
