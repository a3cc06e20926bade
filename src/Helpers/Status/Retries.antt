-- ===== src/Helpers/Status/Retries.antt =====
-- What holds of a retried computation because it holds of each attempt.
use ocm_registration.Base.{ℕ, zero, suc, Bool, ◌≡◌, refl, ◌⊎◌, inl, inr, Bool-cases, subst}
use ocm_registration.Kube.{ok, Exec, Trace, Call, At, Only, Grows}
use ocm_registration.Helpers.Status.{attempts, is_conflicted}

pub attempts-Only :
    {A : Type 0} (p : Call → Bool) (more : ℕ) (f : Exec A)
    → ((h : Trace) → Only p h (f h).1)
    → (h : Trace) → Only p h (attempts more f h).1
unfolding attempts
attempts-Only p zero f o h c g u a = o h c g u a
attempts-Only p (suc more) f o h c g u a = elim (Bool-cases (is_conflicted (f h).0)) [
  | inl again ↦
      o h c g u (attempts-Only p more f o (f h).1 c g u (subst (At c g) (rw again refl) a))
  | inr done ↦ o h c g u (subst (At c g) (rw done refl) a)
]

pub attempts-Grows :
    {A : Type 0} (more : ℕ) (f : Exec A)
    → ((h : Trace) → Grows h (f h).1)
    → (h : Trace) → Grows h (attempts more f h).1
unfolding attempts
attempts-Grows zero f o h c g a = o h c g a
attempts-Grows (suc more) f o h c g a = elim (Bool-cases (is_conflicted (f h).0)) [
  | inl again ↦ rw again (attempts-Grows more f o (f h).1 c g (o h c g a))
  | inr done ↦ rw done (o h c g a)
]

-- What was added to the trace has the property.
abbrev pub Sends : (Call → Type 0) → Trace → Trace → Type 0
Sends P h h' = (c : Call) (g : Trace) → At c g h' → At c g h ⊎ P c

pub attempts-Sends :
    {A : Type 0} (P : Call → Type 0) (more : ℕ) (f : Exec A)
    → ((h : Trace) → Sends P h (f h).1)
    → (h : Trace) → Sends P h (attempts more f h).1
unfolding attempts
attempts-Sends P zero f o h c g a = o h c g a
attempts-Sends P (suc more) f o h c g a = elim (Bool-cases (is_conflicted (f h).0)) [
  | inl again ↦ (elim (attempts-Sends P more f o (f h).1 c g (subst (At c g) (rw again refl) a)) [
    | inl old ↦ o h c g old
    | inr new ↦ inr new
  ])
  | inr done ↦ o h c g (subst (At c g) (rw done refl) a)
]

-- A retry ends with one of its attempts.
pub attempts_last :
    {A : Type 0} (more : ℕ) (f : Exec A) (h : Trace) → (g : Trace) × (attempts more f h ≡ f g)
unfolding attempts
attempts_last zero f h = (h, refl)
attempts_last (suc more) f h = elim (Bool-cases (is_conflicted (f h).0)) [
  | inl again ↦ let (g, e) = attempts_last more f (f h).1 in (g, rw again e)
  | inr done ↦ (h, rw done)
]

pub attempts_done :
    {A : Type 0} (more : ℕ) (f : Exec A) (h h' : Trace) (a : A)
    → f h ≡ (ok a, h')
    → attempts more f h ≡ (ok a, h')
unfolding attempts
attempts_done zero f h h' a e = e
attempts_done (suc more) f h h' a e = rw e refl

-- What the first attempt adds stays.
pub attempts_first :
    {A : Type 0} (more : ℕ) (f : Exec A)
    → ((h : Trace) → Grows h (f h).1)
    → (h : Trace) → Grows (f h).1 (attempts more f h).1
unfolding attempts
attempts_first zero f o h c g a = a
attempts_first (suc more) f o h c g a = elim (Bool-cases (is_conflicted (f h).0)) [
  | inl again ↦ rw again (attempts-Grows more f o (f h).1 c g a)
  | inr done ↦ rw done a
]
