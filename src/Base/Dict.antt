-- ===== src/Base/Dict.antt =====
-- Go maps as association lists. A key stands at most once in a list that `insert` builds.
use ocm_registration.Base.{
  ◌≡◌, refl, sym, subst, Option, none, some, List, [], ◌∷◌, arith, ◌==◌, String, string_eq,
  if◌then◌else◌,
}

abbrev pub Dict {ℓ} : Type ℓ → Type ℓ
Dict V = List (String × V)

module _ {ℓ} {V : Type ℓ} where
  unfoldable pub lookup : String → Dict V → Option V
  lookup k [] = none
  lookup k ((j, v) ∷ d) = if j == k then some v else lookup k d

  -- `d[k] = v`
  unfoldable pub insert : String → V → Dict V → Dict V
  insert k v [] = (k, v) ∷ []
  insert k v ((j, w) ∷ d) = if j == k then (j, v) ∷ d else (j, w) ∷ insert k v d

  -- `delete(d, k)`
  unfoldable pub erase : String → Dict V → Dict V
  erase k [] = []
  erase k ((j, w) ∷ d) = let rest = erase k d in if j == k then rest else (j, w) ∷ rest

  pub lookup-insert :
      (j k : String) (v : V) (d : Dict V)
      → lookup j (insert k v d) ≡ (if k == j then some v else lookup j d)
  unfolding insert lookup
  lookup-insert j k v [] = refl
  lookup-insert j k v ((i, w) ∷ d) = ground (arith, lookup-insert j k v d)

  pub lookup-erase :
      (j k : String) (d : Dict V) → lookup j (erase k d) ≡ (if k == j then none else lookup j d)
  unfolding erase lookup
  lookup-erase j k [] = ground arith
  lookup-erase j k (_ ∷ d) = ground (arith, lookup-erase j k d)

  -- No key stands twice.
  abbrev pub IsMap : Dict V → Type ℓ
  unfolding lookup
  IsMap [] = Unit
  IsMap ((k, v) ∷ d) = (lookup k d ≡ none) × IsMap d

  pub insert-IsMap : (k : String) (v : V) (d : Dict V) → IsMap d → IsMap (insert k v d)
  unfolding insert lookup
  insert-IsMap k v [] u = (refl, tt)
  insert-IsMap k v ((j, w) ∷ d) (fresh, u) = elim (string_eq.dec j k) [
    | yes same ↦
        let e : insert k v ((j, w) ∷ d) ≡ (j, v) ∷ d = ground (arith, same) in
        subst IsMap (sym e) (fresh, u)
    | no differ ↦
        let e : insert k v ((j, w) ∷ d) ≡ (j, w) ∷ insert k v d = ground (arith, differ) in
        let fresh' : lookup j (insert k v d) ≡ none =
          ground (arith, differ, fresh, lookup-insert j k v d) in
        subst IsMap (sym e) (fresh', insert-IsMap k v d u)
  ]

  -- The entry of the newer map, and else the older one's.
  abbrev pub or_else : Option V → Option V → Option V
  or_else none old = old
  or_else (some v) old = some v

-- Indexing a map of texts: the zero value for a missing key.
unfoldable pub at : Dict String → String → String
unfolding lookup
at d k = elim (lookup k d) [ none ↦ "" | some v ↦ v ]
