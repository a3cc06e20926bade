-- ===== src/Spoke/Claims/Exposed.antt =====
-- Which claims are exposed on the hub.
use ocm_registration.Base.{
  ℕ, zero, suc, String, Bool, List, [], ◌∷◌, ◌++◌, string_eq, not, length, take, keep_if, ◌≡◌, ◌≤◌,
  ◌+◌, refl, arith, length-keep_if, ◌&&◌,
}
use ocm_registration.Kube.{ClusterClaim}
use ocm_registration.Spoke.Claims.{
  insert_by_name, sort_stable, is_reserved, reserved_claims, custom_claims, truncate, exposed,
}

-- How many claims pass a test.
abbrev pub count : (ClusterClaim → Bool) → List ClusterClaim → ℕ
count p claims = length (keep_if p claims)

count-insert_by_name :
    (p : ClusterClaim → Bool) (c : ClusterClaim) (cs : List ClusterClaim)
    → count p (insert_by_name c cs) ≡ count p (c ∷ cs)
count-insert_by_name p c [] = refl
count-insert_by_name p c (d ∷ ds) = ground (arith, count-insert_by_name p c ds)

count-sort_stable :
    (p : ClusterClaim → Bool) (cs : List ClusterClaim) → count p (sort_stable cs) ≡ count p cs
unfolding sort_stable
count-sort_stable p [] = refl
count-sort_stable p (c ∷ cs) =
    ground (arith, count-insert_by_name p c (sort_stable cs), count-sort_stable p cs)

count-append :
    (p : ClusterClaim → Bool) (cs ds : List ClusterClaim)
    → count p (cs ++ ds) ≡ count p cs + count p ds
count-append p [] ds = omega arith
count-append p (c ∷ cs) ds = ground (arith, count-append p cs ds)

module _ (p q : ClusterClaim → Bool) where
  count-kept_split :
      (cs : List ClusterClaim)
      → count p (keep_if q cs) + count p (keep_if (λ c. not (q c)) cs) ≡ count p cs
  count-kept_split [] = omega arith
  count-kept_split (c ∷ cs) = ground (arith, count-kept_split cs)

  count-kept_both :
      (cs : List ClusterClaim) → count (λ c. p c && q c) (keep_if q cs) ≡ count (λ c. p c && q c) cs
  count-kept_both [] = refl
  count-kept_both (c ∷ cs) = ground (arith, count-kept_both cs)

  count-dropped :
      (cs : List ClusterClaim) → count (λ c. p c && q c) (keep_if (λ c. not (q c)) cs) ≡ 0
  count-dropped [] = refl
  count-dropped (c ∷ cs) = ground (arith, count-dropped cs)

count-not_kept :
    (q : ClusterClaim → Bool) (cs : List ClusterClaim) → count (λ c. not (q c)) (keep_if q cs) ≡ 0
count-not_kept q [] = refl
count-not_kept q (c ∷ cs) = ground (arith, count-not_kept q cs)

length-insert_by_name :
    (c : ClusterClaim) (cs : List ClusterClaim) → length (insert_by_name c cs) ≡ suc (length cs)
length-insert_by_name c [] = refl
length-insert_by_name c (d ∷ ds) = ground (arith, length-insert_by_name c ds)

length-sort_stable : (cs : List ClusterClaim) → length (sort_stable cs) ≡ length cs
unfolding sort_stable
length-sort_stable [] = refl
length-sort_stable (c ∷ cs) =
    ground (arith, length-insert_by_name c (sort_stable cs), length-sort_stable cs)

count-take :
    (p : ClusterClaim → Bool) (n : ℕ) (cs : List ClusterClaim)
    → count p cs ≡ 0
    → count p (take n cs) ≡ 0
count-take p zero cs e = refl
count-take p (suc n) [] e = refl
count-take p (suc n) (c ∷ cs) e = ground (arith, e, count-take p n cs)

length-take-le : (n : ℕ) (cs : List ClusterClaim) → length (take n cs) ≤ n
length-take-le zero cs = omega arith
length-take-le (suc n) [] = omega arith
length-take-le (suc n) (c ∷ cs) = ground (arith, length-take-le n cs)

length-truncate-le :
    (reserved_names : List String) (max : ℕ) (cs : List ClusterClaim)
    → length (truncate reserved_names max cs).0 ≤ max
unfolding truncate
length-truncate-le reserved_names max cs = ground (arith, length-take-le max cs)

count-truncate :
    (reserved_names : List String) (max : ℕ) (p : ClusterClaim → Bool) (cs : List ClusterClaim)
    → count p cs ≡ 0
    → count p (truncate reserved_names max cs).0 ≡ 0
unfolding truncate
count-truncate reserved_names max p cs e = ground (arith, e, count-take p max cs e)

module _ (reserved_names : List String) where
  -- Every reserved claim is exposed as often as it is listed, whatever the limit; and of the others
  -- at most as many as the limit, and all of them if the limit is not exceeded.
  pub exposed_lem :
      (max : ℕ) (claims : List ClusterClaim)
      → ((p : ClusterClaim → Bool)
          → count (λ c. p c && is_reserved reserved_names c) (exposed reserved_names max claims)
            ≡ count (λ c. p c && is_reserved reserved_names c) claims)
        × (count (λ c. not (is_reserved reserved_names c)) (exposed reserved_names max claims)
            ≤ max)
        × (count (λ c. not (is_reserved reserved_names c)) claims ≤ max
            → (p : ClusterClaim → Bool)
            → count p (exposed reserved_names max claims) ≡ count p claims)
  unfolding exposed reserved_claims custom_claims truncate
  exposed_lem max claims =
      let keeps = is_reserved reserved_names in
      let custom = keep_if (λ c. not (keeps c)) claims in
      let kept = (truncate reserved_names max (sort_stable custom)).0 in
      let reserved = sort_stable (keep_if keeps claims) in
      (
        λ p.
            let q = λ (c : ClusterClaim). p c && keeps c in
            ground (
              arith,
              count-append q reserved kept,
              count-sort_stable q (keep_if keeps claims),
              count-kept_both p keeps claims,
              count-truncate reserved_names max q (sort_stable custom),
              count-sort_stable q custom,
              count-dropped p keeps claims,
            ),
        let q = λ (c : ClusterClaim). not (keeps c) in
            ground (
              arith,
              count-append q reserved kept,
              count-sort_stable q (keep_if keeps claims),
              count-not_kept keeps claims,
              length-keep_if q kept,
              length-truncate-le reserved_names max (sort_stable custom),
            ),
        λ few p. ground (
          arith,
          few,
          length-sort_stable custom,
          count-append p reserved (sort_stable custom),
          count-sort_stable p (keep_if keeps claims),
          count-sort_stable p custom,
          count-kept_split p keeps claims,
        ),
      )
