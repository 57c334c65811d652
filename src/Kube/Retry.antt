-- ===== src/Kube/Retry.antt =====
-- The loop `for x in 0..MAX_INSTANCE_UPDATE_TRIES` around an update that may be refused: an accepted
-- attempt ends it, the error of the last one is returned, and a delay stands between two attempts.
use akri.Base.{
  ℕ, zero, suc, ◌+◌, ◌-◌, ◌≤◌, ◌<◌, true, false, ◌∷◌, Result, ok, err, M, bind_result, ◌>>=◌, ◌>>◌,
  pure, lift, nat_eq, if◌then◌else◌, ◌≡◌, refl, ◌⊎◌, sym, ◌∙◌, ap, arith, Bool-cases, inl, inr,
  String,
}
use akri.Base.Loops.{Keeps, Keeps-bind, bind-eq-ok}
use akri.Kube.Api.{Trace, Done, delayed, random_delay, max_instance_update_tries}

-- After the attempt with number `x`.
unfoldable pub retry_or_stop : ℕ → M Trace (Unit {0}) → Done → M Trace (Unit {0})
retry_or_stop x rest (ok u) = pure tt
retry_or_stop x rest (err e) =
    if nat_eq x (max_instance_update_tries - 1) then lift (err e) else random_delay >> rest

-- `left` attempts are left, and the next has the number `x`.
unfoldable pub attempts : (ℕ → M Trace Done) → ℕ → ℕ → M Trace (Unit {0})
attempts one zero x = pure tt
attempts one (suc left) x = do r ← one x; retry_or_stop x (attempts one left (suc x)) r

abbrev pub try_up_to_max : (ℕ → M Trace Done) → M Trace (Unit {0})
try_up_to_max one = attempts one max_instance_update_tries 0

module _ (one : ℕ → M Trace Done) where
  abbrev rest_of : ℕ → ℕ → Done → M Trace (Unit {0})
  rest_of left x = retry_or_stop x (attempts one left (suc x))

  module _ (left x : ℕ) (m : String) (t : Trace) where
    at_last : nat_eq x (max_instance_update_tries - 1) ≡ true → (rest_of left x (err m) t).0 ≡ err m
    unfolding retry_or_stop
    at_last e = rw e

    not_last :
        nat_eq x (max_instance_update_tries - 1) ≡ false
        → rest_of left x (err m) t ≡ attempts one left (suc x) (delayed ∷ t)
    unfolding retry_or_stop
    not_last e = rw e

  -- A loop without error ends with an attempt that was accepted: the first, which starts where the loop
  -- did, or a later one.
  pub attempts-accepted :
      (left x : ℕ) (t : Trace)
      → x + left ≡ max_instance_update_tries
      → 0 < left
      → (attempts one left x t).0 ≡ ok tt
      → (y : ℕ) × (s : Trace) × ((one y s).0 ≡ ok (ok tt))
        × ((attempts one left x t).1 ≡ (one y s).1)
        × (((y ≡ x) × (s ≡ t)) ⊎ (x < y))
  unfolding attempts retry_or_stop
  attempts-accepted zero x t b p h = absurd (omega arith)
  attempts-accepted (suc left) x t b p h =
      let (r, e, same) = bind-eq-ok (one x t) (rest_of left x) h in
      go r e same (λ q z. attempts-accepted left (suc x) (delayed ∷ (one x t).1) (omega arith) q z)
    where
      later : {A : Type 0} (y : ℕ) → ((y ≡ suc x) × A) ⊎ (suc x < y) → x < y
      later y (inl (e, a)) = omega arith
      later y (inr l) = omega arith

      go :
          (r : Done)
          → (one x t).0 ≡ ok r
          → bind_result (one x t) (rest_of left x) ≡ rest_of left x r (one x t).1
          → (0 < left
              → (attempts one left (suc x) (delayed ∷ (one x t).1)).0 ≡ ok tt
              → (y : ℕ) × (s : Trace) × ((one y s).0 ≡ ok (ok tt))
                × ((attempts one left (suc x) (delayed ∷ (one x t).1)).1 ≡ (one y s).1)
                × (((y ≡ suc x) × (s ≡ delayed ∷ (one x t).1)) ⊎ (suc x < y)))
          → (y : ℕ) × (s : Trace) × ((one y s).0 ≡ ok (ok tt))
            × ((attempts one (suc left) x t).1 ≡ (one y s).1)
            × (((y ≡ x) × (s ≡ t)) ⊎ (x < y))
      go (ok u) e same ih = (x, t, e, ap (λ q. q.1) same, inl (refl, refl))
      go (err m) e same ih = elim (Bool-cases (nat_eq x (max_instance_update_tries - 1))) [
        | inl last ↦ let stop = sym h ∙ ap (λ q. q.0) same ∙ at_last left x m _ last in cc
        | inr more ↦
            let next = same ∙ not_last left x m (one x t).1 more in
            let (y, s, done, end, from) = ih (ground arith) (sym (ap (λ q. q.0) next) ∙ h) in
            (y, s, done, ap (λ q. q.1) next ∙ end, inr (later y from))
      ]

  pub attempts_keep :
      (P : Trace → Type 0)
      → ((t : Trace) → P t → P (delayed ∷ t))
      → ((x : ℕ) → Keeps P (one x))
      → (left x : ℕ) → Keeps P (attempts one left x)
  unfolding attempts retry_or_stop
  attempts_keep P d k zero x = λ t h. h
  attempts_keep P d k (suc left) x =
      Keeps-bind P (one x) (rest_of left x) (k x) (go (attempts_keep P d k left (suc x)))
    where
      go : Keeps P (attempts one left (suc x)) → (r : Done) → Keeps P (rest_of left x r)
      go ih (ok u) = λ t h. h
      go ih (err e) = λ t h. elim (Bool-cases (nat_eq x (max_instance_update_tries - 1))) [
        | inl last ↦ rw last h
        | inr more ↦ rw more (ih (delayed ∷ t) (d t h))
      ]

  -- A measure that an attempt raises by one at most is raised by the number of attempts at most.
  pub attempts_bound :
      (f : Trace → ℕ)
      → ((t : Trace) → f (delayed ∷ t) ≡ f t)
      → ((x : ℕ) (t : Trace) → f (one x t).1 ≤ suc (f t))
      → (left x : ℕ) (t : Trace) → f (attempts one left x t).1 ≤ f t + left
  unfolding attempts retry_or_stop
  attempts_bound f d k zero x t = omega arith
  attempts_bound f d k (suc left) x t =
      go (one x t) (k x t) (λ s. attempts_bound f d k left (suc x) (delayed ∷ s))
    where
      go :
          (r : Result Done × Trace)
          → f r.1 ≤ suc (f t)
          → ((s : Trace) → f (attempts one left (suc x) (delayed ∷ s)).1 ≤ f (delayed ∷ s) + left)
          → f (bind_result r (rest_of left x)).1 ≤ f t + suc left
      go (ok (ok u), s) h ih = omega arith
      go (ok (err e), s) h ih = elim (Bool-cases (nat_eq x (max_instance_update_tries - 1))) [
        | inl last ↦ rw last (omega arith)
        | inr more ↦ rw more (omega (arith, ih s, d s))
      ]
      go (err e, s) h ih = omega arith
