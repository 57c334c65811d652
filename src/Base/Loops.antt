-- ===== src/Base/Loops.antt =====
-- Rules for `for_each`: what every round keeps holds after the loop, and what each round establishes
-- and later rounds keep holds of every element after a loop without error.
use mathlib.Core.Path.{◌≡◌, refl, sym, ◌∙◌, ap, subst}
use mathlib.Core.List.{List, [], ◌∷◌}
use akri.Base.Lists.{All}
use mathlib.Core.Bool.{Bool, true, false}
use akri.Base.Tests.{if◌then◌else◌}
use akri.Base.Run.{Result, ok, err, M, bind_result, for_each}

pub ok_injective : {A : Type 0} {x y : A} → ok x ≡ ok y → x ≡ y
ok_injective e = cc

pub All-trivial : {A : Type 0} (xs : List A) → All (λ _. Unit {0}) xs
All-trivial [] = tt
All-trivial (x ∷ xs) = (tt, All-trivial xs)

module _ {S : Type 0} where
  pub bind_inv :
      {B C : Type 0} (P : S → Type 0) (r : Result B × S) (f : B → M S C)
      → P r.1
      → ((b : B) → P (f b r.1).1)
      → P (bind_result r f).1
  bind_inv P (ok b, s) f h k = k b
  bind_inv P (err e, s) f h k = h

  pub bind_inv_ok :
      {B C : Type 0} (P : S → Type 0) (r : Result B × S) (f : B → M S C)
      → P r.1
      → ((b : B) → r.0 ≡ ok b → P (f b r.1).1)
      → P (bind_result r f).1
  bind_inv_ok P (ok b, s) f h k = k b refl
  bind_inv_ok P (err e, s) f h k = h

  pub bind-eq-ok :
      {B C : Type 0} (r : Result B × S) (f : B → M S C) {c : C}
      → (bind_result r f).0 ≡ ok c
      → (b : B) × (r.0 ≡ ok b) × (bind_result r f ≡ f b r.1)
  bind-eq-ok (ok b, s) f h = (b, refl, refl)
  bind-eq-ok (err e, s) f h = cc

  -- What holds after a sequence without error follows from its two halves.
  pub bind_post :
      {B C : Type 0} (Q : S → Type 0) (r : Result B × S) (f : B → M S C) {c : C}
      → ((b : B) → r.0 ≡ ok b → (f b r.1).0 ≡ ok c → Q (f b r.1).1)
      → (bind_result r f).0 ≡ ok c
      → Q (bind_result r f).1
  bind_post Q (ok b, s) f k h = k b refl h
  bind_post Q (err e, s) f k h = cc

  pub bind-ok :
      {B C : Type 0} (r : Result B × S) (f : B → M S C) {b : B}
      → r.0 ≡ ok b
      → bind_result r f ≡ f b r.1
  bind-ok (r, s) f h = rw h

module _ {S : Type 0} {A : Type 0} where
  pub for_each_inv :
      (P : S → Type 0) (Q : A → Type 0) (f : A → M S (Unit {0}))
      → ((x : A) (s : S) → Q x → P s → P (f x s).1)
      → (xs : List A) (s : S) → All Q xs
      → P s
      → P (for_each xs f s).1
  unfolding for_each
  for_each_inv P Q f keep [] s q p = p
  for_each_inv P Q f keep (x ∷ xs) s q p =
      let p' = keep x s q.0 p in
      bind_inv P (f x s) (λ _. for_each xs f) p' (λ _. for_each_inv P Q f keep xs (f x s).1 q.1 p')

  -- Each round makes something that the later ones keep, from a state that the round before leaves.
  pub for_each-All_from :
      (R : A → S → Type 0) (P : S → Type 0) (f : A → M S (Unit {0}))
      → ((x : A) (s : S) → P s → (f x s).0 ≡ ok tt → R x (f x s).1 × P (f x s).1)
      → ((x y : A) (s : S) → R x s → R x (f y s).1)
      → (xs : List A) (s : S) → P s
      → (for_each xs f s).0 ≡ ok tt
      → All (λ x. R x (for_each xs f s).1) xs
  unfolding for_each
  for_each-All_from R P f make keep [] s p h = tt
  for_each-All_from R P f make keep (x ∷ xs) s p h =
      let (b, e, same) = bind-eq-ok (f x s) (λ _. for_each xs f) h in
      let s' = (f x s).1 in
      let (made, left) = make x s p e in
      subst (λ r. All (λ y. R y r.1) (x ∷ xs)) (sym same)
        (
          for_each_inv (R x) (λ _. Unit {0}) f (λ y t _. keep x y t) xs s' (All-trivial xs) made,
          for_each-All_from R P f make keep xs s' left (ap (λ r. r.0) (sym same) ∙ h),
        )

  pub for_each-All :
      (R : A → S → Type 0) (f : A → M S (Unit {0}))
      → ((x : A) (s : S) → (f x s).0 ≡ ok tt → R x (f x s).1)
      → ((x y : A) (s : S) → R x s → R x (f y s).1)
      → (xs : List A) (s : S) → (for_each xs f s).0 ≡ ok tt
      → All (λ x. R x (for_each xs f s).1) xs
  for_each-All R f make keep xs s =
      for_each-All_from R (λ _. Unit {0}) f (λ x t p h. (make x t h, tt)) keep xs s tt

-- A predicate on the state that a computation keeps, whatever it returns.
module _ {S : Type 0} (P : S → Type 0) where
  abbrev pub Keeps : {A : Type 0} → M S A → Type 0
  Keeps m = (s : S) → P s → P (m s).1

  pub Keeps-bind :
      {A B : Type 0} (m : M S A) (f : A → M S B)
      → Keeps m
      → ((a : A) → Keeps (f a))
      → Keeps (λ s. bind_result (m s) f)
  Keeps-bind m f h k s p = bind_inv P (m s) f (h s p) (λ a. k a (m s).1 (h s p))

  pub Keeps-for_each :
      {A : Type 0} (f : A → M S (Unit {0})) (xs : List A)
      → ((x : A) → Keeps (f x))
      → Keeps (for_each xs f)
  Keeps-for_each f xs h s p =
      for_each_inv P (λ _. Unit {0}) f (λ x t _. h x t) xs s (All-trivial xs) p

  pub Keeps-if :
      {A : Type 0} (b : Bool) (m n : M S A)
      → Keeps m
      → Keeps n
      → Keeps (λ s. (if b then m else n) s)
  Keeps-if true m n h k = h
  Keeps-if false m n h k = k
