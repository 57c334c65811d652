-- ===== src/Base/Run.antt =====
-- `Result`, and the monad of the asynchronous functions: a state that stays changed when an error is
-- returned. The errors (`Box<dyn Error>`, `anyhow::Error`, `tonic::Status`) are their messages.
use Prim.Native.String.{String}
use mathlib.Core.List.{List, [], ◌∷◌}
use mathlib.Core.Option.{Option, none, some}

pub data Result (A : Type 0) : Type 0 where
  ok : A → Result A
  err : String → Result A

-- `ok_or`.
abbrev pub ok_or : {A : Type 0} → Option A → String → Result A
ok_or none e = err e
ok_or (some a) e = ok a

abbrev pub M : Type 0 → Type 0 → Type 0
M S A = S → Result A × S

module _ {S : Type 0} where
  abbrev pub bind_result : {A B : Type 0} → Result A × S → (A → M S B) → Result B × S
  bind_result (ok a, s) f = f a s
  bind_result (err e, s) f = (err e, s)

  infixl 5 ◌>>=◌ ◌>>◌
  abbrev pub ◌>>=◌ : {A B : Type 0} → M S A → (A → M S B) → M S B
  ◌>>=◌ m f s = bind_result (m s) f

  abbrev pub ◌>>◌ : {B : Type 0} → M S (Unit {0}) → M S B → M S B
  ◌>>◌ m k s = bind_result (m s) (λ _. k)

  -- A value, or `?` on a value that is at hand.
  abbrev pub pure : {A : Type 0} → A → M S A
  pure a s = (ok a, s)

  abbrev pub lift : {A : Type 0} → Result A → M S A
  lift r s = (r, s)

  -- The scrutinee of a `match` on a `Result`: an error is handed to the caller as a value.
  abbrev pub attempt : {A : Type 0} → M S A → M S (Result A)
  attempt m s = let (r, s') = m s in (ok r, s')

  -- `for x in xs { f(x).await?; }`
  unfoldable pub for_each : {A : Type 0} → List A → (A → M S (Unit {0})) → M S (Unit {0})
  for_each [] f = pure tt
  for_each (x ∷ xs) f = f x >> for_each xs f
