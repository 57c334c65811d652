-- ===== src/Base/Show.antt =====
-- `Display` of the numbers that are not negative.
use Prim.Native.String
use akri.Base.Tests.{ltb, if◌then◌else◌}
use Prim.Native.Nat.{ℕ, zero, suc, ◌/◌, ◌%◌}
use Prim.Native.String.{String}
use mathlib.Core.List.{List, [], ◌∷◌}

digit_of : List String → ℕ → String
digit_of [] n = ""
digit_of (d ∷ ds) zero = d
digit_of (d ∷ ds) (suc n) = digit_of ds n

digit : ℕ → String
unfolding digit_of
digit = digit_of ("0" ∷ "1" ∷ "2" ∷ "3" ∷ "4" ∷ "5" ∷ "6" ∷ "7" ∷ "8" ∷ "9" ∷ [])

-- Each round takes the last digit off, so as many rounds as the number says are enough.
show_from : ℕ → ℕ → String
show_from zero n = digit (n % 10)
show_from (suc rounds) n =
    let rest = show_from rounds (n / 10) in
    if ltb n 10 then digit n else String.◌++◌ rest (digit (n % 10))

unfoldable pub show : ℕ → String
unfolding show_from digit
show n = show_from n n
