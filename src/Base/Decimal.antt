-- ===== src/Base/Decimal.antt =====
-- `strconv.Itoa` of a number that is not negative: the last digit is put on last.
use Prim.Native.Nat.{ℕ, zero, suc, ◌+◌, ◌/◌, ◌%◌}
use mathlib.Core.Path.{◌≡◌, refl}
use mathlib.Core.List.{[], ◌∷◌, ◌++◌}
use eggdfs.Base.Tests.{ltb, if◌then◌else◌}
use eggdfs.Base.Text.{Text, bytes}

-- A number below 10 ^ fuel has at most that many digits.
unfoldable pub digits : ℕ → ℕ → Text
digits zero n = []
digits (suc fuel) n =
    let rest = digits fuel (n / 10) in
    if ltb n 10 then (b'0' + n) ∷ [] else rest ++ ((b'0' + n % 10) ∷ [])

-- An `int` is below 10 ^ 19.
unfoldable pub itoa : ℕ → Text
unfolding digits
itoa n = digits 19 n

itoa_run : itoa 20240 ≡ bytes "20240"
unfolding itoa bytes
itoa_run = refl
