-- ===== src/Prelude/Text.antt =====
-- Texts with a decidable equality.
use Prim.Native.Nat.{ℕ, zero, suc, ◌/◌, ◌%◌}
use Prim.Native.String.{String, ◌++◌}
use mathlib.Core.Bool.{Bool, true, false, not}
use mathlib.Core.Option.{Option, none, some}
use mathlib.Core.Path.{◌≡◌, refl}
use text.Mathlib.Text.{◌==◌}
use text.Mathlib.TextEquality.{eq_iff}
use g_pcap.Prelude.Tests.{ltb, if◌then◌else◌, ◌==◌ as eqb}

unfoldable pub decide_by : (s t : String) (b : Bool) → (s == t) ≡ b → Dec (s ≡ t)
decide_by s t true e = yes ((eq_iff s t).0 e)
decide_by s t false e = no (λ p. cc ((eq_iff s t).1 p))

unfoldable pub String-discrete : Discrete String
unfolding decide_by
String-discrete s t = decide_by s t (s == t) refl

-- A text or nothing, as Python's tests take it: the empty text fails too.
abbrev pub truthy : Option String → Bool
truthy none = false
truthy (some s) = not (s == "")

-- The text of one decimal digit.
unfoldable pub digit : ℕ → String
digit n =
    if eqb n 0
    then "0"
    else if eqb n 1
    then "1"
    else if eqb n 2
    then "2"
    else if eqb n 3
    then "3"
    else if eqb n 4
    then "4"
    else if eqb n 5
    then "5"
    else if eqb n 6
    then "6"
    else if eqb n 7
    then "7"
    else if eqb n 8
    then "8"
    else "9"

-- `str(n)`, with fuel for one digit a step; a number has fewer digits than its successor counts.
unfoldable pub show_digits : ℕ → ℕ → String → String
unfolding digit
show_digits zero n rest = rest
show_digits (suc fuel) n rest =
    let more = show_digits fuel (n / 10) (digit (n % 10) ++ rest) in
    if ltb n 10 then digit n ++ rest else more

unfoldable pub show : ℕ → String
unfolding show_digits
show n = show_digits (suc n) n ""

show_1203 : show 1203 ≡ "1203"
unfolding show
show_1203 = refl
