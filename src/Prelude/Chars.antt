-- ===== src/Prelude/Chars.antt =====
-- Python's operations on texts, character by character.
use Prim.Native.Nat.{ℕ}
use Prim.Native.Char.{code}
use Prim.Native.String.{String, ◌++◌}
use mathlib.Core.Bool.{Bool, true, false, ◌&&◌, ◌||◌}
use mathlib.Core.Option.{Option, none, some}
use mathlib.Core.List.{List, [], ◌∷◌}
use mathlib.Core.Path.{◌≡◌, refl}
use g_pcap.Prelude.Tests.{leb, ◌==◌, if◌then◌else◌}

-- `c.isspace()`, on the code point
unfoldable pub is_space : ℕ → Bool
is_space c =
    leb 9 c && leb c 13
    || leb 28 c && leb c 32
    || c == 0x85
    || c == 0xa0
    || c == 0x1680
    || leb 0x2000 c && leb c 0x200a
    || c == 0x2028
    || c == 0x2029
    || c == 0x202f
    || c == 0x205f
    || c == 0x3000

-- `s.lstrip()`, `s.rstrip()` and `s.strip()`, of the characters that pass a test
unfoldable pub lstrip_by : (ℕ → Bool) → String → String
lstrip_by p String.[] = String.[]
lstrip_by p (String.◌∷◌ c s) = if p (code c) then lstrip_by p s else String.◌∷◌ c s

abbrev pub is_empty_text : String → Bool
is_empty_text String.[] = true
is_empty_text (String.◌∷◌ c s) = false

unfoldable pub rstrip_by : (ℕ → Bool) → String → String
rstrip_by p String.[] = String.[]
rstrip_by p (String.◌∷◌ c s) =
    let rest = rstrip_by p s in
    if is_empty_text rest && p (code c) then String.[] else String.◌∷◌ c rest

unfoldable pub strip_by : (ℕ → Bool) → String → String
unfolding lstrip_by rstrip_by
strip_by p s = lstrip_by p (rstrip_by p s)

unfoldable pub strip : String → String
unfolding strip_by is_space
strip = strip_by is_space

-- `s.partition(sep)` at one character: what is before it, whether it is there, what is after it
unfoldable pub partition : ℕ → String → String × Bool × String
partition sep String.[] = (String.[], false, String.[])
partition sep (String.◌∷◌ c s) =
    let (before, found, after) = partition sep s in
    if code c == sep then (String.[], true, s) else (String.◌∷◌ c before, found, after)

-- `s.endswith(c)` and `s.startswith(c)`
unfoldable pub ends_in : ℕ → String → Bool
ends_in k String.[] = false
ends_in k (String.◌∷◌ c s) = if is_empty_text s then code c == k else ends_in k s

unfoldable pub starts_in : ℕ → String → Bool
starts_in k String.[] = false
starts_in k (String.◌∷◌ c s) = code c == k

-- `s.startswith(prefix)`, of the prefix and the text
unfoldable pub starts_with : String → String → Bool
starts_with String.[] s = true
starts_with (String.◌∷◌ c p) String.[] = false
starts_with (String.◌∷◌ c p) (String.◌∷◌ d s) = code c == code d && starts_with p s

-- What follows a prefix, and what is before the first occurrence of a text.
unfoldable pub after : String → String → Option String
after String.[] s = some s
after (String.◌∷◌ c p) String.[] = none
after (String.◌∷◌ c p) (String.◌∷◌ d s) = if code c == code d then after p s else none

unfoldable pub before : String → String → Option String
unfolding starts_with
before mark String.[] = if is_empty_text mark then some String.[] else none
before mark (String.◌∷◌ c s) =
    let rest = before mark s in
    if starts_with mark (String.◌∷◌ c s)
    then some String.[]
    else elim rest [ none ↦ none | some t ↦ some (String.◌∷◌ c t) ]

-- `sep.join(xs)`
unfoldable pub join_texts : String → List String → String
join_texts sep [] = ""
join_texts sep (x ∷ []) = x
join_texts sep (x ∷ y ∷ xs) = x ++ sep ++ join_texts sep (y ∷ xs)

strip_text : strip "  a b " ≡ "a b"
unfolding strip
strip_text = refl

partition_text : partition b' ' "spec q r" ≡ ("spec", true, "q r")
unfolding partition
partition_text = refl
