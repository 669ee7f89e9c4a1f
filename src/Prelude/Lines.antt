-- ===== src/Prelude/Lines.antt =====
-- The lines of a text: Python's `text.split("\n")`, and `"\n".join(lines)`.
use Prim.Native.Char.{Char, code}
use Prim.Native.String.{String, ◌++◌ as append}
use Prim.Native.String
use mathlib.Core.Bool.{false}
use mathlib.Core.List.{List, [], ◌∷◌, ◌++◌}
use mathlib.Core.Logic.{inl, inr}
use mathlib.Core.Path.{◌≡◌, refl, ap, ◌∙◌}
use native.Mathlib.Omega.{arith}
use g_pcap.Prelude.Lists.{All}
use g_pcap.Prelude.Tests.{◌==◌, if◌then◌else◌, Bool-cases}
use g_pcap.Prelude.Chars.{join_texts}

-- A character before the first of the lines.
abbrev pub push : Char → List String → List String
push c [] = String.◌∷◌ c String.[] ∷ []
push c (l ∷ ls) = String.◌∷◌ c l ∷ ls

unfoldable pub split_lines : String → List String
split_lines String.[] = String.[] ∷ []
split_lines (String.◌∷◌ c s) =
    let rest = split_lines s in if code c == 10 then String.[] ∷ rest else push c rest

abbrev pub IsLine : String → Type 0
IsLine String.[] = Unit
IsLine (String.◌∷◌ c s) = ((code c == 10) ≡ false) × IsLine s

push-All :
    (c : Char) (ls : List String) → (code c == 10) ≡ false → All IsLine ls → All IsLine (push c ls)
push-All c [] e h = ((e, tt), tt)
push-All c (l ∷ ls) e h = ((e, h.0), h.1)

-- The lines of a text have no newline.
pub split_lines-All : (s : String) → All IsLine (split_lines s)
unfolding split_lines
split_lines-All String.[] = (tt, tt)
split_lines-All (String.◌∷◌ c s) =
    let rest = split_lines-All s in
    elim (Bool-cases (code c == 10)) [
      | inl e ↦ rw e (tt, rest)
      | inr e ↦ rw e (push-All c (split_lines s) e rest)
    ]

push_cons : (c : Char) (ls : List String) → push c ls ≡ [] → ⊥
push_cons c [] e = cc
push_cons c (l ∷ ls) e = cc

pub split_lines_cons : (s : String) → split_lines s ≡ [] → ⊥
unfolding split_lines
split_lines_cons String.[] e = cc
split_lines_cons (String.◌∷◌ c s) e = elim (Bool-cases (code c == 10)) [
  | inl q ↦ ground (arith, q)
  | inr q ↦ push_cons c (split_lines s) (ground (arith, q))
]

push-append_lines :
    (c : Char) (xs ys : List String) → (xs ≡ [] → ⊥) → push c (xs ++ ys) ≡ push c xs ++ ys
push-append_lines c [] ys h = absurd (h refl)
push-append_lines c (x ∷ xs) ys h = refl

newline_first : (t : String) → split_lines (append "\n" t) ≡ String.[] ∷ split_lines t
unfolding split_lines
newline_first t =
    ap split_lines (Prim.Native.String.append.cons "\n" String.[] t)
    ∙ ap (λ u. String.[] ∷ split_lines u) (Prim.Native.String.append.nil t)

-- A newline ends a line: what is before it and what is after it are split apart.
pub split_lines-append :
    (s t : String) → split_lines (append s (append "\n" t)) ≡ split_lines s ++ split_lines t
unfolding split_lines
split_lines-append String.[] t =
    ap split_lines (Prim.Native.String.append.nil (append "\n" t)) ∙ newline_first t
split_lines-append (String.◌∷◌ c s) t =
    let rest = split_lines-append s t in
    ap split_lines (Prim.Native.String.append.cons c s (append "\n" t))
    ∙ elim (Bool-cases (code c == 10)) [
      | inl e ↦ rw (e, rest) refl
      | inr e ↦
          rw (e, rest) (push-append_lines c (split_lines s) (split_lines t) (split_lines_cons s))
    ]

-- A text without a newline is its only line.
pub split_lines_single : (s : String) → IsLine s → split_lines s ≡ s ∷ []
unfolding split_lines
split_lines_single String.[] h = refl
split_lines_single (String.◌∷◌ c s) h = let rest = split_lines_single s h.1 in rw (h.0, rest) refl

-- Lines that are joined are split into themselves.
pub split_lines-join_texts :
    (l : String) (ls : List String)
    → All IsLine (l ∷ ls)
    → split_lines (join_texts "\n" (l ∷ ls)) ≡ l ∷ ls
unfolding join_texts
split_lines-join_texts l [] h = split_lines_single l h.0
split_lines-join_texts l (m ∷ ls) h =
    let rest = split_lines-join_texts m ls h.1 in
    split_lines-append l (join_texts "\n" (m ∷ ls)) ∙ rw (split_lines_single l h.0, rest) refl
