-- ===== src/Prelude/Sets.antt =====
-- Python's `set`: a list in which each element stands once, in the order of insertion.
use mathlib.Core.Bool.{Bool, true, false}
use mathlib.Core.List.{List, [], ◌∷◌, ◌++◌}
use mathlib.Core.Logic.{ite, inl, inr}
use mathlib.Core.Option.{Option, none, some}
use mathlib.Core.Path.{◌≡◌, refl, sym}
use native.Mathlib.Omega.{arith}
use g_pcap.Prelude.Lists.{In}
use g_pcap.Prelude.Tests.{if◌then◌else◌, Bool-cases}

module _ {ℓ} {A : Type ℓ} (dec : Discrete A) where
  -- `a in s`
  unfoldable pub mem : A → List A → Bool
  mem a [] = false
  mem a (x ∷ xs) = ite (dec x a) true (mem a xs)

  -- `s.add(a)`
  unfoldable pub add : A → List A → List A
  unfolding mem
  add a xs = if mem a xs then xs else xs ++ a ∷ []

  pub mem-append :
      (a : A) (xs ys : List A) → mem a (xs ++ ys) ≡ (if mem a xs then true else mem a ys)
  unfolding mem
  mem-append a [] ys = refl
  mem-append a (x ∷ xs) ys = ground (arith, mem-append a xs ys)

  pub mem-add : (a b : A) (xs : List A) → mem b (add a xs) ≡ ite (dec a b) true (mem b xs)
  unfolding add
  mem-add a b xs = ground (arith, mem-append b xs (a ∷ []))

module _ {A : Type 0} (dec : Discrete A) where
  pub In-mem : (a : A) (xs : List A) → mem dec a xs ≡ true → In a xs
  unfolding mem
  In-mem a [] h = cc
  In-mem a (x ∷ xs) h = elim (dec x a) [
    | yes e ↦ inl (sym e)
    | no n ↦ inr (In-mem a xs (ground arith))
  ]

  pub mem_of_In : (a : A) (xs : List A) → In a xs → mem dec a xs ≡ true
  unfolding mem
  mem_of_In a [] h = absurd h
  mem_of_In a (x ∷ xs) (inl e) = ground arith
  mem_of_In a (x ∷ xs) (inr h) = ground (arith, mem_of_In a xs h)

module _ {A : Type 0} (dec : Discrete A) where
  abbrev pub IsDistinct : List A → Type 0
  IsDistinct [] = Unit
  IsDistinct (x ∷ xs) = (mem dec x xs ≡ false) × IsDistinct xs

  IsDistinct-append :
      (a : A) (xs : List A) → mem dec a xs ≡ false → IsDistinct xs → IsDistinct (xs ++ a ∷ [])
  unfolding mem
  IsDistinct-append a [] e h = (refl, tt)
  IsDistinct-append a (x ∷ xs) e h =
      (ground (arith, h.0, mem-append dec x xs (a ∷ [])), IsDistinct-append a xs (ground arith) h.1)

  pub add-IsDistinct : (a : A) (xs : List A) → IsDistinct xs → IsDistinct (add dec a xs)
  unfolding add
  add-IsDistinct a xs h = elim (Bool-cases (mem dec a xs)) [
    | inl e ↦ rw e h
    | inr e ↦ rw e (IsDistinct-append a xs e h)
  ]

-- `next(iter(s))` of a set with `len(s) == 1`.
abbrev pub sole {ℓ} : {A : Type ℓ} → List A → Option A
sole [] = none
sole (x ∷ []) = some x
sole (x ∷ y ∷ xs) = none

module _ {A : Type 0} (dec : Discrete A) where
  pub sole-mem : (xs : List A) (a : A) → sole xs ≡ some a → mem dec a xs ≡ true
  unfolding mem
  sole-mem [] a e = cc
  sole-mem (x ∷ []) a e = ground arith
  sole-mem (x ∷ y ∷ xs) a e = cc

  pub sole_only : (xs : List A) (a b : A) → sole xs ≡ some a → mem dec b xs ≡ true → b ≡ a
  unfolding mem
  sole_only [] a b e h = cc
  sole_only (x ∷ []) a b e h = ground arith
  sole_only (x ∷ y ∷ xs) a b e h = cc

  pub sole_intro :
      (xs : List A) (a : A)
      → IsDistinct dec xs
      → mem dec a xs ≡ true
      → ((b : A) → mem dec b xs ≡ true → b ≡ a)
      → sole xs ≡ some a
  unfolding mem
  sole_intro [] a d h u = cc
  sole_intro (x ∷ []) a d h u = ground arith
  sole_intro (x ∷ y ∷ xs) a d h u =
      let p : x ≡ a = u x (ground arith) in
      let q : y ≡ a = u y (ground arith) in ground (arith, d.0)
