-- ===== src/Prelude/Order.antt =====
-- Python's `list.sort` and `sorted` by a Boolean order: stable, as an element goes before the first
-- that it may precede. The order of texts, and a list's first elements.
use Prim.Native.Nat.{ℕ, zero, suc, ◌≤◌}
use Prim.Native.Char.{code}
use Prim.Native.String.{String}
use mathlib.Core.Bool.{Bool, true, false, ◌&&◌, ◌||◌}
use mathlib.Core.List.{List, [], ◌∷◌}
use mathlib.Core.Logic.{inl, inr}
use mathlib.Core.Path.{◌≡◌, refl}
use native.Mathlib.Omega.{arith}
use g_pcap.Prelude.Lists.{length, All, All-imp}
use g_pcap.Prelude.Tests.{if◌then◌else◌, Bool-cases, ltb, ◌==◌}

module _ {A : Type 0} (le : A → A → Bool) where
  unfoldable pub insert_with : A → List A → List A
  insert_with x [] = x ∷ []
  insert_with x (y ∷ ys) = let rest = insert_with x ys in if le x y then x ∷ y ∷ ys else y ∷ rest

  unfoldable pub sort_with : List A → List A
  unfolding insert_with
  sort_with [] = []
  sort_with (x ∷ xs) = insert_with x (sort_with xs)

  abbrev pub IsOrdered : List A → Type 0
  IsOrdered [] = Unit
  IsOrdered (x ∷ xs) = All (λ y. le x y ≡ true) xs × IsOrdered xs

  module _ (P : A → Type 0) where
    All-insert_with : (x : A) (xs : List A) → P x → All P xs → All P (insert_with x xs)
    unfolding insert_with
    All-insert_with x [] p h = (p, tt)
    All-insert_with x (y ∷ ys) p h =
        let rest = All-insert_with x ys p h.1 in
        elim (Bool-cases (le x y)) [ inl e ↦ rw e (p, h) | inr e ↦ rw e (h.0, rest) ]

    pub All-sort_with : (xs : List A) → All P xs → All P (sort_with xs)
    unfolding sort_with
    All-sort_with [] h = tt
    All-sort_with (x ∷ xs) h = All-insert_with x (sort_with xs) h.0 (All-sort_with xs h.1)

  module _ (total : (x y : A) → le x y ≡ false → le y x ≡ true)
      (trans : (x y z : A) → le x y ≡ true → le y z ≡ true → le x z ≡ true) where
    insert_with-IsOrdered : (x : A) (xs : List A) → IsOrdered xs → IsOrdered (insert_with x xs)
    unfolding insert_with
    insert_with-IsOrdered x [] h = (tt, tt)
    insert_with-IsOrdered x (y ∷ ys) h =
        let rest = insert_with-IsOrdered x ys h.1 in
        elim (Bool-cases (le x y)) [
          | inl e ↦ rw e ((e, All-imp ys (λ z l. trans x y z e l) h.0), h)
          | inr e ↦ rw e (All-insert_with (λ z. le y z ≡ true) x ys (total x y e) h.0, rest)
        ]

    pub sort_with-IsOrdered : (xs : List A) → IsOrdered (sort_with xs)
    unfolding sort_with
    sort_with-IsOrdered [] = tt
    sort_with-IsOrdered (x ∷ xs) = insert_with-IsOrdered x (sort_with xs) (sort_with-IsOrdered xs)

-- `s <= t`, by the code points
unfoldable pub text_leb : String → String → Bool
text_leb String.[] t = true
text_leb (String.◌∷◌ c s) String.[] = false
text_leb (String.◌∷◌ c s) (String.◌∷◌ d t) =
    ltb (code c) (code d) || code c == code d && text_leb s t

-- `xs[:n]`
abbrev pub take : {A : Type 0} → ℕ → List A → List A
take zero xs = []
take (suc n) [] = []
take (suc n) (x ∷ xs) = x ∷ take n xs

module _ {A : Type 0} where
  pub length-take : (n : ℕ) (xs : List A) → length (take n xs) ≤ n
  length-take zero xs = omega arith
  length-take (suc n) [] = omega arith
  length-take (suc n) (x ∷ xs) = omega (arith, length-take n xs)

  pub All-take : (P : A → Type 0) (n : ℕ) (xs : List A) → All P xs → All P (take n xs)
  All-take P zero xs h = tt
  All-take P (suc n) [] h = tt
  All-take P (suc n) (x ∷ xs) h = (h.0, All-take P n xs h.1)

  pub take-IsOrdered :
      (le : A → A → Bool) (n : ℕ) (xs : List A) → IsOrdered le xs → IsOrdered le (take n xs)
  take-IsOrdered le zero xs h = tt
  take-IsOrdered le (suc n) [] h = tt
  take-IsOrdered le (suc n) (x ∷ xs) h =
      (All-take (λ y. le x y ≡ true) n xs h.0, take-IsOrdered le n xs h.1)

module _ {A : Type 0} (le : A → A → Bool) where
  length-insert_with : (x : A) (xs : List A) → length (insert_with le x xs) ≡ suc (length xs)
  unfolding insert_with
  length-insert_with x [] = refl
  length-insert_with x (y ∷ ys) =
      let rest = length-insert_with x ys in
      elim (Bool-cases (le x y)) [ inl e ↦ rw e refl | inr e ↦ rw e (omega (arith, rest)) ]

  pub length-sort_with : (xs : List A) → length (sort_with le xs) ≡ length xs
  unfolding sort_with
  length-sort_with [] = refl
  length-sort_with (x ∷ xs) =
      omega (arith, length-insert_with x (sort_with le xs), length-sort_with xs)
