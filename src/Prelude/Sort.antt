-- ===== src/Prelude/Sort.antt =====
-- Python's `sort(key=f)`: stable. An element goes before the first one whose key is not smaller.
use Prim.Native.Nat.{ℕ}
use mathlib.Core.List.{List, [], ◌∷◌, Perm}
use mathlib.Core.List.Perm
use mathlib.Core.Bool.{Bool}
use mathlib.Core.Path.{◌≡◌, refl}
use native.Mathlib.Omega.{arith}
use g_pcap.Prelude.Lists.{All, In, keep, length}
use mathlib.Core.Logic.{inl, inr}
use g_pcap.Prelude.Tests.{leb, ◌==◌, if◌then◌else◌, Bool-cases}

module _ {ℓ} {A : Type ℓ} (key : A → ℕ) where
  unfoldable pub insert_by : A → List A → List A
  insert_by x [] = x ∷ []
  insert_by x (y ∷ ys) = if leb (key x) (key y) then x ∷ y ∷ ys else y ∷ insert_by x ys

  unfoldable pub sort_by : List A → List A
  unfolding insert_by
  sort_by [] = []
  sort_by (x ∷ xs) = insert_by x (sort_by xs)

  insert_by-perm : (x : A) (xs : List A) → Perm (insert_by x xs) (x ∷ xs)
  unfolding insert_by
  insert_by-perm x [] = Perm.refl (x ∷ [])
  insert_by-perm x (y ∷ ys) = elim (Bool-cases (leb (key x) (key y))) [
    | inl e ↦ rw e (Perm.refl (x ∷ y ∷ ys))
    | inr e ↦ rw e (Perm.trans (Perm.cons y (insert_by-perm x ys)) (Perm.swap x y ys))
  ]

  -- Sorting loses nothing and adds nothing.
  pub sort_by-perm : (xs : List A) → Perm (sort_by xs) xs
  unfolding sort_by
  sort_by-perm [] = Perm.refl []
  sort_by-perm (x ∷ xs) = Perm.trans (insert_by-perm x (sort_by xs)) (Perm.cons x (sort_by-perm xs))

  All-insert_by : (P : A → Type 0) (x : A) (xs : List A) → P x → All P xs → All P (insert_by x xs)
  unfolding insert_by
  All-insert_by P x [] hx h = (hx, tt)
  All-insert_by P x (y ∷ ys) hx h = ground (arith, All-insert_by P x ys hx h.1)

  pub All-sort_by : (P : A → Type 0) (xs : List A) → All P xs → All P (sort_by xs)
  unfolding sort_by
  All-sort_by P [] h = tt
  All-sort_by P (x ∷ xs) h = All-insert_by P x (sort_by xs) h.0 (All-sort_by P xs h.1)

  -- Stability: the elements with one key keep their order.
  insert_by-keep_eq :
      (n : ℕ) (x : A) (xs : List A)
      → keep (λ y. key y == n) (insert_by x xs) ≡ keep (λ y. key y == n) (x ∷ xs)
  unfolding insert_by
  insert_by-keep_eq n x [] = refl
  insert_by-keep_eq n x (y ∷ ys) = ground (arith, insert_by-keep_eq n x ys)

  pub sort_by_stable :
      (n : ℕ) (xs : List A) → keep (λ y. key y == n) (sort_by xs) ≡ keep (λ y. key y == n) xs
  unfolding sort_by
  sort_by_stable n [] = refl
  sort_by_stable n (x ∷ xs) =
      ground (arith, insert_by-keep_eq n x (sort_by xs), sort_by_stable n xs)

module _ {A : Type 0} (key : A → ℕ) where
  In-insert_by : (a x : A) (xs : List A) → In a (x ∷ xs) → In a (insert_by key x xs)
  unfolding insert_by
  In-insert_by a x [] h = h
  In-insert_by a x (y ∷ ys) h = elim (Bool-cases (leb (key x) (key y))) [
    | inl e ↦ rw e h
    | inr e ↦ rw e (behind (In-insert_by a x ys) h)
  ]
    where
      behind :
          (In a (x ∷ ys) → In a (insert_by key x ys))
          → In a (x ∷ y ∷ ys)
          → In a (y ∷ insert_by key x ys)
      behind ih (inl e) = inr (ih (inl e))
      behind ih (inr (inl e)) = inl e
      behind ih (inr (inr h')) = inr (ih (inr h'))

  pub In-sort_by : (a : A) (xs : List A) → In a xs → In a (sort_by key xs)
  unfolding sort_by
  In-sort_by a [] h = elim h [ ]
  In-sort_by a (x ∷ xs) (inl e) = In-insert_by a x (sort_by key xs) (inl e)
  In-sort_by a (x ∷ xs) (inr h) = In-insert_by a x (sort_by key xs) (inr (In-sort_by a xs h))

-- As many elements pass a test after sorting as before.
module _ {A : Type 0} (key : A → ℕ) (p : A → Bool) where
  length-keep-insert_by :
      (x : A) (xs : List A) → length (keep p (insert_by key x xs)) ≡ length (keep p (x ∷ xs))
  unfolding insert_by
  length-keep-insert_by x [] = refl
  length-keep-insert_by x (y ∷ ys) = ground (arith, length-keep-insert_by x ys)

  pub length-keep-sort_by : (xs : List A) → length (keep p (sort_by key xs)) ≡ length (keep p xs)
  unfolding sort_by
  length-keep-sort_by [] = refl
  length-keep-sort_by (x ∷ xs) =
      ground (arith, length-keep-insert_by x (sort_by key xs), length-keep-sort_by xs)
