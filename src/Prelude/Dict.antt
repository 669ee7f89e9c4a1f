-- ===== src/Prelude/Dict.antt =====
-- Python's `dict`: an association list in insertion order. Assignment to a key that is there
-- keeps its place; a new key goes to the end. Tests on keys are decisions.
use mathlib.Core.List.{List, [], ◌∷◌, ◌++◌, map}
use mathlib.Core.Logic.{ite, if_pos, if_neg, ◌≢◌}
use mathlib.Core.Option.{Option, none, some}
use mathlib.Core.Path.{◌≡◌, refl, sym, subst, ◌∙◌}
use native.Mathlib.Omega.{arith}
use g_pcap.Prelude.Lists.{All}

abbrev pub Dict {ℓ} : Type ℓ → Type ℓ → Type ℓ
Dict K V = List (K × V)

module _ {ℓ} {K V : Type ℓ} where
  -- `d.values()`
  abbrev pub values : Dict K V → List V
  values = map (λ e. e.1)

module _ {ℓ} {K V : Type ℓ} (dec : Discrete K) where
  -- `d.get(k)`
  unfoldable pub get : K → Dict K V → Option V
  get k [] = none
  get k ((j, v) ∷ d) = ite (dec j k) (some v) (get k d)

  -- `d[k] = v`
  unfoldable pub put : K → V → Dict K V → Dict K V
  put k v [] = (k, v) ∷ []
  put k v ((j, w) ∷ d) = ite (dec j k) ((j, v) ∷ d) ((j, w) ∷ put k v d)

  -- `d.pop(k, None)`; what it returns is read by `get`
  unfoldable pub remove : K → Dict K V → Dict K V
  remove k [] = []
  remove k ((j, w) ∷ d) = ite (dec j k) (remove k d) ((j, w) ∷ remove k d)

  pub get-put :
      (k j : K) (v : V) (d : Dict K V) → get j (put k v d) ≡ ite (dec k j) (some v) (get j d)
  unfolding get put
  get-put k j v [] = refl
  get-put k j v ((i, w) ∷ d) = ground (arith, get-put k j v d)

  pub get-remove : (k j : K) (d : Dict K V) → get j (remove k d) ≡ ite (dec k j) none (get j d)
  unfolding get remove
  get-remove k j [] = ground arith
  get-remove k j ((i, w) ∷ d) = ground (arith, get-remove k j d)

  -- A key that is not there goes to the end.
  pub put-append : (k : K) (v : V) (d : Dict K V) → get k d ≡ none → put k v d ≡ d ++ (k, v) ∷ []
  unfolding get put
  put-append k v [] h = refl
  put-append k v ((i, w) ∷ d) h = ground (arith, put-append k v d)

  -- Each key once.
  abbrev pub IsDict : Dict K V → Type ℓ
  IsDict [] = Unit
  IsDict ((j, w) ∷ d) = (get j d ≡ none) × IsDict d

  pub put-IsDict : (k : K) (v : V) (d : Dict K V) → IsDict d → IsDict (put k v d)
  unfolding get put
  put-IsDict k v [] h = (refl, tt)
  put-IsDict k v ((i, w) ∷ d) h = ground (arith, put-IsDict k v d h.1, get-put k i v d)

  pub remove-IsDict : (k : K) (d : Dict K V) → IsDict d → IsDict (remove k d)
  unfolding remove
  remove-IsDict k [] h = tt
  remove-IsDict k ((i, w) ∷ d) h = ground (arith, remove-IsDict k d h.1, get-remove k i d)

  -- What is left by `remove`, and all there is where the key is absent, has other keys.
  pub All-remove :
      (P Q : (K × V) → Type ℓ) (k : K) (d : Dict K V)
      → ((j : K) (v : V) → j ≢ k → P (j, v) → Q (j, v))
      → All P d
      → All Q (remove k d)
  unfolding remove
  All-remove P Q k [] f h = tt
  All-remove P Q k ((i, w) ∷ d) f h = elim (dec i k) [
    | yes e ↦ rw (if_pos _ e) (All-remove P Q k d f h.1)
    | no n ↦ rw (if_neg _ n) (f i w n h.0, All-remove P Q k d f h.1)
  ]

  pub All-absent :
      (P Q : (K × V) → Type ℓ) (k : K) (d : Dict K V)
      → get k d ≡ none
      → ((j : K) (v : V) → j ≢ k → P (j, v) → Q (j, v))
      → All P d
      → All Q d
  unfolding get
  All-absent P Q k [] e f h = tt
  All-absent P Q k ((i, w) ∷ d) e f h =
      (f i w (ground arith) h.0, All-absent P Q k d (ground arith) f h.1)

  pub All-get :
      (P : (K × V) → Type ℓ) (k : K) (v : V) (d : Dict K V) → All P d → get k d ≡ some v → P (k, v)
  unfolding get
  All-get P k v [] h e = cc
  All-get P k v ((i, w) ∷ d) h e = ground (arith, All-get P k v d h.1)

  pub remove_absent : (k : K) (d : Dict K V) → get k d ≡ none → remove k d ≡ d
  unfolding get remove
  remove_absent k [] h = refl
  remove_absent k ((i, w) ∷ d) h = ground (arith, remove_absent k d)

  -- What holds of every entry that `get` finds holds of all entries.
  pub All-get_intro :
      (P : (K × V) → Type ℓ) (d : Dict K V)
      → IsDict d
      → ((k : K) (v : V) → get k d ≡ some v → P (k, v))
      → All P d
  unfolding get
  All-get_intro P [] u f = tt
  All-get_intro P ((i, w) ∷ d) u f = (
    f i w (if_pos (dec i i) refl _ _),
    All-get_intro P d u.1 (λ k v e. f k v (if_neg (dec i k) (λ same. ground (arith, u.0)) _ _ ∙ e)),
  )

  pub All-put :
      (P : (K × V) → Type ℓ) (k : K) (v : V) (d : Dict K V) → P (k, v) → All P d → All P (put k v d)
  unfolding put
  All-put P k v [] p h = (p, tt)
  All-put P k v ((i, w) ∷ d) p h = elim (dec i k) [
    | yes e ↦ rw (if_pos _ e) (subst (λ j. P (j, v)) (sym e) p, h.1)
    | no n ↦ rw (if_neg _ n) (h.0, All-put P k v d p h.1)
  ]
