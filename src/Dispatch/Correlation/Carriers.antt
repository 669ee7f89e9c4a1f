-- ===== src/Dispatch/Correlation/Carriers.antt =====
-- The items that carry a key value (dispatch/dispatch/correlation.py, `link`).
use mathlib.Core.Logic.{ite}
use g_pcap.Prelude.{
  ℕ, zero, suc, ◌+◌, String, ◌≡◌, refl, sym, ap, subst, Option, none, some, List, [], ◌∷◌, ◌++◌,
  arith, get_elem?, In, In-append_left, In-append_right, inl, inr, ◌⊎◌,
}
use g_pcap.Prelude.Dict.{Dict, get, put, get-put}
use g_pcap.Dispatch.Correlation.{
  Evidence, indexes_at, KeyValue-discrete, ByValue, index_keys, index_all,
}

-- The item at the index has the key, with the value.
pub record Carries {V : Type 0} (es : List (Evidence V)) (kv : String × V) (c : ℕ) : Type 0 where
  pub item : Evidence V
  pub found : get_elem? es c ≡ some item
  pub has : In (kv.0, some kv.1) item.keys

In-append_cases : {A : Type 0} (a : A) (xs ys : List A) → In a (xs ++ ys) → In a xs ⊎ In a ys
In-append_cases a [] ys h = inr h
In-append_cases a (x ∷ xs) ys (inl e) = inl (inl e)
In-append_cases a (x ∷ xs) ys (inr h) = elim (In-append_cases a xs ys h) [
  | inl l ↦ inl (inr l)
  | inr r ↦ inr r
]

module _ {V : Type 0} (dec : Discrete V) (kv : String × V) (c : ℕ) where
  abbrev IsListed : ByValue dec → Type 0
  IsListed d = In c (indexes_at (get (KeyValue-discrete dec) kv d))

  abbrev added : String × V → ℕ → ByValue dec → ByValue dec
  added j i d =
      put (KeyValue-discrete dec) j (indexes_at (get (KeyValue-discrete dec) j d) ++ i ∷ []) d

  added-get :
      (j : String × V) (i : ℕ) (d : ByValue dec)
      → indexes_at (get (KeyValue-discrete dec) kv (added j i d))
        ≡ ite
            (KeyValue-discrete dec j kv)
            (indexes_at (get (KeyValue-discrete dec) kv d) ++ i ∷ [])
            (indexes_at (get (KeyValue-discrete dec) kv d))
  added-get j i d = ground (
    arith,
    get-put (KeyValue-discrete dec) j kv (indexes_at (get (KeyValue-discrete dec) j d) ++ i ∷ []) d,
  )

  put-IsListed :
      (j : String × V) (i : ℕ) (d : ByValue dec)
      → IsListed (added j i d)
      → IsListed d ⊎ ((c ≡ i) × (j ≡ kv))
  put-IsListed j i d h = go (KeyValue-discrete dec j kv) (subst (In c) (added-get j i d) h)
    where
      go :
          (q : Dec (j ≡ kv))
          → In c (
              ite q
                (indexes_at (get (KeyValue-discrete dec) kv d) ++ i ∷ [])
                (indexes_at (get (KeyValue-discrete dec) kv d)))
          → IsListed d ⊎ ((c ≡ i) × (j ≡ kv))
      go (no n) h = inl h
      go (yes e) h =
          elim (In-append_cases c (indexes_at (get (KeyValue-discrete dec) kv d)) (i ∷ []) h) [
            | inl l ↦ inl l
            | inr (inl same) ↦ inr (same, e)
            | inr (inr z) ↦ absurd z
          ]

  put_kept : (j : String × V) (i : ℕ) (d : ByValue dec) → IsListed d → IsListed (added j i d)
  put_kept j i d h = subst (In c) (sym (added-get j i d)) (go (KeyValue-discrete dec j kv))
    where
      go :
          (q : Dec (j ≡ kv))
          → In c (
              ite q
                (indexes_at (get (KeyValue-discrete dec) kv d) ++ i ∷ [])
                (indexes_at (get (KeyValue-discrete dec) kv d)))
      go (no n) = h
      go (yes e) = In-append_left c (indexes_at (get (KeyValue-discrete dec) kv d)) (i ∷ []) h

  put_new : (j : String × V) (d : ByValue dec) → j ≡ kv → IsListed (added j c d)
  put_new j d same = subst (In c) (sym (added-get j c d)) (go (KeyValue-discrete dec j kv))
    where
      go :
          (q : Dec (j ≡ kv))
          → In c (
              ite q
                (indexes_at (get (KeyValue-discrete dec) kv d) ++ c ∷ [])
                (indexes_at (get (KeyValue-discrete dec) kv d)))
      go (no n) = absurd (n same)
      go (yes e) =
          In-append_right c (indexes_at (get (KeyValue-discrete dec) kv d)) (c ∷ []) (inl refl)

  index_keys_kept :
      (i : ℕ) (keys : Dict String (Option V)) (d : ByValue dec)
      → IsListed d
      → IsListed (index_keys dec i keys d)
  unfolding index_keys
  index_keys_kept i [] d h = h
  index_keys_kept i ((k, none) ∷ ks) d h = index_keys_kept i ks d h
  index_keys_kept i ((k, some v) ∷ ks) d h = index_keys_kept i ks _ (put_kept (k, v) i d h)

  index_keys_new :
      (keys : Dict String (Option V)) (d : ByValue dec)
      → In (kv.0, some kv.1) keys
      → IsListed (index_keys dec c keys d)
  unfolding index_keys
  index_keys_new [] d h = absurd h
  index_keys_new ((k, none) ∷ ks) d (inl e) = cc
  index_keys_new ((k, none) ∷ ks) d (inr h) = index_keys_new ks d h
  index_keys_new ((k, some v) ∷ ks) d (inl e) = index_keys_kept c ks _ (put_new (k, v) d (cc))
  index_keys_new ((k, some v) ∷ ks) d (inr h) = index_keys_new ks _ h

  index_all_kept :
      (i : ℕ) (es : List (Evidence V)) (d : ByValue dec)
      → IsListed d
      → IsListed (index_all dec i es d)
  unfolding index_all
  index_all_kept i [] d h = h
  index_all_kept i (e ∷ es) d h = index_all_kept (suc i) es _ (index_keys_kept i e.keys d h)

  index_all_new :
      (i n : ℕ) (es : List (Evidence V)) (d : ByValue dec)
      → c ≡ i + n
      → Carries es kv n
      → IsListed (index_all dec i es d)
  unfolding index_all
  index_all_new i n [] d at h = let f = h.found in cc
  index_all_new i zero (e ∷ es) d at h =
      let here : e ≡ h.item = let f = h.found in ground arith in
      let same : c ≡ i = omega arith in
      index_all_kept (suc i) es _ (
        subst (λ j. IsListed (index_keys dec j e.keys d)) same
          (index_keys_new e.keys d (subst (λ x. In (kv.0, some kv.1) x.keys) (sym here) h.has)))
  index_all_new i (suc n) (e ∷ es) d at h =
      index_all_new (suc i) n es _ (omega arith)
        (record { item = h.item; found = h.found; has = h.has })

  index_keys-IsListed :
      (i : ℕ) (keys : Dict String (Option V)) (d : ByValue dec)
      → IsListed (index_keys dec i keys d)
      → IsListed d ⊎ ((c ≡ i) × In (kv.0, some kv.1) keys)
  unfolding index_keys
  index_keys-IsListed i [] d h = inl h
  index_keys-IsListed i ((k, none) ∷ ks) d h = elim (index_keys-IsListed i ks d h) [
    | inl l ↦ inl l
    | inr (e, m) ↦ inr (e, inr m)
  ]
  index_keys-IsListed i ((k, some v) ∷ ks) d h = elim (index_keys-IsListed i ks _ h) [
    | inr (e, m) ↦ inr (e, inr m)
    | inl l ↦ elim (put-IsListed (k, v) i d l) [
      | inl old ↦ inl old
      | inr (e, same) ↦ inr (e, inl (ap (λ p. (p.0, some p.1)) (sym same)))
    ]
  ]

  index_all-IsListed :
      (i : ℕ) (es : List (Evidence V)) (d : ByValue dec)
      → IsListed (index_all dec i es d)
      → IsListed d ⊎ ((n : ℕ) × (c ≡ i + n) × Carries es kv n)
  unfolding index_all
  index_all-IsListed i [] d h = inl h
  index_all-IsListed i (e ∷ es) d h = elim (index_all-IsListed (suc i) es _ h) [
    | inr (n, at, carried) ↦ inr (
      suc n,
      omega arith,
      record { item = carried.item; found = carried.found; has = carried.has },
    )
    | inl l ↦ elim (index_keys-IsListed i e.keys d l) [
      | inl old ↦ inl old
      | inr (at, m) ↦ inr (0, omega arith, record { item = e; found = refl; has = m })
    ]
  ]

  pub Carries-IsListed :
      (es : List (Evidence V)) → Carries es kv c → IsListed (index_all dec 0 es [])
  Carries-IsListed es h = index_all_new 0 c es [] (omega arith) h

  -- The table holds just the items that carry a key value.
  pub listed-Carries : (es : List (Evidence V)) → IsListed (index_all dec 0 es []) → Carries es kv c
  unfolding get
  listed-Carries es h = elim (index_all-IsListed 0 es [] h) [
    | inl z ↦ absurd z
    | inr (n, at, carried) ↦
        let same : n ≡ c = omega arith in subst (λ j. Carries es kv j) same carried
  ]
