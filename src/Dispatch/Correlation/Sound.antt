-- ===== src/Dispatch/Correlation/Sound.antt =====
-- Every link is one that the shared keys allow (dispatch/dispatch/correlation.py, `link`).
use g_pcap.Prelude.{
  ℕ, suc, ◌<◌, ◌≤◌, true, false, ◌&&◌, ◌||◌, leb, ltb, if◌then◌else◌, String, ◌≡◌, refl, sym, ap,
  subst, Option, none, some, List, [], ◌∷◌, arith, get_elem?, length, In, All, All-append, inl, inr,
  ◌⊎◌, Bool-cases, Option-cases,
}
use g_pcap.Prelude.Dict.{Dict, get, IsDict, put-IsDict, All-get_intro}
use g_pcap.Prelude.Sets.{mem}
use g_pcap.Prelude.Sort.{All-sort_by}
use g_pcap.Prelude.Text.{String-discrete}
use g_pcap.Dispatch.Correlation.{
  Evidence, Link, Window, indexes_at, KeyValue-discrete, ByValue, index_keys, index_all, is_in,
  differs, disagree, Linked, Pair-discrete, add_link, link_items, try_pair, for_b, for_a,
  for_values, link,
}
use g_pcap.Dispatch.Correlation.Carriers.{Carries, listed-Carries, Carries-IsListed}

-- The items have no key with two values.
abbrev pub Agree : {V : Type 0} → Evidence V → Evidence V → Type 0
Agree item_a item_b =
    (k : String) (v w : _)
    → In (k, some v) item_a.keys
    → get String-discrete k item_b.keys ≡ some (some w)
    → v ≡ w

abbrev pub IsWithin : {V : Type 0} → Window → Evidence V → Type 0
IsWithin w e = (w.0 ≤ e.ts) × (e.ts ≤ w.1)

-- Two items of the window, the first before the second, that carry one key value which no third
-- item carries, and that agree on all the keys that they share.
pub record IsLink {V : Type 0} (es : List (Evidence V)) (w : Window) (l : Link V) : Type 0 where
  pub ordered : l.a < l.b
  pub first : Carries es (l.key, l.value) l.a
  pub second : Carries es (l.key, l.value) l.b
  pub alone : (c : ℕ) → Carries es (l.key, l.value) c → (c ≡ l.a) ⊎ (c ≡ l.b)
  pub first_within : IsWithin w first.item
  pub second_within : IsWithin w second.item
  pub agree : Agree first.item second.item

two_only :
    (xs : List ℕ) (a b c : ℕ)
    → length xs ≤ 2
    → a < b
    → In a xs
    → In b xs
    → In c xs
    → (c ≡ a) ⊎ (c ≡ b)
two_only [] a b c n lt ha hb hc = absurd ha
two_only (x ∷ []) a b c n lt ha hb hc = ground arith
two_only (x ∷ y ∷ []) a b c n lt ha hb hc = ground arith
two_only (x ∷ y ∷ z ∷ xs) a b c n lt ha hb hc = absurd (omega arith)

module _ {V : Type 0} (dec : Discrete V) where
  differs-false :
      (o : Option (Option V)) (v w : V) → differs dec o v ≡ false → o ≡ some (some w) → v ≡ w
  unfolding differs
  differs-false none v w h e = cc
  differs-false (some none) v w h e = cc
  differs-false (some (some u)) v w h e = ground arith

  disagree-false :
      (ks kb : Dict String (Option V)) (k : String) (v w : V)
      → disagree dec ks kb ≡ false
      → In (k, some v) ks
      → get String-discrete k kb ≡ some (some w)
      → v ≡ w
  unfolding disagree
  disagree-false [] kb k v w h m g = absurd m
  disagree-false ((j, none) ∷ ks) kb k v w h (inl e) g = cc
  disagree-false ((j, none) ∷ ks) kb k v w h (inr m) g = disagree-false ks kb k v w h m g
  disagree-false ((j, some u) ∷ ks) kb k v w h (inr m) g =
      disagree-false ks kb k v w (ground arith) m g
  disagree-false ((j, some u) ∷ ks) kb k v w h (inl e) g =
      let same_key : k ≡ j = cc in
      let same : v ≡ u = cc in
      differs-false (get String-discrete j kb) v w (ground arith)
        (subst (λ i. get String-discrete i kb ≡ some (some w)) same_key g)

  is_in-IsWithin : (w : Window) (e : Evidence V) → is_in dec w e ≡ true → IsWithin w e
  unfolding is_in
  is_in-IsWithin (start, end) e h = (ground arith, ground arith)

  module _ (es : List (Evidence V)) (w : Window) where
    abbrev AllLinks : Linked dec → Type 0
    AllLinks s = All (IsLink es w) s.links

    -- The indexes are those of the items that carry the key value.
    abbrev pub IsComplete : String × V → List ℕ → Type 0
    IsComplete kv xs = (c : ℕ) → (In c xs → Carries es kv c) × (Carries es kv c → In c xs)

    module _ (kv : String × V) (xs : List ℕ) (complete : IsComplete kv xs)
        (few : length xs ≤ 2) where
      new-IsLink :
          (a b : ℕ) (item_a item_b : Evidence V)
          → a < b
          → In a xs
          → In b xs
          → get_elem? es a ≡ some item_a
          → get_elem? es b ≡ some item_b
          → is_in dec w item_a ≡ true
          → is_in dec w item_b ≡ true
          → disagree dec item_a.keys item_b.keys ≡ false
          → IsLink es w (record { a = a; b = b; key = kv.0; value = kv.1 })
      new-IsLink a b item_a item_b lt ha hb fa fb wa wb d =
          let ca = (complete a).0 ha in
          let cb = (complete b).0 hb in
          let same_a : item_a ≡ ca.item = let f = ca.found in ground arith in
          let same_b : item_b ≡ cb.item = let f = cb.found in ground arith in
          record {
            ordered = lt;
            first = ca;
            second = cb;
            alone = λ c h. two_only xs a b c few lt ha hb ((complete c).1 h);
            first_within = subst (IsWithin w) same_a (is_in-IsWithin w item_a wa);
            second_within = subst (IsWithin w) same_b (is_in-IsWithin w item_b wb);
            agree = λ k u v m g.
                disagree-false item_a.keys item_b.keys k u v d
                  (subst (λ x. In (k, some u) x.keys) (sym same_a) m)
                  (subst (λ x. get String-discrete k x.keys ≡ some (some v)) (sym same_b) g);
          }

      try_pair-AllLinks :
          (a b : ℕ) (s : Linked dec)
          → In a xs
          → In b xs
          → AllLinks s
          → AllLinks (try_pair dec es w kv a b s)
      unfolding try_pair link_items add_link
      try_pair-AllLinks a b s ha hb h =
          elim (Bool-cases (leb b a || mem (Pair-discrete dec) (a, b) s.seen)) [
            | inl e ↦ rw e h
            | inr e ↦ elim (Option-cases (get_elem? es a)) [
              | inl fa ↦ rw (e, fa) h
              | inr (item_a, fa) ↦ elim (Option-cases (get_elem? es b)) [
                | inl fb ↦ rw (e, fa, fb) h
                | inr (item_b, fb) ↦ elim (Bool-cases (is_in dec w item_a && is_in dec w item_b)) [
                  | inr out ↦ rw (e, fa, fb, out) h
                  | inl within ↦ elim (Bool-cases (disagree dec item_a.keys item_b.keys)) [
                    | inl d ↦ rw (e, fa, fb, within, d) h
                    | inr d ↦
                        rw (e, fa, fb, within, d)
                          (All-append (IsLink es w) s.links _ h (
                            new-IsLink a b item_a item_b (ground arith) ha hb fa fb (ground arith)
                                (ground arith) d,
                            tt,
                          ))
                  ]
                ]
              ]
            ]
          ]

      for_b-AllLinks :
          (a : ℕ) (bs : List ℕ) (s : Linked dec)
          → In a xs
          → ((b : ℕ) → In b bs → In b xs)
          → AllLinks s
          → AllLinks (for_b dec es w kv a bs s)
      unfolding for_b
      for_b-AllLinks a [] s ha sub h = h
      for_b-AllLinks a (b ∷ bs) s ha sub h =
          for_b-AllLinks a bs _ ha (λ c m. sub c (inr m))
            (try_pair-AllLinks a b s ha (sub b (inl refl)) h)

      for_a-AllLinks :
          (rest : List ℕ) (s : Linked dec)
          → ((a : ℕ) → In a rest → In a xs)
          → AllLinks s
          → AllLinks (for_a dec es w kv xs rest s)
      unfolding for_a
      for_a-AllLinks [] s sub h = h
      for_a-AllLinks (a ∷ rest) s sub h =
          for_a-AllLinks rest _ (λ c m. sub c (inr m))
            (for_b-AllLinks a xs s (sub a (inl refl)) (λ b m. m) h)

    for_values-AllLinks :
        (d : ByValue dec) (s : Linked dec)
        → All (λ e. IsComplete e.0 e.1) d
        → AllLinks s
        → AllLinks (for_values dec es w d s)
    unfolding for_values
    for_values-AllLinks [] s f h = h
    for_values-AllLinks ((kv, xs) ∷ rest) s f h =
        for_values-AllLinks rest (if ltb 2 (length xs) then s else for_a dec es w kv xs xs s) f.1
          (elim (Bool-cases (ltb 2 (length xs))) [
            | inl e ↦ rw e h
            | inr e ↦ rw e (for_a-AllLinks kv xs f.0 (ground arith) xs s (λ a m. m) h)
          ])

    index_keys-IsDict :
        (i : ℕ) (keys : Dict String (Option V)) (d : ByValue dec)
        → IsDict (KeyValue-discrete dec) d
        → IsDict (KeyValue-discrete dec) (index_keys dec i keys d)
    unfolding index_keys
    index_keys-IsDict i [] d h = h
    index_keys-IsDict i ((k, none) ∷ ks) d h = index_keys-IsDict i ks d h
    index_keys-IsDict i ((k, some v) ∷ ks) d h =
        index_keys-IsDict i ks _ (put-IsDict (KeyValue-discrete dec) (k, v) _ d h)

    index_all-IsDict :
        (i : ℕ) (rest : List (Evidence V)) (d : ByValue dec)
        → IsDict (KeyValue-discrete dec) d
        → IsDict (KeyValue-discrete dec) (index_all dec i rest d)
    unfolding index_all
    index_all-IsDict i [] d h = h
    index_all-IsDict i (e ∷ rest) d h =
        index_all-IsDict (suc i) rest _ (index_keys-IsDict i e.keys d h)

    pub table-IsComplete : All (λ e. IsComplete e.0 e.1) (index_all dec 0 es [])
    table-IsComplete =
        All-get_intro (KeyValue-discrete dec) (λ e. IsComplete e.0 e.1) (index_all dec 0 es [])
          (index_all-IsDict 0 es [] tt)
          (λ kv xs e c.
            let at : indexes_at (get (KeyValue-discrete dec) kv (index_all dec 0 es [])) ≡ xs =
              ap indexes_at e in
            (
              λ m. listed-Carries dec kv c es (subst (In c) (sym at) m),
              λ h. subst (In c) at (Carries-IsListed dec kv c es h),
            ))

    -- Every link that is returned joins two items of the window, the earlier index first, that
    -- carry the link's key value while no third item does, and that disagree on no key.
    pub link-IsLink : All (IsLink es w) (link dec es w)
    unfolding link
    link-IsLink =
        All-sort_by (λ l. l.a) (IsLink es w) _
          (All-sort_by (λ l. l.b) (IsLink es w) _
            (for_values-AllLinks (index_all dec 0 es []) (record { links = []; seen = [] })
              table-IsComplete tt))
