-- ===== src/Analyzer/Correlate/Claims.antt =====
-- The flows that own a key (5gcap/fivegcap/correlate.py, `_flow_supis` and `_flow_tunnels`).
use g_pcap.Prelude.{
  ℕ, true, ◌&&◌, is, if◌then◌else◌, ap, ◌≡◌, refl, sym, ◌∙◌, some, List, [], ◌∷◌, arith, In, inl,
  inr, Bool-cases, ◌⊎◌, ℕ_discrete, subst,
}
use g_pcap.Prelude.Dict.{get, put, get-put}
use g_pcap.Prelude.Sets.{
  mem, add, mem-add, In-mem, mem_of_In, IsDistinct, add-IsDistinct, sole-mem, sole_only, sole_intro,
}
use mathlib.Core.Logic.{ite}
use g_pcap.Analyzer.Flow.{Flow}
use g_pcap.Analyzer.Correlate.{Claims, list_at, claim_all, claims_from, owner}

-- A flow of the list with the id declares the key.
abbrev pub IsDeclared : {K : Type 0} → (Flow → List K) → List Flow → K → ℕ → Type 0
IsDeclared keys flows k id = (f : Flow) × In f flows × (f.flow_id ≡ id) × In k (keys f)

-- The flow declares the key, and no flow with another id does.
pub record IsOwner {K : Type 0} (keys : Flow → List K) (flows : List Flow) (k : K) (id : ℕ)
    : Type 0 where
  pub declared : IsDeclared keys flows k id
  pub alone : (other : ℕ) → IsDeclared keys flows k other → other ≡ id

module _ {K : Type 0} (dec : Discrete K) where
  abbrev ids : Claims K → K → List ℕ
  ids claims k = list_at (get dec k claims)

  ids-put :
      (a k : K) (v : List ℕ) (claims : Claims K)
      → ids (put dec a v claims) k ≡ ite (dec a k) v (ids claims k)
  ids-put a k v claims = rw (get-put dec a k v claims) (ground arith)

  -- One flow's keys: its id joins the claimants of each, and of no other key.
  claim_all-mem :
      (id j : ℕ) (k : K) (ks : List K) (claims : Claims K)
      → mem ℕ_discrete j (ids (claim_all dec id ks claims) k)
        ≡ (if mem dec k ks && is (ℕ_discrete id j) then true else mem ℕ_discrete j (ids claims k))
  unfolding claim_all mem
  claim_all-mem id j k [] claims = refl
  claim_all-mem id j k (a ∷ ks) claims =
      let v = add ℕ_discrete id (ids claims a) in
      let now = claim_all-mem id j k ks (put dec a v claims) in
      let at = ids-put a k v claims in
      let new = mem-add ℕ_discrete id j (ids claims a) in
      elim (dec a k) [ yes e ↦ ground (arith, now, at, new) | no n ↦ ground (arith, now, at) ]

  ite-IsDistinct :
      {P : Type 0} (xs ys : List ℕ) (d : Dec P)
      → IsDistinct ℕ_discrete xs
      → IsDistinct ℕ_discrete ys
      → IsDistinct ℕ_discrete (ite d xs ys)
  ite-IsDistinct xs ys (yes p) h g = h
  ite-IsDistinct xs ys (no n) h g = g

  claim_all-IsDistinct :
      (id : ℕ) (ks : List K) (claims : Claims K)
      → ((k : K) → IsDistinct ℕ_discrete (ids claims k))
      → (k : K) → IsDistinct ℕ_discrete (ids (claim_all dec id ks claims) k)
  unfolding claim_all
  claim_all-IsDistinct id [] claims h = h
  claim_all-IsDistinct id (a ∷ ks) claims h =
      let v = add ℕ_discrete id (ids claims a) in
      claim_all-IsDistinct id ks (put dec a v claims) (λ k.
        rw (ids-put a k v claims)
          (ite-IsDistinct _ _ (dec a k) (add-IsDistinct ℕ_discrete id (ids claims a) (h a)) (h k)))

  claims_from-IsDistinct :
      (keys : Flow → List K) (flows : List Flow) (claims : Claims K)
      → ((k : K) → IsDistinct ℕ_discrete (ids claims k))
      → (k : K) → IsDistinct ℕ_discrete (ids (claims_from dec keys flows claims) k)
  unfolding claims_from
  claims_from-IsDistinct keys [] claims h = h
  claims_from-IsDistinct keys (f ∷ fs) claims h =
      claims_from-IsDistinct keys fs (claim_all dec f.flow_id (keys f) claims)
        (claim_all-IsDistinct f.flow_id (keys f) claims h)

  module _ (keys : Flow → List K) (k : K) (j : ℕ) where
    claims_from-IsDeclared :
        (flows : List Flow) (claims : Claims K)
        → mem ℕ_discrete j (ids (claims_from dec keys flows claims) k) ≡ true
        → (mem ℕ_discrete j (ids claims k) ≡ true) ⊎ IsDeclared keys flows k j
    unfolding claims_from
    claims_from-IsDeclared [] claims h = inl h
    claims_from-IsDeclared (f ∷ fs) claims h =
        elim (claims_from-IsDeclared fs (claim_all dec f.flow_id (keys f) claims) h) [
          | inr (g, there, same, d) ↦ inr (g, inr there, same, d)
          | inl now ↦ elim (Bool-cases (mem dec k (keys f) && is (ℕ_discrete f.flow_id j))) [
            | inl e ↦ inr (f, inl refl, ground arith, In-mem dec k (keys f) (ground arith))
            | inr e ↦ inl (ground (arith, claim_all-mem f.flow_id j k (keys f) claims))
          ]
        ]

    claims_from-kept :
        (flows : List Flow) (claims : Claims K)
        → mem ℕ_discrete j (ids claims k) ≡ true
        → mem ℕ_discrete j (ids (claims_from dec keys flows claims) k) ≡ true
    unfolding claims_from
    claims_from-kept [] claims h = h
    claims_from-kept (f ∷ fs) claims h =
        claims_from-kept fs (claim_all dec f.flow_id (keys f) claims)
          (ground (arith, claim_all-mem f.flow_id j k (keys f) claims))

    claims_from-mem :
        (flows : List Flow) (claims : Claims K)
        → IsDeclared keys flows k j
        → mem ℕ_discrete j (ids (claims_from dec keys flows claims) k) ≡ true
    unfolding claims_from
    claims_from-mem [] claims (g, there, same, d) = absurd there
    claims_from-mem (f ∷ fs) claims (g, inr there, same, d) =
        claims_from-mem fs (claim_all dec f.flow_id (keys f) claims) (g, there, same, d)
    claims_from-mem (f ∷ fs) claims (g, inl e, same, has) =
        let has' : In k (keys f) = subst (λ x. In k (keys x)) e has in
        let id : f.flow_id ≡ j = ap (λ x. x.flow_id) (sym e) ∙ same in
        claims_from-kept fs (claim_all dec f.flow_id (keys f) claims) (
          ground
            (arith, claim_all-mem f.flow_id j k (keys f) claims, mem_of_In dec k (keys f) has'))

  module _ (keys : Flow → List K) (flows : List Flow) (k : K) (id : ℕ) where
    abbrev table : Claims K
    table = claims_from dec keys flows []

    table-IsDeclared : (j : ℕ) → mem ℕ_discrete j (ids table k) ≡ true → IsDeclared keys flows k j
    unfolding get mem
    table-IsDeclared j h = elim (claims_from-IsDeclared keys k j flows [] h) [
      | inl e ↦ cc
      | inr d ↦ d
    ]

    -- The tables of both planes: a key's owner is the one flow that declares it.
    pub owner-IsOwner : owner dec table k ≡ some id → IsOwner keys flows k id
    unfolding owner
    owner-IsOwner e = record {
      declared = table-IsDeclared id (sole-mem ℕ_discrete (ids table k) id e);
      alone = λ other d.
          sole_only ℕ_discrete (ids table k) id other e (claims_from-mem keys k other flows [] d);
    }

    pub owner_of_IsOwner : IsOwner keys flows k id → owner dec table k ≡ some id
    unfolding owner get
    owner_of_IsOwner h =
        sole_intro ℕ_discrete (ids table k) id (claims_from-IsDistinct keys flows [] (λ j. tt) k)
          (claims_from-mem keys k id flows [] h.declared)
          (λ other e. h.alone other (table-IsDeclared other e))
