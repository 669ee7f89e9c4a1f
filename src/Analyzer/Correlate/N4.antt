-- ===== src/Analyzer/Correlate/N4.antt =====
-- The flow of each N4 message (5gcap/fivegcap/correlate.py, `_join_n4`).
use mathlib.Core.Logic.{ite}
use g_pcap.Prelude.{
  ℕ, zero, suc, ◌+◌, ◌<◌, true, ap, ◌≡◌, refl, sym, ◌∙◌, Option, none, some, List, [], ◌∷◌, arith,
  get_elem?, In, inl, inr, Option-cases, ◌⊎◌, ◌↔◌, ℕ_discrete,
}
use g_pcap.Prelude.Dict.{get, put, get-put}
use g_pcap.Prelude.Sets.{
  mem, mem-add, IsDistinct, add-IsDistinct, sole, sole-mem, sole_only, sole_intro,
}
use g_pcap.Analyzer.Value.{Tunnel, Tunnel-discrete}
use g_pcap.Analyzer.Pfcp.{PfcpMsg}
use g_pcap.Analyzer.Flow.{Flow}
use g_pcap.Analyzer.Sbi.{SbiMsg}
use g_pcap.Analyzer.Correlate.{
  Claims, Links, no_links, set_flow, link, link_if, sort_refs, owner, owners, add_if, n4_flow,
  n4_links, join_n4, tunnel_keys, flow_tunnels, correlate,
}
use g_pcap.Analyzer.Correlate.Claims.{IsOwner, owner-IsOwner, owner_of_IsOwner}

-- The message is readable, it carries a key that the flow owns, and no key of another flow's.
pub record IsN4Link (flows : List Flow) (m : PfcpMsg) (id : ℕ) : Type 0 where
  pub readable : m.unparsed ≡ none
  pub joined : (t : Tunnel) × In t m.f_teids × IsOwner tunnel_keys flows t id
  pub alone :
      (t : Tunnel) (other : ℕ) → In t m.f_teids → IsOwner tunnel_keys flows t other → other ≡ id

-- What one message does to the links of a plane.
pub linked-get :
    (i j : ℕ) (o : Option ℕ) (l : Links)
    → get ℕ_discrete j (link_if i o (set_flow i none l)).flow_of
      ≡ ite (ℕ_discrete i j) (some o) (get ℕ_discrete j l.flow_of)
unfolding link_if link set_flow
linked-get i j none l = get-put ℕ_discrete i j none l.flow_of
linked-get i j (some id) l = ground (
  arith,
  get-put ℕ_discrete i j none l.flow_of,
  get-put ℕ_discrete i j (some id) (put ℕ_discrete i none l.flow_of),
)

module _ (claims : Claims Tunnel) where
  abbrev IsOwned : List Tunnel → ℕ → Type 0
  IsOwned ts id = (t : Tunnel) × In t ts × (owner Tunnel-discrete claims t ≡ some id)

  add_if-mem :
      (o : Option ℕ) (ids : List ℕ) (id : ℕ)
      → mem ℕ_discrete id (add_if o ids) ≡ true
      → (o ≡ some id) ⊎ (mem ℕ_discrete id ids ≡ true)
  add_if-mem none ids id h = inr h
  add_if-mem (some j) ids id h = elim (ℕ_discrete j id) [
    | yes e ↦ inl (ap some e)
    | no n ↦ inr (ground (arith, mem-add ℕ_discrete j id ids))
  ]

  add_if_kept :
      (o : Option ℕ) (ids : List ℕ) (id : ℕ)
      → mem ℕ_discrete id ids ≡ true
      → mem ℕ_discrete id (add_if o ids) ≡ true
  add_if_kept none ids id h = h
  add_if_kept (some j) ids id h = ground (arith, mem-add ℕ_discrete j id ids)

  add_if_new :
      (o : Option ℕ) (ids : List ℕ) (id : ℕ) → o ≡ some id → mem ℕ_discrete id (add_if o ids) ≡ true
  add_if_new none ids id e = cc
  add_if_new (some j) ids id e = ground (arith, mem-add ℕ_discrete j id ids)

  add_if-IsDistinct :
      (o : Option ℕ) (ids : List ℕ)
      → IsDistinct ℕ_discrete ids
      → IsDistinct ℕ_discrete (add_if o ids)
  add_if-IsDistinct none ids h = h
  add_if-IsDistinct (some j) ids h = add-IsDistinct ℕ_discrete j ids h

  owners-IsDistinct :
      (ts : List Tunnel) (ids : List ℕ)
      → IsDistinct ℕ_discrete ids
      → IsDistinct ℕ_discrete (owners claims ts ids)
  unfolding owners
  owners-IsDistinct [] ids h = h
  owners-IsDistinct (t ∷ ts) ids h =
      owners-IsDistinct ts _ (add_if-IsDistinct (owner Tunnel-discrete claims t) ids h)

  owners-IsOwned :
      (ts : List Tunnel) (ids : List ℕ) (id : ℕ)
      → mem ℕ_discrete id (owners claims ts ids) ≡ true
      → IsOwned ts id ⊎ (mem ℕ_discrete id ids ≡ true)
  unfolding owners
  owners-IsOwned [] ids id h = inr h
  owners-IsOwned (t ∷ ts) ids id h = elim (owners-IsOwned ts _ id h) [
    | inl (s, there, o) ↦ inl (s, inr there, o)
    | inr now ↦ elim (add_if-mem (owner Tunnel-discrete claims t) ids id now) [
      | inl e ↦ inl (t, inl refl, e)
      | inr e ↦ inr e
    ]
  ]

  owners_kept :
      (ts : List Tunnel) (ids : List ℕ) (id : ℕ)
      → mem ℕ_discrete id ids ≡ true
      → mem ℕ_discrete id (owners claims ts ids) ≡ true
  unfolding owners
  owners_kept [] ids id h = h
  owners_kept (t ∷ ts) ids id h =
      owners_kept ts _ id (add_if_kept (owner Tunnel-discrete claims t) ids id h)

  owners_new :
      (ts : List Tunnel) (ids : List ℕ) (id : ℕ)
      → IsOwned ts id
      → mem ℕ_discrete id (owners claims ts ids) ≡ true
  unfolding owners
  owners_new [] ids id (s, there, o) = absurd there
  owners_new (t ∷ ts) ids id (s, inr there, o) = owners_new ts _ id (s, there, o)
  owners_new (t ∷ ts) ids id (s, inl e, o) = owners_kept ts _ id (
      add_if_new (owner Tunnel-discrete claims t) ids id
        (ap (owner Tunnel-discrete claims) (sym e) ∙ o))

  n4_flow-IsOwned :
      (m : PfcpMsg) (id : ℕ)
      → n4_flow claims m ≡ some id
      → (m.unparsed ≡ none)
        × IsOwned m.f_teids id
        × ((other : ℕ) → IsOwned m.f_teids other → other ≡ id)
  unfolding n4_flow mem
  n4_flow-IsOwned m id e = elim (Option-cases m.unparsed) [
    | inr (note, u) ↦ ground arith
    | inl u ↦
        let s : sole (owners claims m.f_teids []) ≡ some id = ground arith in
        (
          u,
          elim (owners-IsOwned m.f_teids [] id (sole-mem ℕ_discrete _ id s)) [
            | inl h ↦ h
            | inr h ↦ cc
          ],
          λ other h. sole_only ℕ_discrete _ id other s (owners_new m.f_teids [] other h),
        )
  ]

  n4_flow_intro :
      (m : PfcpMsg) (id : ℕ)
      → m.unparsed ≡ none
      → IsOwned m.f_teids id
      → ((other : ℕ) → IsOwned m.f_teids other → other ≡ id)
      → n4_flow claims m ≡ some id
  unfolding n4_flow mem
  n4_flow_intro m id u h only = rw u (
      sole_intro ℕ_discrete (owners claims m.f_teids []) id (owners-IsDistinct m.f_teids [] tt)
        (owners_new m.f_teids [] id h)
        (λ other e. elim (owners-IsOwned m.f_teids [] other e) [
          | inl o ↦ only other o
          | inr z ↦ cc
        ]))

  n4_links_below :
      (i j : ℕ) (ms : List PfcpMsg) (l : Links)
      → j < i
      → get ℕ_discrete j (n4_links claims i ms l).flow_of ≡ get ℕ_discrete j l.flow_of
  unfolding n4_links
  n4_links_below i j [] l h = refl
  n4_links_below i j (m ∷ ms) l h = ground (
    arith,
    n4_links_below (suc i) j ms (link_if i (n4_flow claims m) (set_flow i none l)),
    linked-get i j (n4_flow claims m) l,
  )

  n4_links-get :
      (i n j : ℕ) (ms : List PfcpMsg) (l : Links) (m : PfcpMsg)
      → get_elem? ms n ≡ some m
      → j ≡ i + n
      → get ℕ_discrete j (n4_links claims i ms l).flow_of ≡ some (n4_flow claims m)
  unfolding n4_links
  n4_links-get i n j [] l m e same = cc
  n4_links-get i zero j (x ∷ ms) l m e same =
      let l' = link_if i (n4_flow claims x) (set_flow i none l) in
      let here : x ≡ m = ground arith in
      ground (arith, n4_links_below (suc i) j ms l', linked-get i j (n4_flow claims x) l)
  n4_links-get i (suc n) j (x ∷ ms) l m e same =
      n4_links-get (suc i) n j ms (link_if i (n4_flow claims x) (set_flow i none l)) m e
        (omega arith)

module _ (flows : List Flow) (sbi : List SbiMsg) (n4 : List PfcpMsg) where
  correlate-get :
      (i : ℕ) (m : PfcpMsg)
      → get_elem? n4 i ≡ some m
      → get ℕ_discrete i (correlate flows sbi n4).n4.flow_of ≡ some (n4_flow (flow_tunnels flows) m)
  unfolding correlate join_n4 sort_refs
  correlate-get i m e = n4_links-get (flow_tunnels flows) 0 i i n4 no_links m e (omega arith)

  -- An N4 message is linked to a flow exactly if it is readable, one of its tunnels is declared by
  -- that flow and by no flow with another id, and none of its tunnels is another flow's alone.
  pub correlate-IsN4Link :
      (i : ℕ) (m : PfcpMsg) (id : ℕ)
      → get_elem? n4 i ≡ some m
      → (get ℕ_discrete i (correlate flows sbi n4).n4.flow_of ≡ some (some id))
        ↔ IsN4Link flows m id
  unfolding flow_tunnels
  correlate-IsN4Link i m id e = (
    λ linked.
        let at : n4_flow (flow_tunnels flows) m ≡ some id = let g = correlate-get i m e in cc in
        let (u, (t, there, o), only) = n4_flow-IsOwned (flow_tunnels flows) m id at in
        record {
          readable = u;
          joined = (t, there, owner-IsOwner Tunnel-discrete tunnel_keys flows t id o);
          alone = λ s other within owns.
              only other
                (s, within, owner_of_IsOwner Tunnel-discrete tunnel_keys flows s other owns);
        },
    λ h.
        let (t, there, o) = h.joined in
        correlate-get i m e
        ∙ ap some (
            n4_flow_intro (flow_tunnels flows) m id h.readable
              (t, there, owner_of_IsOwner Tunnel-discrete tunnel_keys flows t id o)
              (λ other (s, within, owns).
                h.alone s other within
                  (owner-IsOwner Tunnel-discrete tunnel_keys flows s other owns))),
  )
