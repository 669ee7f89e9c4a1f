-- ===== src/Analyzer/Flow/Partition.antt =====
-- Every message is placed, and the flows are numbered (5gcap/fivegcap/flow.py, `build_flows`).
use mathlib.Core.List.{append_assoc, append-nil}
use g_pcap.Prelude.{
  ℕ, ◌+◌, Option, true, not, ◌≡◌, refl, sym, ap, ◌∙◌, none, some, List, [], ◌∷◌, ◌++◌, arith, keep,
  length, length-append, In, Bool-cases, Option-cases, inl, inr,
}
use g_pcap.Prelude.Dict.{Dict, get, put, values, put-append}
use g_pcap.Analyzer.Nas.{NasLibrary, NasMsg}
use g_pcap.Analyzer.Ngap.{NgapMsg}
use g_pcap.Analyzer.Flow.{
  Flow, FlowKey, FlowKey-discrete, flow_key, flow_for, new_flow, join, handle, Builder, nas_of,
  first_algo, algo_of, is_associated, build_step, build_all, empty_builder, build_flows,
}
use g_pcap.Analyzer.Flow.Traffic.{annotate, of_flow, key_of, handle-SameTraffic}
use g_pcap.Analyzer.Flow.Messages.{messages_at, before, after, build_all-messages, indexed}

build_all-unassociated :
    (py : NasLibrary) (ms : List NgapMsg) (b : Builder)
    → (build_all py ms b).unassociated ≡ b.unassociated ++ keep (λ m. not (is_associated m)) ms
unfolding build_all
build_all-unassociated py [] b = sym (append-nil b.unassociated)
build_all-unassociated py (m ∷ ms) b =
    build_all-unassociated py ms (build_step py m b) ∙ (elim (Bool-cases (is_associated m)) [
      | inl e ↦ unfold build_step in ground (arith, e)
      | inr e ↦
          unfold build_step in
          ground
            (arith, e, append_assoc b.unassociated (m ∷ []) (keep (λ m. not (is_associated m)) ms))
    ])

-- Each flow's id is one more than that of the flow before it.
abbrev pub IsNumbered : ℕ → List Flow → Type 0
IsNumbered n [] = Unit
IsNumbered n (f ∷ fs) = (f.flow_id ≡ n) × IsNumbered (n + 1) fs

IsNumbered-put :
    (k : FlowKey) (f g : Flow) (n : ℕ) (d : Dict FlowKey Flow)
    → get FlowKey-discrete k d ≡ some f
    → g.flow_id ≡ f.flow_id
    → IsNumbered n (values d)
    → IsNumbered n (values (put FlowKey-discrete k g d))
unfolding get put
IsNumbered-put k f g n [] e same h = cc
IsNumbered-put k f g n ((j, w) ∷ d) e same h = elim (FlowKey-discrete j k) [
  | yes p ↦ ground arith
  | no p ↦ ground (arith, IsNumbered-put k f g (n + 1) d)
]

IsNumbered-append :
    (k : FlowKey) (g : Flow) (n : ℕ) (d : Dict FlowKey Flow)
    → g.flow_id ≡ n + length d
    → IsNumbered n (values d)
    → IsNumbered n (values (d ++ (k, g) ∷ []))
IsNumbered-append k g n [] e h = (omega arith, tt)
IsNumbered-append k g n (x ∷ d) e h = (h.0, IsNumbered-append k g (n + 1) d (omega arith) h.1)

record IsCounted (b : Builder) : Type 0 where
  next : b.next_id ≡ 1 + length b.flows
  numbered : IsNumbered 1 (values b.flows)

length-put_there :
    (k : FlowKey) (f g : Flow) (d : Dict FlowKey Flow)
    → get FlowKey-discrete k d ≡ some f
    → length (put FlowKey-discrete k g d) ≡ length d
unfolding get put
length-put_there k f g [] e = cc
length-put_there k f g ((j, w) ∷ d) e = ground (arith, length-put_there k f g d)

module _ (py : NasLibrary) (m : NgapMsg) (b : Builder) (h : IsCounted b) where
  after-flow_id : (after py m b).flow_id ≡ (before py m b).flow_id
  after-flow_id = (handle-SameTraffic py m (before py m b) b.starts).flow_id ∙ (unfold join in refl)

  stepped :
      is_associated m ≡ true
      → build_step py m b ≡ record {
        flows = put FlowKey-discrete (flow_key m) (after py m b) b.flows;
        unassociated = b.unassociated;
        next_id = (flow_for m b.flows b.next_id).1;
        starts = (handle py m (before py m b) b.starts).1;
      }
  unfolding build_step
  stepped e = rw (e, build_step) refl

  old-IsCounted :
      (f : Flow)
      → is_associated m ≡ true
      → get FlowKey-discrete (flow_key m) b.flows ≡ some f
      → IsCounted (build_step py m b)
  old-IsCounted f e there =
      let found : flow_for m b.flows b.next_id ≡ (f, b.next_id) =
        unfold flow_for in rw (there, flow_for) refl in
      rw (stepped e) (record {
        next =
            ap (λ (x : Flow × ℕ). x.1) found
            ∙ omega (arith, h.next, length-put_there (flow_key m) f (after py m b) b.flows there);
        numbered =
            IsNumbered-put (flow_key m) f (after py m b) 1 b.flows there
              (after-flow_id ∙ ap (λ (x : Flow × ℕ). x.0.flow_id) found) h.numbered;
      })

  new-IsCounted :
      is_associated m ≡ true
      → get FlowKey-discrete (flow_key m) b.flows ≡ none
      → IsCounted (build_step py m b)
  new-IsCounted e absent =
      let made : flow_for m b.flows b.next_id ≡ (new_flow b.next_id m, b.next_id + 1) =
        unfold flow_for in rw (absent, flow_for) refl in
      let id : (after py m b).flow_id ≡ 1 + length b.flows =
        after-flow_id ∙ ap (λ (x : Flow × ℕ). x.0.flow_id) made ∙ (unfold new_flow in h.next) in
      let longer : length (b.flows ++ (flow_key m, after py m b) ∷ []) ≡ length b.flows + 1 =
        length-append b.flows ((flow_key m, after py m b) ∷ []) in
      rw (stepped e, put-append FlowKey-discrete (flow_key m) (after py m b) b.flows absent)
        (record {
          next = ap (λ (x : Flow × ℕ). x.1) made ∙ omega (arith, h.next, longer);
          numbered = IsNumbered-append (flow_key m) (after py m b) 1 b.flows id h.numbered;
        })

  build_step-IsCounted : IsCounted (build_step py m b)
  build_step-IsCounted = elim (Bool-cases (is_associated m)) [
    | inr e ↦
        unfold build_step in rw (e, build_step) (record { next = h.next; numbered = h.numbered })
    | inl e ↦ elim (Option-cases (get FlowKey-discrete (flow_key m) b.flows)) [
      | inl absent ↦ new-IsCounted e absent
      | inr (f, there) ↦ old-IsCounted f e there
    ]
  ]

build_all-IsCounted :
    (py : NasLibrary) (ms : List NgapMsg) (b : Builder)
    → IsCounted b
    → IsCounted (build_all py ms b)
unfolding build_all
build_all-IsCounted py [] b h = h
build_all-IsCounted py (m ∷ ms) b h =
    build_all-IsCounted py ms (build_step py m b) (build_step-IsCounted py m b h)

-- The flows are returned with the ids 1, 2, 3 and so on, in this order.
pub build_flows-IsNumbered :
    (py : NasLibrary) (msgs : List NgapMsg) → IsNumbered 1 (build_flows py msgs).0
unfolding build_flows
build_flows-IsNumbered py msgs =
    (build_all-IsCounted py msgs empty_builder
      (record { next = omega arith; numbered = tt })).numbered

of_flow-In :
    (m : NgapMsg) (msgs : List NgapMsg)
    → In m msgs
    → is_associated m ≡ true
    → In m (of_flow (flow_key m) msgs)
unfolding of_flow
of_flow-In m [] h a = absurd h
of_flow-In m (x ∷ msgs) (inl e) a = ground (arith, e)
of_flow-In m (x ∷ msgs) (inr h) a = ground (arith, of_flow-In m msgs h a)

-- Each message stands among the annotated ones, with some NAS part.
annotate-In :
    (py : NasLibrary) (algo : Option ℕ) (m : NgapMsg) (ms : List NgapMsg)
    → In m ms
    → (nas : Option NasMsg) × In (m, nas) (annotate py algo ms)
unfolding annotate
annotate-In py algo m [] h = absurd h
annotate-In py algo m (x ∷ ms) (inl e) =
    (nas_of py x.nas_pdu algo, inl (ap (λ y. (y, nas_of py x.nas_pdu algo)) e))
annotate-In py algo m (x ∷ ms) (inr h) =
    let (nas, there) =
      annotate-In py (first_algo algo (algo_of (nas_of py x.nas_pdu algo))) m ms h in
    (nas, inr there)

In-values :
    (k : FlowKey) (f : Flow) (d : Dict FlowKey Flow)
    → get FlowKey-discrete k d ≡ some f
    → In f (values d)
unfolding get
In-values k f [] e = cc
In-values k f ((j, w) ∷ d) e = elim (FlowKey-discrete j k) [
  | yes p ↦ inl (ground arith)
  | no p ↦ inr (In-values k f d (ground arith))
]

-- A message that carries a UE id belongs to a flow that is returned, the one of its association
-- and RAN UE id: with some NAS part, it is one of that flow's messages.
pub build_flows-In :
    (py : NasLibrary) (msgs : List NgapMsg) (m : NgapMsg)
    → In m msgs
    → is_associated m ≡ true
    → (f : Flow) × In f (build_flows py msgs).0
      × (key_of f ≡ flow_key m)
      × (nas : Option NasMsg) × In (m, nas) f.messages
unfolding build_flows
build_flows-In py msgs m h a =
    let k = flow_key m in
    let d = (build_all py msgs empty_builder).flows in
    let (nas, there) = annotate-In py none m (of_flow k msgs) (of_flow-In m msgs h a) in
    let held : In (m, nas) (messages_at (get FlowKey-discrete k d)) =
      rw (build_all-messages py k msgs) there in
    elim (Option-cases (get FlowKey-discrete k d)) [
      | inl e ↦ absurd (rw e at held)
      | inr (f, e) ↦ (f, In-values k f d e, (indexed py msgs).own_key k f e, nas, rw e at held)
    ]

-- The messages with no UE id, and these alone, are returned apart, in the order of the capture.
pub build_flows-unassociated :
    (py : NasLibrary) (msgs : List NgapMsg)
    → (build_flows py msgs).1 ≡ keep (λ m. not (is_associated m)) msgs
unfolding build_flows
build_flows-unassociated py msgs = build_all-unassociated py msgs empty_builder
