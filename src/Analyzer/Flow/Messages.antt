-- ===== src/Analyzer/Flow/Messages.antt =====
-- The messages of each flow (5gcap/fivegcap/flow.py, `build_flows`).

use mathlib.Core.List.{append-nil, append_assoc}
use mathlib.Core.Logic.{ite, if_pos}
use g_pcap.Prelude.{
  ℕ, true, false, ◌&&◌, is, ◌≡◌, refl, sym, ◌∙◌, Option, none, some, List, [], ◌∷◌, ◌++◌, arith,
  All, Bool-cases, Option-cases, inl, inr,
}
use g_pcap.Prelude.Dict.{Dict, get, put, values, get-put, IsDict, put-IsDict, All-get_intro}
use g_pcap.Analyzer.Nas.{NasMsg, NasLibrary}
use g_pcap.Analyzer.Ngap.{NgapMsg}
use g_pcap.Analyzer.Flow.{
  Flow, FlowKey, FlowKey-discrete, flow_key, first_algo, nas_of, algo_of, Builder, new_flow,
  flow_for, join, handle, is_associated, build_step, build_all, empty_builder, build_flows,
}
use g_pcap.Analyzer.Flow.Traffic.{annotate, annotate-cons, of_flow, key_of, handle-SameTraffic}

abbrev pub messages_at : Option Flow → List (NgapMsg × Option NasMsg)
messages_at none = []
messages_at (some f) = f.messages

abbrev algo_at : Option Flow → Option ℕ
algo_at none = none
algo_at (some f) = f.ciph_algo

module _ (py : NasLibrary) (m : NgapMsg) (b : Builder) where
  -- The message's flow before the message, and after it.
  abbrev pub before : Flow
  before = (flow_for m b.flows b.next_id).0

  abbrev pub after : Flow
  after = (handle py m before b.starts).0

module _ (py : NasLibrary) (k : FlowKey) where
  -- The messages of the flow in all, from a state and the messages that are still to come.
  outlook : Dict FlowKey Flow → List NgapMsg → List (NgapMsg × Option NasMsg)
  outlook flows rest =
      let f = get FlowKey-discrete k flows in
      messages_at f ++ annotate py (algo_at f) (of_flow k rest)

  module _ (m : NgapMsg) (b : Builder) (rest : List NgapMsg) where
    step_other :
        (is_associated m && is (FlowKey-discrete (flow_key m) k)) ≡ false
        → outlook (build_step py m b).flows rest ≡ outlook b.flows (m ∷ rest)
    unfolding outlook build_step of_flow
    step_other e = ground (
      arith,
      e,
      get-put FlowKey-discrete (flow_key m) k
          (handle py m (flow_for m b.flows b.next_id).0 b.starts).0 b.flows,
    )

    flow_for-messages :
        flow_key m ≡ k
        → ((before py m b).messages ≡ messages_at (get FlowKey-discrete k b.flows))
          × ((before py m b).ciph_algo ≡ algo_at (get FlowKey-discrete k b.flows))
    unfolding flow_for new_flow
    flow_for-messages e = ground arith

    step_get :
        is_associated m ≡ true
        → flow_key m ≡ k
        → get FlowKey-discrete k (build_step py m b).flows ≡ some (after py m b)
    unfolding build_step
    step_get a e =
        rw (a, build_step)
          (get-put FlowKey-discrete (flow_key m) k (after py m b) b.flows
            ∙ if_pos (FlowKey-discrete (flow_key m) k) e _ _)

    abbrev nas : Option NasMsg
    nas = nas_of py m.nas_pdu (before py m b).ciph_algo

    after_joined :
        ((after py m b).messages ≡ (before py m b).messages ++ (m, nas) ∷ [])
        × ((after py m b).ciph_algo ≡ first_algo (before py m b).ciph_algo (algo_of nas))
    after_joined =
        let h = handle-SameTraffic py m (before py m b) b.starts in
        (h.messages ∙ unfold join in refl, h.ciph_algo ∙ unfold join in refl)

    of_flow-own :
        is_associated m ≡ true → flow_key m ≡ k → of_flow k (m ∷ rest) ≡ m ∷ of_flow k rest
    unfolding of_flow
    of_flow-own a e = ground arith

    step_own :
        is_associated m ≡ true
        → flow_key m ≡ k
        → outlook (build_step py m b).flows rest ≡ outlook b.flows (m ∷ rest)
    unfolding outlook
    step_own a e =
        rw (step_get a e, of_flow-own a e)
          (ground (
            arith,
            after_joined,
            flow_for-messages e,
            annotate-cons py (before py m b).ciph_algo m (of_flow k rest),
            append_assoc (before py m b).messages ((m, nas) ∷ [])
                (annotate py (first_algo (before py m b).ciph_algo (algo_of nas)) (of_flow k rest)),
          ))

  step-outlook :
      (m : NgapMsg) (b : Builder) (rest : List NgapMsg)
      → outlook (build_step py m b).flows rest ≡ outlook b.flows (m ∷ rest)
  step-outlook m b rest =
      elim (Bool-cases (is_associated m && is (FlowKey-discrete (flow_key m) k))) [
        | inl e ↦ step_own m b rest (ground arith) (ground arith)
        | inr e ↦ step_other m b rest e
      ]

  build-outlook :
      (ms : List NgapMsg) (b : Builder) → outlook (build_all py ms b).flows [] ≡ outlook b.flows ms
  unfolding build_all
  build-outlook [] b = refl
  build-outlook (m ∷ ms) b = build-outlook ms (build_step py m b) ∙ step-outlook m b ms

  -- The messages of the flow at a key, when the whole capture has been read.
  pub build_all-messages :
      (msgs : List NgapMsg)
      → messages_at (get FlowKey-discrete k (build_all py msgs empty_builder).flows)
        ≡ annotate py none (of_flow k msgs)
  build_all-messages msgs =
      sym
        (append-nil (messages_at (get FlowKey-discrete k (build_all py msgs empty_builder).flows)))
      ∙ (unfold outlook of_flow annotate get in build-outlook msgs empty_builder)

pub record IsIndexed (d : Dict FlowKey Flow) : Type 0 where
  pub once : IsDict FlowKey-discrete d
  pub own_key : (k : FlowKey) (f : Flow) → get FlowKey-discrete k d ≡ some f → key_of f ≡ k

before-own_key :
    (py : NasLibrary) (m : NgapMsg) (b : Builder)
    → IsIndexed b.flows
    → key_of (before py m b) ≡ flow_key m
unfolding flow_for new_flow flow_key
before-own_key py m b h = elim (Option-cases (get FlowKey-discrete (flow_key m) b.flows)) [
  | inl e ↦ ground arith
  | inr (f, e) ↦ ground (arith, h.own_key (flow_key m) f e)
]

after-own_key :
    (py : NasLibrary) (m : NgapMsg) (b : Builder)
    → IsIndexed b.flows
    → key_of (after py m b) ≡ flow_key m
after-own_key py m b h =
    let same = handle-SameTraffic py m (before py m b) b.starts in
    let joined : key_of (join py m (before py m b)) ≡ key_of (before py m b) =
      unfold join in refl in
    (λ i. (same.assoc i, same.ran_ue_id i)) ∙ joined ∙ before-own_key py m b h

step-IsIndexed :
    (py : NasLibrary) (m : NgapMsg) (b : Builder)
    → IsIndexed b.flows
    → IsIndexed (build_step py m b).flows
unfolding build_step
step-IsIndexed py m b h = elim (Bool-cases (is_associated m)) [
  | inr e ↦ rw (e, build_step) h
  | inl e ↦
      rw (e, build_step)
        (record {
          once = put-IsDict FlowKey-discrete (flow_key m) (after py m b) b.flows h.once;
          own_key = λ k f found. elim (FlowKey-discrete (flow_key m) k) [
            | yes same ↦
                let e' : after py m b ≡ f = ground (arith, found, got k) in
                rw (← e', after-own_key py m b h) same
            | no other ↦ h.own_key k f (ground (arith, found, got k))
          ];
        })
]
  where
    got :
        (k : FlowKey)
        → get FlowKey-discrete k (put FlowKey-discrete (flow_key m) (after py m b) b.flows)
          ≡ ite
              (FlowKey-discrete (flow_key m) k)
              (some (after py m b))
              (get FlowKey-discrete k b.flows)
    got k = get-put FlowKey-discrete (flow_key m) k (after py m b) b.flows

build_all-IsIndexed :
    (py : NasLibrary) (ms : List NgapMsg) (b : Builder)
    → IsIndexed b.flows
    → IsIndexed (build_all py ms b).flows
unfolding build_all
build_all-IsIndexed py [] b h = h
build_all-IsIndexed py (m ∷ ms) b h =
    build_all-IsIndexed py ms (build_step py m b) (step-IsIndexed py m b h)

values-All : (P : Flow → Type 0) (d : Dict FlowKey Flow) → All (λ e. P e.1) d → All P (values d)
values-All P [] h = tt
values-All P (e ∷ d) h = (h.0, values-All P d h.1)

pub indexed :
    (py : NasLibrary) (msgs : List NgapMsg) → IsIndexed (build_all py msgs empty_builder).flows
indexed py msgs =
    build_all-IsIndexed py msgs empty_builder
      (record { once = tt; own_key = λ k f e. unfold get in cc })

-- Each flow that is returned holds exactly the messages that carry a UE id and have the flow's
-- association and RAN UE id, in the order of the capture, each with its NAS part decoded under the
-- first ciphering algorithm that the flow's earlier messages selected.
pub build_flows-messages :
    (py : NasLibrary) (msgs : List NgapMsg)
    → All (λ f. f.messages ≡ annotate py none (of_flow (key_of f) msgs)) (build_flows py msgs).0
unfolding build_flows
build_flows-messages py msgs =
    let d = (build_all py msgs empty_builder).flows in
    values-All (λ f. f.messages ≡ annotate py none (of_flow (key_of f) msgs)) d
      (All-get_intro FlowKey-discrete
        (λ e. e.1.messages ≡ annotate py none (of_flow (key_of e.1) msgs)) d (indexed py msgs).once
        (λ k f e. rw ((indexed py msgs).own_key k f e) (rw e at (build_all-messages py k msgs))))
