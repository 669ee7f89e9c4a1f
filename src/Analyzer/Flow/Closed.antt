-- ===== src/Analyzer/Flow/Closed.antt =====
-- What the procedures of a flow are (5gcap/fivegcap/flow.py, `build_flows`).
use g_pcap.Prelude.{ℕ, refl, Option, List, [], ◌∷◌, All, Bool-cases, Option-cases, inl, inr}
use g_pcap.Prelude.Dict.{Dict, get, remove, values, All-put, All-remove, All-get}
use g_pcap.Analyzer.Nas.{NasMsg, NasLibrary}
use g_pcap.Analyzer.Ngap.{NgapMsg}
use g_pcap.Analyzer.Flow.{
  Flow, FlowKey, FlowKey-discrete, ProcKey, ProcKey-discrete, flow_key, nas_of, Procedure, Starts,
  Builder, flow_for, new_flow, join, is_release, release, Handled, nas_signal, nas_name,
  nas_procedures, ngap_signal, ngap_procedures, handle, is_associated, build_step, build_all,
  empty_builder, build_flows, registration, pdu_session_est,
}
use g_pcap.Analyzer.Flow.Handled.{
  IsStarted, IsClosed, AreStarts, IsHandled, by_nas-IsHandled, by_ngap-IsHandled,
}

nas_procedures-IsHandled :
    (nas : Option NasMsg) (ts : ℕ) (h : Handled) → IsHandled h → IsHandled (nas_procedures nas ts h)
unfolding nas_procedures
nas_procedures-IsHandled nas ts h good = elim (Option-cases (nas_name nas)) [
  | inl e ↦ rw (e, nas_procedures) good
  | inr (n, e) ↦ rw (e, nas_procedures) (by_nas-IsHandled ts n h good (nas_signal n) refl)
]

ngap_procedures-IsHandled :
    (m : NgapMsg) (h : Handled) → IsHandled h → IsHandled (ngap_procedures m h)
unfolding ngap_procedures
ngap_procedures-IsHandled m h good = elim (Option-cases m.name) [
  | inl e ↦ rw (e, ngap_procedures) good
  | inr (n, e) ↦ rw (e, ngap_procedures) (by_ngap-IsHandled m.ts n h good (ngap_signal n) refl)
]

dropped :
    (key : ProcKey) (d : Dict ProcKey (List Procedure))
    → All (λ e. All (IsStarted ngap_signal e.0.1) e.1) d
    → All (λ e. All (IsStarted ngap_signal e.0.1) e.1) (remove ProcKey-discrete key d)
dropped key d h =
    All-remove ProcKey-discrete (λ e. All (IsStarted ngap_signal e.0.1) e.1)
      (λ e. All (IsStarted ngap_signal e.0.1) e.1) key d (λ j v other q. q) h

release-AreStarts : (m : NgapMsg) (id : ℕ) (s : Starts) → AreStarts s → AreStarts (release m id s)
unfolding release
release-AreStarts m id s h = elim (Bool-cases (is_release m)) [
  | inl e ↦
      rw (e, release)
        (record {
          nas_level = h.nas_level;
          ngap_level =
              dropped (id, pdu_session_est)
                (remove ProcKey-discrete (id, registration) s.ngap_starts)
                (dropped (id, registration) s.ngap_starts h.ngap_level);
        })
  | inr e ↦ rw (e, release) h
]

handle-IsHandled :
    (py : NasLibrary) (m : NgapMsg) (f : Flow) (s : Starts)
    → All IsClosed f.procedures
    → AreStarts s
    → IsHandled (handle py m f s)
unfolding handle join
handle-IsHandled py m f s closed starts = ngap_procedures-IsHandled m _ (
    nas_procedures-IsHandled (nas_of py m.nas_pdu f.ciph_algo) m.ts _
      (record { closed = closed; starts = release-AreStarts m f.flow_id s starts }))

record AreClosed (b : Builder) : Type 0 where
  flows : All (λ e. All IsClosed e.1.procedures) b.flows
  starts : AreStarts b.starts

module _ (py : NasLibrary) (m : NgapMsg) (b : Builder) (h : AreClosed b) where
  flow_for-IsClosed : All IsClosed (flow_for m b.flows b.next_id).0.procedures
  unfolding flow_for new_flow
  flow_for-IsClosed = elim (Option-cases (get FlowKey-discrete (flow_key m) b.flows)) [
    | inl e ↦ rw (e, flow_for) tt
    | inr (f, e) ↦
        rw (e, flow_for)
          (All-get FlowKey-discrete (λ e. All IsClosed e.1.procedures) (flow_key m) f b.flows
            h.flows e)
  ]

  build_step-AreClosed : AreClosed (build_step py m b)
  unfolding build_step
  build_step-AreClosed =
      let f = (flow_for m b.flows b.next_id).0 in
      let good = handle-IsHandled py m f b.starts flow_for-IsClosed h.starts in
      elim (Bool-cases (is_associated m)) [
        | inl e ↦
            rw (e, build_step)
              (record {
                flows =
                    All-put FlowKey-discrete (λ e. All IsClosed e.1.procedures) (flow_key m)
                      (handle py m f b.starts).0 b.flows good.closed h.flows;
                starts = good.starts;
              })
        | inr e ↦ rw (e, build_step) (record { flows = h.flows; starts = h.starts })
      ]

build_all-AreClosed :
    (py : NasLibrary) (ms : List NgapMsg) (b : Builder)
    → AreClosed b
    → AreClosed (build_all py ms b)
unfolding build_all
build_all-AreClosed py [] b h = h
build_all-AreClosed py (m ∷ ms) b h =
    build_all-AreClosed py ms (build_step py m b) (build_step-AreClosed py m b h)

values-IsClosed :
    (d : Dict FlowKey Flow)
    → All (λ e. All IsClosed e.1.procedures) d
    → All (λ f. All IsClosed f.procedures) (values d)
values-IsClosed [] h = tt
values-IsClosed (e ∷ d) h = (h.0, values-IsClosed d h.1)

-- Every procedure that a flow reports has ended: the message that it names as its start is one
-- that starts its kind, the one that it names as its end ends this kind with the procedure's
-- outcome, and both are names of one level, NAS or NGAP.
pub build_flows-IsClosed :
    (py : NasLibrary) (msgs : List NgapMsg)
    → All (λ f. All IsClosed f.procedures) (build_flows py msgs).0
unfolding build_flows
build_flows-IsClosed py msgs =
    values-IsClosed (build_all py msgs empty_builder).flows
      (build_all-AreClosed py msgs empty_builder
        (record { flows = tt; starts = record { nas_level = tt; ngap_level = tt } })).flows
