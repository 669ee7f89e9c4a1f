-- ===== src/Analyzer/Flow/Traffic.antt =====
-- What handling a message leaves of its flow (5gcap/fivegcap/flow.py, `build_flows`).

use g_pcap.Prelude.{
  ℕ, String, ◌&&◌, is, ◌≡◌, refl, ◌∙◌, Option, List, [], ◌∷◌, arith, keep, Option-cases, inl, inr,
}
use g_pcap.Analyzer.Nas.{NasMsg, NasLibrary}
use g_pcap.Analyzer.Ngap.{NgapMsg}
use g_pcap.Analyzer.Flow.{
  Flow, FlowKey, FlowKey-discrete, flow_key, first_algo, nas_of, algo_of, Starts, join, release,
  Handled, Kind, Outcome, Signal, no_signal, starts_kind, ends_kind, nas_start, nas_end, by_nas,
  nas_signal, nas_name, nas_procedures, complete_first, complete_ngap, ngap_start, by_ngap,
  ngap_signal, ngap_procedures, handle, is_associated,
}

-- The messages with their NAS parts, each decoded under the first ciphering algorithm that the
-- messages before it select.
unfoldable pub annotate : NasLibrary → Option ℕ → List NgapMsg → List (NgapMsg × Option NasMsg)
annotate py algo [] = []
annotate py algo (m ∷ ms) =
    let nas = nas_of py m.nas_pdu algo in (m, nas) ∷ annotate py (first_algo algo (algo_of nas)) ms

pub annotate-cons :
    (py : NasLibrary) (algo : Option ℕ) (m : NgapMsg) (ms : List NgapMsg)
    → annotate py algo (m ∷ ms)
      ≡ (m, nas_of py m.nas_pdu algo)
        ∷ annotate py (first_algo algo (algo_of (nas_of py m.nas_pdu algo))) ms
unfolding annotate
annotate-cons py algo m ms = refl

-- The messages of one UE on one association, in the order of the capture.
unfoldable pub of_flow : FlowKey → List NgapMsg → List NgapMsg
of_flow k = keep (λ m. is_associated m && is (FlowKey-discrete (flow_key m) k))

abbrev pub key_of : Flow → FlowKey
key_of f = (f.assoc, f.ran_ue_id)

-- The two flows differ in their procedures at most.
pub record SameTraffic (f g : Flow) : Type 0 where
  pub flow_id : f.flow_id ≡ g.flow_id
  pub assoc : f.assoc ≡ g.assoc
  pub ran_ue_id : f.ran_ue_id ≡ g.ran_ue_id
  pub partial : f.partial ≡ g.partial
  pub messages : f.messages ≡ g.messages
  pub ciph_algo : f.ciph_algo ≡ g.ciph_algo

SameTraffic-refl : (f : Flow) → SameTraffic f f
SameTraffic-refl f = record {
  flow_id = refl;
  assoc = refl;
  ran_ue_id = refl;
  partial = refl;
  messages = refl;
  ciph_algo = refl;
}

SameTraffic-trans : {f g h : Flow} → SameTraffic f g → SameTraffic g h → SameTraffic f h
SameTraffic-trans p q = record {
  flow_id = p.flow_id ∙ q.flow_id;
  assoc = p.assoc ∙ q.assoc;
  ran_ue_id = p.ran_ue_id ∙ q.ran_ue_id;
  partial = p.partial ∙ q.partial;
  messages = p.messages ∙ q.messages;
  ciph_algo = p.ciph_algo ∙ q.ciph_algo;
}

nas_end-SameTraffic :
    (k : Kind) (o : Outcome) (ts : ℕ) (n : String) (h : Handled)
    → SameTraffic (nas_end k o ts n h).0 h.0
unfolding nas_end
nas_end-SameTraffic k o ts n (f, s) = ground arith

by_nas-SameTraffic :
    (r : Signal) (ts : ℕ) (n : String) (h : Handled) → SameTraffic (by_nas r ts n h).0 h.0
unfolding by_nas nas_start
by_nas-SameTraffic no_signal ts n h = SameTraffic-refl h.0
by_nas-SameTraffic (starts_kind k) ts n (f, s) = SameTraffic-refl f
by_nas-SameTraffic (ends_kind k o) ts n h = nas_end-SameTraffic k o ts n h

nas_procedures-SameTraffic :
    (nas : Option NasMsg) (ts : ℕ) (h : Handled) → SameTraffic (nas_procedures nas ts h).0 h.0
unfolding nas_procedures
nas_procedures-SameTraffic nas ts h = elim (Option-cases (nas_name nas)) [
  | inl e ↦ rw (e, nas_procedures) (SameTraffic-refl h.0)
  | inr (n, e) ↦ rw (e, nas_procedures) (by_nas-SameTraffic (nas_signal n) ts n h)
]

complete_ngap-SameTraffic :
    (k : Kind) (o : Outcome) (ts : ℕ) (n : String) (h : Handled)
    → SameTraffic (complete_ngap k o ts n h).0 h.0
unfolding complete_ngap complete_first
complete_ngap-SameTraffic k o ts n (f, s) = ground arith

by_ngap-SameTraffic :
    (r : Signal) (ts : ℕ) (n : String) (h : Handled) → SameTraffic (by_ngap r ts n h).0 h.0
unfolding by_ngap ngap_start
by_ngap-SameTraffic no_signal ts n h = SameTraffic-refl h.0
by_ngap-SameTraffic (starts_kind k) ts n (f, s) = SameTraffic-refl f
by_ngap-SameTraffic (ends_kind k o) ts n h = complete_ngap-SameTraffic k o ts n h

ngap_procedures-SameTraffic : (m : NgapMsg) (h : Handled) → SameTraffic (ngap_procedures m h).0 h.0
unfolding ngap_procedures
ngap_procedures-SameTraffic m h = elim (Option-cases m.name) [
  | inl e ↦ rw (e, ngap_procedures) (SameTraffic-refl h.0)
  | inr (n, e) ↦ rw (e, ngap_procedures) (by_ngap-SameTraffic (ngap_signal n) m.ts n h)
]

pub handle-SameTraffic :
    (py : NasLibrary) (m : NgapMsg) (f : Flow) (s : Starts)
    → SameTraffic (handle py m f s).0 (join py m f)
unfolding handle
handle-SameTraffic py m f s =
    let nas = nas_of py m.nas_pdu f.ciph_algo in
    SameTraffic-trans
      (ngap_procedures-SameTraffic m (nas_procedures nas m.ts (join py m f, release m f.flow_id s)))
      (nas_procedures-SameTraffic nas m.ts (join py m f, release m f.flow_id s))
