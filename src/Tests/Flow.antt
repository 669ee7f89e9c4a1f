-- ===== src/Tests/Flow.antt =====
-- Tests of 5gcap/fivegcap/flow.py: an attach that the NGAP names alone show, another UE on the same
-- association, and a setup of the association itself.
use g_pcap.Prelude.{
  ℕ, ◌+◌, length, ℕ_discrete, ◌≡◌, refl, String, Option, none, some, List, [], ◌∷◌, map, All, In,
  keep, not, true, inl, inr,
}
use g_pcap.Prelude.Dict.{get, put, remove}
use g_pcap.Analyzer.Nas.{NasMsg}
use g_pcap.Analyzer.Ngap.{NgapMsg}
use g_pcap.Analyzer.Flow.{
  Flow, FlowKey-discrete, ProcKey-discrete, undirected, flow_key, first_algo, nas_of, flow_for,
  new_flow, join, is_release, release, nas_procedures, nas_name, complete_ngap, complete_first,
  started, ended, ngap_start, ngap_signal, by_ngap, ngap_procedures, handle, is_associated,
  build_step, build_all, build_flows,
}
use g_pcap.Prelude.Integers.{pos, minus}
use g_pcap.Analyzer.Kpi.{
  KpiResult, compute, add_flows, add_flow, add_latencies, add_latency, count_flows,
  count_procedures,
}
use g_pcap.Analyzer.Kpi.Closed.{procedure_count, complete_count, compute-build_flows}
use g_pcap.Analyzer.Flow.Traffic.{annotate, of_flow, key_of}
use g_pcap.Analyzer.Flow.Messages.{build_flows-messages}
use g_pcap.Analyzer.Flow.Handled.{IsClosed}
use g_pcap.Analyzer.Flow.Closed.{build_flows-IsClosed}
use g_pcap.Analyzer.Flow.Partition.{
  IsNumbered, build_flows-IsNumbered, build_flows-In, build_flows-unassociated,
}
use g_pcap.Tests.Nas.{library}

abbrev message : ℕ → String → Option ℕ → NgapMsg
message ts name ran_ue_id = record {
  ts = ts;
  assoc = (9487, 38412);
  stream = 0;
  raw = [];
  name = some name;
  kind = none;
  proc_code = none;
  ran_ue_id = ran_ue_id;
  amf_ue_id = none;
  nas_pdu = none;
  ies = [];
  f_teids = [];
  req_session_tunnels = [];
  rsp_session_counts = [];
  unparsed = none;
  src_ip = none;
  dst_ip = none;
}

abbrev setup : NgapMsg
setup = message 1 "NGSetupRequest" none

abbrev attach : NgapMsg
attach = message 2 "InitialUEMessage" (some 1)

abbrev other : NgapMsg
other = message 3 "DownlinkNASTransport" (some 2)

abbrev context : NgapMsg
context = message 4 "InitialContextSetupRequest" (some 1)

abbrev capture : List NgapMsg
capture = setup ∷ attach ∷ other ∷ context ∷ []

program : Unit {0}
unfolding build_flows build_all build_step is_associated flow_for new_flow handle join nas_of
    first_algo release is_release nas_procedures nas_name ngap_procedures by_ngap ngap_signal
    ngap_start complete_ngap complete_first started ended flow_key undirected FlowKey-discrete
    ProcKey-discrete get put remove
program = tt

attach-is_associated : is_associated attach ≡ true
unfolding is_associated
attach-is_associated = refl

capture-ids : map (λ f. f.flow_id) (build_flows library capture).0 ≡ 1 ∷ 2 ∷ []
unfolding program
capture-ids = refl

build_flows-messages_example :
    All
      (λ f. f.messages ≡ annotate library none (of_flow (key_of f) capture))
      (build_flows library capture).0
build_flows-messages_example = build_flows-messages library capture

build_flows-IsClosed_example : All (λ f. All IsClosed f.procedures) (build_flows library capture).0
build_flows-IsClosed_example = build_flows-IsClosed library capture

build_flows-IsNumbered_example : IsNumbered 1 (build_flows library capture).0
build_flows-IsNumbered_example = build_flows-IsNumbered library capture

build_flows-In_example :
    (f : Flow) × In f (build_flows library capture).0
    × (key_of f ≡ flow_key attach)
    × (nas : Option NasMsg) × In (attach, nas) f.messages
build_flows-In_example = build_flows-In library capture attach (inr (inl refl)) attach-is_associated

build_flows-unassociated_example :
    (build_flows library capture).1 ≡ keep (λ m. not (is_associated m)) capture
build_flows-unassociated_example = build_flows-unassociated library capture

compute-build_flows_example :
    (r : KpiResult) × (compute (build_flows library capture).0 ≡ some r)
    × (r.successes + r.failures ≡ procedure_count (build_flows library capture).0)
    × (length r.attach_times + length r.pdu_session_times
        ≡ complete_count (build_flows library capture).0)
compute-build_flows_example = compute-build_flows library capture

capture_kpis :
    compute (build_flows library capture).0
    ≡ some
        (record { attach_times = pos 2 ∷ []; pdu_session_times = []; successes = 1; failures = 0 })
unfolding program compute add_flows add_flow add_latencies add_latency minus count_flows
    count_procedures ℕ_discrete
capture_kpis = refl
