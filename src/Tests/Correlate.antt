-- ===== src/Tests/Correlate.antt =====
-- Tests of 5gcap/fivegcap/correlate.py: a flow that declares a SUPI and a tunnel, a second one that
-- declares a tunnel of its own, an N4 message on the first tunnel, one that spans both, and an SBI
-- request with its response.
use g_pcap.Prelude.{
  In, ℕ, ◌≡◌, refl, String, Option, none, some, List, [], ◌∷◌, false, ℕ_discrete, ◌↔◌,
}
use g_pcap.Prelude.Dict.{get, put}
use g_pcap.Prelude.Sets.{mem, add}
use g_pcap.Prelude.Sort.{sort_by}
use g_pcap.Prelude.Text.{String-discrete}
use g_pcap.Analyzer.Value.{Tunnel, Tunnel-discrete, v4}
use g_pcap.Analyzer.Nas.{NasMsg, blank}
use g_pcap.Analyzer.Ngap.{NgapMsg}
use g_pcap.Analyzer.Flow.{Flow}
use g_pcap.Analyzer.Pfcp.{PfcpMsg}
use g_pcap.Analyzer.Sbi.{SbiMsg, Conn-discrete, Direction, request, response}
use g_pcap.Analyzer.Correlate.{
  claim_all, claims_from, owner, supis_of, tunnels_of, flow_supis, flow_tunnels, set_flow, link,
  link_if, sort_refs, owners, n4_flow, n4_links, join_n4, StreamId-discrete, request_flow,
  request_links, response_flow, response_links, join_sbi, correlate,
}
use g_pcap.Analyzer.Correlate.Mirror.{refs_at, flow_at, correlate-refs}
use g_pcap.Analyzer.Correlate.N4.{IsN4Link, correlate-IsN4Link}
use g_pcap.Analyzer.Correlate.Streams.{IsSbiLink}
use g_pcap.Analyzer.Correlate.Sbi.{correlate-IsSbiLink}

abbrev tunnel : ℕ → Tunnel
tunnel teid = (teid, v4 (10 ∷ 0 ∷ 0 ∷ 7 ∷ []))

abbrev declares : List Tunnel → NgapMsg
declares tunnels = record {
  ts = 1;
  assoc = (9487, 38412);
  stream = 0;
  raw = [];
  name = none;
  kind = none;
  proc_code = none;
  ran_ue_id = some 1;
  amf_ue_id = none;
  nas_pdu = none;
  ies = [];
  f_teids = tunnels;
  req_session_tunnels = [];
  rsp_session_counts = [];
  unparsed = none;
  src_ip = none;
  dst_ip = none;
}

abbrev identified : NasMsg
identified = record blank { supi = some "001010000000001" }

abbrev flow : ℕ → List (NgapMsg × Option NasMsg) → Flow
flow id messages = record {
  flow_id = id;
  assoc = (9487, 38412);
  ran_ue_id = some id;
  amf_ue_id = none;
  partial = false;
  messages = messages;
  procedures = [];
  ciph_algo = none;
}

abbrev flows : List Flow
flows =
    flow 1 ((declares (tunnel 5 ∷ []), some identified) ∷ [])
    ∷ flow 2 ((declares (tunnel 6 ∷ []), none) ∷ [])
    ∷ []

abbrev on_tunnels : List Tunnel → PfcpMsg
on_tunnels tunnels = record {
  ts = 2;
  raw = [];
  msg_type = some 50;
  name = none;
  seq = some 1;
  seid = none;
  cause = none;
  cause_name = none;
  ies = [];
  f_teids = tunnels;
  ue_ip = none;
  user_id = none;
  unparsed = none;
  src_ip = none;
  dst_ip = none;
  src_port = none;
  dst_port = none;
}

abbrev n4 : List PfcpMsg
n4 = on_tunnels (tunnel 5 ∷ []) ∷ on_tunnels (tunnel 5 ∷ tunnel 6 ∷ []) ∷ []

abbrev on_stream : Direction → Option String → SbiMsg
on_stream direction supi = record {
  ts = 3;
  stream_id = 1;
  direction = direction;
  method = none;
  path = none;
  status = none;
  body_len = 0;
  name = none;
  supi = supi;
  pdu_session_id = none;
  problem_title = none;
  problem_cause = none;
  unparsed = none;
  conn = some ((some "amf", 4000), (some "smf", 7777));
  src_ip = none;
  dst_ip = none;
  src_port = none;
  dst_port = none;
}

abbrev create : SbiMsg
create = on_stream request (some "001010000000001")

abbrev created : SbiMsg
created = on_stream response none

abbrev sbi : List SbiMsg
sbi = create ∷ created ∷ []

program : Unit {0}
unfolding correlate join_sbi join_n4 flow_supis flow_tunnels claims_from claim_all supis_of
    tunnels_of owner owners n4_flow n4_links link_if link set_flow sort_refs request_links
    request_flow response_links response_flow StreamId-discrete Conn-discrete Tunnel-discrete
    String-discrete get put mem add sort_by
program = tt

n4_linked : (correlate flows sbi n4).n4.flow_of ≡ (0, some 1) ∷ (1, none) ∷ []
unfolding program
n4_linked = refl

sbi_linked : (correlate flows sbi n4).sbi.refs ≡ (1, 0 ∷ 1 ∷ []) ∷ []
unfolding program
sbi_linked = refl

correlate-IsN4Link_example :
    (get ℕ_discrete 0 (correlate flows sbi n4).n4.flow_of ≡ some (some 1))
    ↔ IsN4Link flows (on_tunnels (tunnel 5 ∷ [])) 1
correlate-IsN4Link_example = correlate-IsN4Link flows sbi n4 0 (on_tunnels (tunnel 5 ∷ [])) 1 refl

correlate-IsSbiLink_example :
    (get ℕ_discrete 1 (correlate flows sbi n4).sbi.flow_of ≡ some (some 1))
    ↔ IsSbiLink flows sbi created 1
correlate-IsSbiLink_example = correlate-IsSbiLink flows sbi n4 1 created 1 refl

correlate-refs_example :
    (In 0 (refs_at (correlate flows sbi n4).n4 1)
      ↔ (flow_at (correlate flows sbi n4).n4 0 ≡ some (some 1)))
    × (In 0 (refs_at (correlate flows sbi n4).sbi 1)
        ↔ (flow_at (correlate flows sbi n4).sbi 0 ≡ some (some 1)))
correlate-refs_example = correlate-refs flows sbi n4 0 1
