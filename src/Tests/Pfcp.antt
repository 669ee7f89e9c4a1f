-- ===== src/Tests/Pfcp.antt =====
-- Tests of 5gcap/fivegcap/pfcp.py: a request, its retransmission, the response, and a request
-- that is never answered.
use g_pcap.Prelude.{ℕ, ◌≤◌, String, ◌≡◌, refl, Option, none, some, List, [], ◌∷◌, map, All}
use g_pcap.Prelude.Sort.{sort_by}
use g_pcap.Prelude.Dict.{get, put, remove}
use g_pcap.Analyzer.Pfcp.{PfcpMsg, N4Procedure, Outcome, accept, timeout}
use g_pcap.Analyzer.Pfcp.Pairing.{
  Key-discrete, request_key, response_key, role, request, answered, timed_out, note_request,
  note_response, step, scan, pair_procedures,
}
use g_pcap.Analyzer.Pfcp.Pairing.Sound.{IsExplained, pair_procedures-IsExplained}
use g_pcap.Analyzer.Pfcp.Pairing.Once.{starts, ends, pair_procedures_once}
use g_pcap.Analyzer.Pfcp.Pairing.Complete.{IsReturned, pair_procedures-IsReturned}

abbrev message : ℕ → ℕ → ℕ → String → String → Option ℕ → PfcpMsg
message ts t seq src dst cause = record {
  ts = ts;
  raw = [];
  msg_type = some t;
  name = none;
  seq = some seq;
  seid = none;
  cause = cause;
  cause_name = none;
  ies = [];
  f_teids = [];
  ue_ip = none;
  user_id = none;
  unparsed = none;
  src_ip = some src;
  dst_ip = some dst;
  src_port = some 8805;
  dst_port = some 8805;
}

abbrev asked : PfcpMsg
asked = message 10 50 1 "smf" "upf" none

abbrev asked_again : PfcpMsg
asked_again = message 11 50 1 "smf" "upf" none

abbrev replied : PfcpMsg
replied = message 12 51 1 "upf" "smf" (some 1)

abbrev unheard : PfcpMsg
unheard = message 13 52 2 "smf" "upf" none

abbrev exchange : List PfcpMsg
exchange = asked ∷ asked_again ∷ replied ∷ unheard ∷ []

abbrev summary : N4Procedure → String × Outcome × Option ℕ × Option ℕ
summary p = (p.kind, p.outcome, p.req_index, p.rsp_index)

program : Unit {0}
unfolding pair_procedures scan step role note_request note_response answered timed_out request_key
    response_key Key-discrete get put remove sort_by
program = tt

exchange_outcomes :
    map summary (pair_procedures exchange).0
    ≡ ("session_establishment", accept, some 0, some 2)
      ∷ ("session_modification", timeout, some 3, none)
      ∷ []
unfolding program
exchange_outcomes = refl

asked_again-role : role asked_again ≡ request
unfolding role
asked_again-role = refl

pair_procedures-IsExplained_example : All (IsExplained exchange) (pair_procedures exchange).0
pair_procedures-IsExplained_example = pair_procedures-IsExplained exchange

pair_procedures_once_example :
    (starts 0 (pair_procedures exchange).0 ≤ 1) × (ends 0 (pair_procedures exchange).0 ≤ 1)
pair_procedures_once_example = pair_procedures_once exchange 0

pair_procedures-IsReturned_example : IsReturned exchange 1 asked_again (pair_procedures exchange).0
pair_procedures-IsReturned_example =
    pair_procedures-IsReturned exchange 1 asked_again refl asked_again-role
