-- ===== src/Tests/Sbi.antt =====
-- Tests of 5gcap/fivegcap/sbi.py: a stream with its response, and a request that is not answered.
use g_pcap.Prelude.{ℕ, ◌≡◌, refl, Option, none, some, List, [], ◌∷◌, map, All, In}
use g_pcap.Prelude.Dict.{get, put}
use g_pcap.Prelude.Sort.{sort_by}
use g_pcap.Analyzer.Sbi.{SbiMsg, Conn, Conn-discrete, Direction, request, response}
use g_pcap.Analyzer.Sbi.Pairing.{
  Outcome, accept, timeout, SbiProcedure, file, sort_out, sort_all, start_msg_of, outcome_of,
  timed_out, answered, pair_one, pair_streams, pair_conns, pair_procedures,
}
use g_pcap.Analyzer.Sbi.Pairing.Filed.{is_direction, matches, last_on, outcome_with, IsOfStream}
use g_pcap.Analyzer.Sbi.Pairing.Last.{pair_procedures-IsOfStream, pair_procedures-In}
use g_pcap.Analyzer.Sbi.Pairing.Count.{timeouts, pair_procedures-timeouts}

abbrev conn : Conn
conn = ((some "amf", 4000), (some "smf", 7777))

abbrev message : ℕ → ℕ → Direction → Option ℕ → SbiMsg
message ts stream_id direction status = record {
  ts = ts;
  stream_id = stream_id;
  direction = direction;
  method = some "POST";
  path = some "/nsmf-pdusession/v1/sm-contexts";
  status = status;
  body_len = 0;
  name = some "Nsmf_PDUSession";
  supi = none;
  pdu_session_id = none;
  problem_title = none;
  problem_cause = none;
  unparsed = none;
  conn = some conn;
  src_ip = none;
  dst_ip = none;
  src_port = none;
  dst_port = none;
}

abbrev create : SbiMsg
create = message 1 1 request none

abbrev created : SbiMsg
created = message 3 1 response (some 201)

abbrev unheard : SbiMsg
unheard = message 2 3 request none

abbrev exchange : List SbiMsg
exchange = create ∷ unheard ∷ created ∷ []

abbrev summary : SbiProcedure → ℕ × Outcome × Option ℕ
summary p = (p.start_ts, p.outcome, p.status)

program : Unit {0}
unfolding pair_procedures sort_all sort_out file pair_conns pair_streams pair_one answered timed_out
    outcome_of start_msg_of Conn-discrete get put sort_by last_on matches is_direction
program = tt

exchange_outcomes :
    map summary (pair_procedures exchange).0 ≡ (1, accept, some 201) ∷ (2, timeout, none) ∷ []
unfolding program
exchange_outcomes = refl

create_last : last_on request conn 1 exchange ≡ some create
unfolding program
create_last = refl

pair_procedures-IsOfStream_example : All (IsOfStream exchange) (pair_procedures exchange).0
pair_procedures-IsOfStream_example = pair_procedures-IsOfStream exchange

pair_procedures-In_example :
    In (outcome_with create (last_on response conn 1 exchange)) (pair_procedures exchange).0
pair_procedures-In_example = pair_procedures-In exchange conn 1 create create_last

pair_procedures-timeouts_example :
    (pair_procedures exchange).1 ≡ timeouts (pair_procedures exchange).0
pair_procedures-timeouts_example = pair_procedures-timeouts exchange
