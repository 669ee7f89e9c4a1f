-- ===== src/Analyzer/Sbi/Pairing.antt =====
-- 5gcap/fivegcap/sbi.py, `pair_procedures`: requests and responses paired by connection and
-- stream.
pub mod Filed
pub mod Last
pub mod Count
use Prim.Native.String.{◌++◌ as append}
use g_pcap.Prelude.{
  ℕ, ◌+◌, String, Bool, true, false, ◌&&◌, not, ltb, leb, if◌then◌else◌, Option, none, some, List,
  [], ◌∷◌, ◌++◌, ℕ_discrete,
}
use g_pcap.Prelude.Dict.{Dict, get, put}
use g_pcap.Prelude.Sort.{sort_by}
use g_pcap.Prelude.Text.{truthy, show}
use g_pcap.Analyzer.Sbi.{SbiMsg, Conn, Conn-discrete, Direction, request, response}

pub data Outcome : Type 0 where
  accept reject timeout : Outcome

pub record SbiProcedure : Type 0 where
  pub kind : String
  pub start_ts : ℕ
  pub end_ts : ℕ
  pub start_msg : String
  pub end_msg : Option String
  pub outcome : Outcome
  pub status : Option ℕ
  pub conn : Option Conn
  pub stream_id : Option ℕ

-- connection -> stream id -> the last message
abbrev pub Bucket : Type 0
Bucket = Dict Conn (Dict ℕ SbiMsg)

pub record Buckets : Type 0 where
  pub reqs : Bucket
  pub rsps : Bucket

abbrev pub streams_at : Option (Dict ℕ SbiMsg) → Dict ℕ SbiMsg
streams_at none = []
streams_at (some d) = d

-- `bucket.setdefault(m.conn, {})[m.stream_id] = m`
unfoldable pub file : Conn → SbiMsg → Bucket → Bucket
file c m b =
    put Conn-discrete c (put ℕ_discrete m.stream_id m (streams_at (get Conn-discrete c b))) b

abbrev pub file_in : Direction → Conn → SbiMsg → Buckets → Buckets
file_in request c m b = record b { reqs = file c m b.reqs }
file_in response c m b = record b { rsps = file c m b.rsps }

-- The body of the first loop.
unfoldable pub sort_out : SbiMsg → Buckets → Buckets
unfolding file
sort_out m b =
    if truthy m.unparsed then b else elim m.conn [ none ↦ b | some c ↦ file_in m.direction c m b ]

unfoldable pub sort_all : List SbiMsg → Buckets → Buckets
unfolding sort_out
sort_all [] b = b
sort_all (m ∷ ms) b = sort_all ms (sort_out m b)

-- `s or default`
abbrev pub text_or : Option String → String → String
text_or none default = default
text_or (some s) default = if truthy (some s) then s else default

abbrev pub text_of : Option String → String
text_of none = "None"
text_of (some s) = s

-- `f"{req.method} {req.path}" if req.method else (req.path or "?")`
unfoldable pub start_msg_of : SbiMsg → String
start_msg_of req =
    if truthy req.method
    then append (append (text_of req.method) " ") (text_of req.path)
    else text_or req.path "?"

unfoldable pub timed_out : SbiMsg → SbiProcedure
unfolding start_msg_of
timed_out req = record {
  kind = text_or req.name "unknown";
  start_ts = req.ts;
  end_ts = req.ts;
  start_msg = start_msg_of req;
  end_msg = none;
  outcome = timeout;
  status = none;
  conn = req.conn;
  stream_id = some req.stream_id;
}

-- `rsp.status or 0`
abbrev pub status_or_zero : Option ℕ → ℕ
status_or_zero none = 0
status_or_zero (some n) = n

abbrev pub status_text : Option ℕ → String
status_text none = "None"
status_text (some n) = show n

unfoldable pub outcome_of : Option ℕ → Outcome
outcome_of status =
    if leb 200 (status_or_zero status) && ltb (status_or_zero status) 300 then accept else reject

unfoldable pub answered : SbiMsg → SbiMsg → SbiProcedure
unfolding start_msg_of outcome_of
answered req rsp = record {
  kind = text_or req.name "unknown";
  start_ts = req.ts;
  end_ts = rsp.ts;
  start_msg = start_msg_of req;
  end_msg = some (status_text rsp.status);
  outcome = outcome_of rsp.status;
  status = rsp.status;
  conn = req.conn;
  stream_id = some req.stream_id;
}

-- The procedures so far, and the unpaired requests.
abbrev pub Paired : Type 0
Paired = List SbiProcedure × ℕ

unfoldable pub pair_one : SbiMsg → Option SbiMsg → Paired → Paired
unfolding timed_out answered
pair_one req none (ps, n) = (ps ++ timed_out req ∷ [], n + 1)
pair_one req (some rsp) (ps, n) = (ps ++ answered req rsp ∷ [], n)

-- The inner loop, over the requests of one connection.
unfoldable pub pair_streams : Dict ℕ SbiMsg → Dict ℕ SbiMsg → Paired → Paired
unfolding pair_one
pair_streams conn_rsps [] s = s
pair_streams conn_rsps ((sid, req) ∷ rest) s =
    pair_streams conn_rsps rest (pair_one req (get ℕ_discrete sid conn_rsps) s)

-- The outer loop, over the connections.
unfoldable pub pair_conns : Bucket → Bucket → Paired → Paired
unfolding pair_streams
pair_conns rsps [] s = s
pair_conns rsps ((c, conn_reqs) ∷ rest) s =
    pair_conns rsps rest (pair_streams (streams_at (get Conn-discrete c rsps)) conn_reqs s)

unfoldable pub pair_procedures : List SbiMsg → Paired
unfolding sort_all pair_conns
pair_procedures msgs =
    let b = sort_all msgs (record { reqs = []; rsps = [] }) in
    let (procedures, unpaired) = pair_conns b.rsps b.reqs ([], 0) in
    (sort_by (λ p. p.start_ts) procedures, unpaired)
