-- ===== src/Analyzer/Pfcp/Pairing.antt =====
-- 5gcap/fivegcap/pfcp.py: `pair_procedures`.
pub mod Sound
pub mod Once
pub mod Complete
use mathlib.Core.Option
use g_pcap.Prelude.{
  ℕ, suc, ◌-◌, String, ◌==◌, ◌||◌, if◌then◌else◌, Option, none, some, List, [], ◌∷◌, ◌++◌, map,
  ℕ_discrete,
}
use g_pcap.Prelude.Dict.{Dict, get, put, remove, values}
use g_pcap.Prelude.Keys.{Option-discrete, pair_discrete}
use g_pcap.Prelude.Sort.{sort_by}
use g_pcap.Prelude.Text.{String-discrete, truthy}
use g_pcap.Analyzer.Pfcp.{PfcpMsg, N4Procedure, Outcome, accept, reject, unknown, timeout, req_kind}

-- An address and a port.
abbrev pub Endpoint : Type 0
Endpoint = Option String × Option ℕ

-- The key of a pending request: the end it comes from, the end it goes to, and the sequence number.
abbrev pub Key : Type 0
Key = Endpoint × (Endpoint × Option ℕ)

unfoldable pub Key-discrete : Discrete Key
unfolding String-discrete ℕ_discrete Option-discrete pair_discrete
Key-discrete =
    let endpoint : Discrete Endpoint =
      pair_discrete (Option-discrete String-discrete) (Option-discrete ℕ_discrete) in
    pair_discrete endpoint (pair_discrete endpoint (Option-discrete ℕ_discrete))

unfoldable pub request_key : PfcpMsg → Key
request_key m = ((m.src_ip, m.src_port), ((m.dst_ip, m.dst_port), m.seq))

-- A response travels the request's path in reverse.
unfoldable pub response_key : PfcpMsg → Key
response_key m = ((m.dst_ip, m.dst_port), ((m.src_ip, m.src_port), m.seq))

pub record Pairing : Type 0 where
  pub pending : Dict Key (PfcpMsg × ℕ)
  pub procedures : List N4Procedure

-- `"accept" if m.cause in (1, 2, 3) else "reject"`, and "unknown" without a cause.
unfoldable pub outcome_of : Option ℕ → Outcome
outcome_of none = unknown
outcome_of (some c) = if c == 1 || c == 2 || c == 3 then accept else reject

unfoldable pub answered : String → PfcpMsg × ℕ → ℕ → PfcpMsg → N4Procedure
unfolding outcome_of
answered kind (req, req_i) i m = record {
  kind = kind;
  start_ts = req.ts;
  end_ts = m.ts;
  start_msg = req.name;
  end_msg = m.name;
  outcome = outcome_of m.cause;
  cause = m.cause;
  cause_name = m.cause_name;
  req_index = some req_i;
  rsp_index = some i;
}

-- `REQ_KIND[req.msg_type]`; a pending message is a request, so the key is there.
unfoldable pub kind_of : PfcpMsg → String
unfolding req_kind
kind_of m = elim m.msg_type [
  | none ↦ ""
  | some t ↦ elim (req_kind t) [ none ↦ "" | some kind ↦ kind ]
]

unfoldable pub timed_out : PfcpMsg × ℕ → N4Procedure
unfolding kind_of
timed_out (req, req_i) = record {
  kind = kind_of req;
  start_ts = req.ts;
  end_ts = req.ts;
  start_msg = req.name;
  end_msg = none;
  outcome = timeout;
  cause = none;
  cause_name = none;
  req_index = some req_i;
  rsp_index = none;
}

-- A retransmission of a pending request keeps the first send.
unfoldable pub note_request : ℕ → PfcpMsg → Pairing → Pairing
note_request i m s = elim (get Key-discrete (request_key m) s.pending) [
  | none ↦ record s { pending = put Key-discrete (request_key m) (m, i) s.pending }
  | some _ ↦ s
]

unfoldable pub note_response : String → ℕ → PfcpMsg → Pairing → Pairing
note_response kind i m s = elim (get Key-discrete (response_key m) s.pending) [
  | none ↦ s
  | some req ↦ record {
    pending = remove Key-discrete (response_key m) s.pending;
    procedures = s.procedures ++ answered kind req i m ∷ [];
  }
]

-- What a message is to the pairing.
pub data Role : Type 0 where
  ignored : Role
  request : Role
  response : String → Role

by_type : ℕ → Role
unfolding req_kind
by_type t = elim (req_kind t) [
  | some _ ↦ request
  | none ↦ elim (req_kind (t - 1)) [ some kind ↦ response kind | none ↦ ignored ]
]

unfoldable pub role : PfcpMsg → Role
unfolding by_type
role m =
    if truthy m.unparsed then ignored else elim m.msg_type [ none ↦ ignored | some t ↦ by_type t ]

act : Role → ℕ → PfcpMsg → Pairing → Pairing
act ignored i m s = s
act request i m s = note_request i m s
act (response kind) i m s = note_response kind i m s

-- The body of the loop over `enumerate(msgs)`.
unfoldable pub step : ℕ → PfcpMsg → Pairing → Pairing
unfolding act
step i m s = act (role m) i m s

unfoldable pub scan : ℕ → List PfcpMsg → Pairing → Pairing
scan i [] s = s
scan i (m ∷ ms) s = scan (suc i) ms (step i m s)

abbrev pub start : Pairing
start = record { pending = []; procedures = [] }

-- (procedures, unpaired requests)
unfoldable pub pair_procedures : List PfcpMsg → List N4Procedure × List PfcpMsg
pair_procedures msgs =
    let s = scan 0 msgs start in
    (
      sort_by (λ p. p.start_ts) (s.procedures ++ map timed_out (values s.pending)),
      map (λ r. r.0) (values s.pending),
    )
