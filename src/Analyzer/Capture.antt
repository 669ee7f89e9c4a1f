-- ===== src/Analyzer/Capture.antt =====
-- 5gcap/fivegcap/capture.py. A packet is what scapy's layers show of it: a time, the addresses,
-- and an SCTP layer with its stacked chunks or a UDP layer with its payload.
pub mod Reassembly
pub mod Retransmission
use mathlib.Core.Option
use g_pcap.Prelude.{
  ℕ, String, Bool, true, false, not, ◌&&◌, ◌||◌, ◌==◌, if◌then◌else◌, Option, none, some, List, [],
  ◌∷◌, ◌++◌, ℕ_discrete,
}
use g_pcap.Prelude.Dict.{Dict, get, put, remove}
use g_pcap.Prelude.Keys.{pair_discrete}
use g_pcap.Prelude.Sets.{mem}

-- (source port, destination port)
abbrev pub Assoc : Type 0
Assoc = ℕ × ℕ

unfoldable pub Assoc-discrete : Discrete Assoc
unfolding pair_discrete ℕ_discrete
Assoc-discrete = pair_discrete ℕ_discrete ℕ_discrete

-- An association with a stream id, or with a TSN.
abbrev pub StreamKey : Type 0
StreamKey = Assoc × ℕ

unfoldable pub StreamKey-discrete : Discrete StreamKey
unfolding pair_discrete ℕ_discrete Assoc-discrete
StreamKey-discrete = pair_discrete Assoc-discrete ℕ_discrete

pub record Chunk : Type 0 where
  pub is_data_chunk : Bool
  pub proto_id : ℕ
  pub tsn : ℕ
  pub stream_id : ℕ
  pub ending : Bool
  pub payload : List ℕ

pub record Sctp : Type 0 where
  pub sport : ℕ
  pub dport : ℕ
  pub chunks : List Chunk

pub record Udp : Type 0 where
  pub sport : ℕ
  pub dport : ℕ
  pub payload : List ℕ

pub record Packet : Type 0 where
  pub time : ℕ
  pub src_ip : Option String
  pub dst_ip : Option String
  pub sctp : Option Sctp
  pub udp : Option Udp

pub record N2Message : Type 0 where
  pub ts : ℕ
  pub assoc : Assoc
  pub stream : ℕ
  pub content : List ℕ
  pub src_ip : Option String
  pub dst_ip : Option String

pub record Reader : Type 0 where
  pub buffers : Dict StreamKey (List ℕ)
  pub seen_tsns : List StreamKey
  pub msgs : List N2Message

abbrev pub ngap_ppid : ℕ
ngap_ppid = 60

abbrev pub is_empty : List ℕ → Bool
is_empty [] = true
is_empty (b ∷ bs) = false

-- The test on a chunk: NGAP data that is not empty.
unfoldable pub is_ngap : Chunk → Bool
is_ngap c = c.is_data_chunk && c.proto_id == ngap_ppid && not (is_empty c.payload)

unfoldable pub buffered : StreamKey → Dict StreamKey (List ℕ) → List ℕ
buffered k d = Option.get_or (get StreamKey-discrete k d) []

unfoldable pub completed : Packet → Assoc → Chunk → List ℕ → N2Message
completed pk assoc c whole = record {
  ts = pk.time;
  assoc = assoc;
  stream = c.stream_id;
  content = whole;
  src_ip = pk.src_ip;
  dst_ip = pk.dst_ip;
}

-- A chunk that is taken: its bytes go to the stream's buffer, and the last fragment completes
-- the message and drops the buffer.
unfoldable pub append_chunk : Packet → Assoc → Chunk → Reader → Reader
append_chunk pk assoc c s =
    let key : StreamKey = (assoc, c.stream_id) in
    let whole = buffered key s.buffers ++ c.payload in
    let seen : List StreamKey = (assoc, c.tsn) ∷ s.seen_tsns in
    if c.ending
    then (record {
      buffers = remove StreamKey-discrete key s.buffers;
      seen_tsns = seen;
      msgs = s.msgs ++ completed pk assoc c whole ∷ [];
    })
    else (record {
      buffers = put StreamKey-discrete key whole s.buffers;
      seen_tsns = seen;
      msgs = s.msgs;
    })

-- The body of the `while` loop over a packet's chunks.
unfoldable pub read_chunk : Packet → Assoc → Chunk → Reader → Reader
unfolding is_ngap
read_chunk pk assoc c s =
    if is_ngap c
    then (if mem StreamKey-discrete (assoc, c.tsn) s.seen_tsns
        then s
        else append_chunk pk assoc c s)
    else s

unfoldable pub read_chunks : Packet → Assoc → List Chunk → Reader → Reader
read_chunks pk assoc [] s = s
read_chunks pk assoc (c ∷ cs) s = read_chunks pk assoc cs (read_chunk pk assoc c s)

-- The body of the loop over the packets.
unfoldable pub read_packet : Packet → Reader → Reader
read_packet pk s = elim pk.sctp [ none ↦ s | some l ↦ read_chunks pk (l.sport, l.dport) l.chunks s ]

unfoldable pub read_packets : List Packet → Reader → Reader
read_packets [] s = s
read_packets (pk ∷ pks) s = read_packets pks (read_packet pk s)

abbrev pub start : Reader
start = record { buffers = []; seen_tsns = []; msgs = [] }

unfoldable pub read_capture : List Packet → List N2Message
read_capture pks = (read_packets pks start).msgs

pub record N4Message : Type 0 where
  pub ts : ℕ
  pub content : List ℕ
  pub src_ip : Option String
  pub dst_ip : Option String
  pub src_port : Option ℕ
  pub dst_port : Option ℕ

abbrev pub pfcp_port : ℕ
pfcp_port = 8805

unfoldable pub pfcp_message : Packet → Udp → List N4Message
pfcp_message pk u =
    if not (u.sport == pfcp_port || u.dport == pfcp_port) || is_empty u.payload
    then []
    else record {
      ts = pk.time;
      content = u.payload;
      src_ip = pk.src_ip;
      dst_ip = pk.dst_ip;
      src_port = some u.sport;
      dst_port = some u.dport;
    }
      ∷ []

unfoldable pub read_pfcp_capture : List Packet → List N4Message
unfolding pfcp_message
read_pfcp_capture [] = []
read_pfcp_capture (pk ∷ pks) = elim pk.udp [
  | none ↦ read_pfcp_capture pks
  | some u ↦ pfcp_message pk u ++ read_pfcp_capture pks
]
