-- ===== src/Tests/Capture.antt =====
-- Tests of 5gcap/fivegcap/capture.py: two streams of one association interleaved, a bundled packet
-- and a retransmission.
use g_pcap.Prelude.{ℕ, ◌≡◌, refl, Bool, true, false, none, some, List, [], ◌∷◌, ◌++◌, map, inl, inr}
use g_pcap.Analyzer.Capture.{
  StreamKey, StreamKey-discrete, Chunk, Packet, N2Message, buffered, completed, is_ngap,
  append_chunk, read_chunk, read_chunks, read_packet, read_packets, read_capture,
}
use g_pcap.Prelude.Dict.{get, put, remove}
use g_pcap.Prelude.Sets.{mem}
use g_pcap.Analyzer.Capture.Reassembly.{
  arrivals, first_sends, of_stream, reassemble, contents, read_capture-eq-reassemble,
}
use g_pcap.Analyzer.Capture.Retransmission.{sends, read_capture_again}

abbrev chunk : ℕ → ℕ → Bool → List ℕ → Chunk
chunk tsn stream ending payload = record {
  is_data_chunk = true;
  proto_id = 60;
  tsn = tsn;
  stream_id = stream;
  ending = ending;
  payload = payload;
}

abbrev packet : ℕ → List Chunk → Packet
packet time chunks = record {
  time = time;
  src_ip = some "gnb";
  dst_ip = some "amf";
  sctp = some (record { sport = 9487; dport = 38412; chunks = chunks });
  udp = none;
}

abbrev bundled : Packet
bundled = packet 1 (chunk 7 0 false (1 ∷ []) ∷ chunk 8 1 true (9 ∷ []) ∷ [])

abbrev closing : Packet
closing = packet 2 (chunk 9 0 true (2 ∷ 3 ∷ []) ∷ [])

abbrev trace : List Packet
trace = bundled ∷ closing ∷ []

abbrev first_stream : StreamKey
first_stream = ((9487, 38412), 0)

abbrev summary : N2Message → ℕ × ℕ × List ℕ
summary m = (m.ts, m.stream, m.content)

program : Unit {0}
unfolding completed read_capture read_packets read_packet read_chunks read_chunk append_chunk
    buffered StreamKey-discrete get put remove mem
program = tt

trace_messages :
    map summary (read_capture (trace ++ closing ∷ []))
    ≡ (1, 1, 9 ∷ []) ∷ (2, 0, 1 ∷ 2 ∷ 3 ∷ []) ∷ []
unfolding program
trace_messages = refl

read_capture-eq-reassemble_example :
    contents first_stream (read_capture trace)
    ≡ reassemble [] (of_stream first_stream (first_sends [] (arrivals trace)))
read_capture-eq-reassemble_example = read_capture-eq-reassemble trace first_stream

read_capture_again_example : read_capture (trace ++ closing ∷ []) ≡ read_capture trace
unfolding sends arrivals is_ngap
read_capture_again_example = read_capture_again trace (closing ∷ []) (inr (inr (inl refl)), tt)
