-- ===== src/Analyzer/Capture/Reassembly.antt =====
-- `read_capture` (5gcap/fivegcap/capture.py) against one stream read alone.
use mathlib.Core.Logic.{ite}
use mathlib.Core.List.{append_assoc, append-nil}
use g_pcap.Prelude.{
  ℕ, not, ◌&&◌, if◌then◌else◌, is, ◌≡◌, refl, sym, ◌∙◌, none, some, List, [], ◌∷◌, ◌++◌, arith,
  keep, Bool-cases, Option-cases, inl, inr,
}
use g_pcap.Prelude.Dict.{Dict, get, put, remove, get-put, get-remove}
use g_pcap.Prelude.Sets.{mem}
use g_pcap.Analyzer.Capture.{
  Assoc, StreamKey, StreamKey-discrete, Chunk, Sctp, Packet, N2Message, Reader, is_ngap, buffered,
  completed, append_chunk, read_chunk, read_chunks, read_packet, read_packets, read_capture, start,
}

-- A chunk with the association that it came on.
pub record Arrival : Type 0 where
  pub assoc : Assoc
  pub chunk : Chunk

abbrev pub tsn_key : Arrival → StreamKey
tsn_key a = (a.assoc, a.chunk.tsn)

abbrev pub stream_key : Arrival → StreamKey
stream_key a = (a.assoc, a.chunk.stream_id)

unfoldable pub tag : Assoc → List Chunk → List Arrival
tag assoc [] = []
tag assoc (c ∷ cs) = record { assoc = assoc; chunk = c } ∷ tag assoc cs

-- All the chunks of a capture, in order.
unfoldable pub arrivals : List Packet → List Arrival
unfolding tag
arrivals [] = []
arrivals (pk ∷ pks) = elim pk.sctp [
  | none ↦ arrivals pks
  | some l ↦ tag (l.sport, l.dport) l.chunks ++ arrivals pks
]

module _ (pk : Packet) (pks : List Packet) where
  pub arrivals-none : pk.sctp ≡ none → arrivals (pk ∷ pks) ≡ arrivals pks
  unfolding arrivals
  arrivals-none e = ground arith

  pub arrivals-some :
      (l : Sctp)
      → pk.sctp ≡ some l
      → arrivals (pk ∷ pks) ≡ tag (l.sport, l.dport) l.chunks ++ arrivals pks
  unfolding arrivals
  arrivals-some l e = ground arith

-- The NGAP chunks without the retransmissions: the first of each association and TSN.
pub first_sends : List StreamKey → List Arrival → List Arrival
first_sends seen [] = []
first_sends seen (a ∷ rest) =
    let skipped = first_sends seen rest in
    let taken = a ∷ first_sends (tsn_key a ∷ seen) rest in
    if is_ngap a.chunk && not (mem StreamKey-discrete (tsn_key a) seen) then taken else skipped

-- The chunks of one stream.
pub of_stream : StreamKey → List Arrival → List Arrival
of_stream k = keep (λ a. is (StreamKey-discrete (stream_key a) k))

-- The messages of one stream: each is the payloads up to and with an ending chunk, joined.
pub reassemble : List ℕ → List Arrival → List (List ℕ)
reassemble bytes [] = []
reassemble bytes (a ∷ rest) =
    let more = reassemble (bytes ++ a.chunk.payload) rest in
    let next = (bytes ++ a.chunk.payload) ∷ reassemble [] rest in
    if a.chunk.ending then next else more

-- The contents of the messages that were read from one stream.
pub contents : StreamKey → List N2Message → List (List ℕ)
contents k [] = []
contents k (m ∷ ms) =
    let more = contents k ms in
    if is (StreamKey-discrete (m.assoc, m.stream) k) then m.content ∷ more else more

contents-append :
    (k : StreamKey) (ms ns : List N2Message)
    → contents k (ms ++ ns) ≡ contents k ms ++ contents k ns
unfolding contents
contents-append k [] ns = refl
contents-append k (m ∷ ms) ns = ground (arith, contents-append k ms ns)

module _ (k : StreamKey) where
  buffered-put :
      (j : StreamKey) (v : List ℕ) (d : Dict StreamKey (List ℕ))
      → buffered k (put StreamKey-discrete j v d) ≡ ite (StreamKey-discrete j k) v (buffered k d)
  unfolding buffered
  buffered-put j v d = ground (arith, get-put StreamKey-discrete j k v d)

  buffered-remove :
      (j : StreamKey) (d : Dict StreamKey (List ℕ))
      → buffered k (remove StreamKey-discrete j d) ≡ ite (StreamKey-discrete j k) [] (buffered k d)
  unfolding buffered
  buffered-remove j d = ground (arith, get-remove StreamKey-discrete j k d)

  -- What the stream yields in all, from a state and the chunks that are still to come.
  outlook : Reader → List Arrival → List (List ℕ)
  outlook s rest =
      contents k s.msgs
      ++ reassemble (buffered k s.buffers) (of_stream k (first_sends s.seen_tsns rest))

  contents_one :
      (m : N2Message)
      → contents k (m ∷ [])
        ≡ (if is (StreamKey-discrete (m.assoc, m.stream) k) then m.content ∷ [] else [])
  unfolding contents
  contents_one m = refl

  reassemble_next :
      (bytes : List ℕ) (a : Arrival) (rest : List Arrival)
      → reassemble bytes (of_stream k (a ∷ rest)) ≡ (
          if is (StreamKey-discrete (stream_key a) k)
          then (if a.chunk.ending
              then (bytes ++ a.chunk.payload) ∷ reassemble [] (of_stream k rest)
              else reassemble (bytes ++ a.chunk.payload) (of_stream k rest))
          else reassemble bytes (of_stream k rest))
  unfolding reassemble of_stream
  reassemble_next bytes a rest = ground arith

  module _ (pk : Packet) (assoc : Assoc) (c : Chunk) (s : Reader) (rest : List Arrival) where
    abbrev taken : List Arrival
    taken = first_sends ((assoc, c.tsn) ∷ s.seen_tsns) rest

    abbrev whole : List ℕ
    whole = buffered (assoc, c.stream_id) s.buffers ++ c.payload

    append_chunk-outlook :
        outlook (append_chunk pk assoc c s) rest
        ≡ contents k s.msgs
          ++ reassemble
              (buffered k s.buffers)
              (of_stream k (record { assoc = assoc; chunk = c } ∷ taken))
    unfolding outlook append_chunk completed
    append_chunk-outlook = elim (Bool-cases c.ending) [
      | inl e ↦ simp e (
          ground (
            arith,
            contents-append k s.msgs (completed pk assoc c whole ∷ []),
            contents_one (completed pk assoc c whole),
            buffered-remove (assoc, c.stream_id) s.buffers,
            reassemble_next (buffered k s.buffers) (record { assoc = assoc; chunk = c }) taken,
            append_assoc (contents k s.msgs) (whole ∷ []) (reassemble [] (of_stream k taken)),
            append-nil (contents k s.msgs),
          ))
      | inr e ↦ simp e (
          ground (
            arith,
            buffered-put (assoc, c.stream_id) whole s.buffers,
            reassemble_next (buffered k s.buffers) (record { assoc = assoc; chunk = c }) taken,
          ))
    ]

    read_chunk-outlook :
        outlook (read_chunk pk assoc c s) rest
        ≡ outlook s (record { assoc = assoc; chunk = c } ∷ rest)
    unfolding outlook read_chunk first_sends
    read_chunk-outlook =
        elim (Bool-cases (is_ngap c && not (mem StreamKey-discrete (assoc, c.tsn) s.seen_tsns))) [
          | inl e ↦ ground (arith, append_chunk-outlook)
          | inr e ↦ ground arith
        ]

  read_chunks-outlook :
      (pk : Packet) (assoc : Assoc) (cs : List Chunk) (s : Reader) (rest : List Arrival)
      → outlook (read_chunks pk assoc cs s) rest ≡ outlook s (tag assoc cs ++ rest)
  unfolding read_chunks tag
  read_chunks-outlook pk assoc [] s rest = refl
  read_chunks-outlook pk assoc (c ∷ cs) s rest =
      read_chunks-outlook pk assoc cs (read_chunk pk assoc c s) rest
      ∙ read_chunk-outlook pk assoc c s (tag assoc cs ++ rest)

  read_packets-outlook :
      (pks : List Packet) (s : Reader) → outlook (read_packets pks s) [] ≡ outlook s (arrivals pks)
  unfolding read_packets arrivals read_packet
  read_packets-outlook [] s = refl
  read_packets-outlook (pk ∷ pks) s = elim (Option-cases pk.sctp) [
    | inl e ↦ ground (arith, read_packets-outlook pks s)
    | inr (l, e) ↦ ground (
      arith,
      read_packets-outlook pks (read_chunks pk (l.sport, l.dport) l.chunks s),
      read_chunks-outlook pk (l.sport, l.dport) l.chunks s (arrivals pks),
    )
  ]

-- For every association and stream, the contents of the messages that were read from it are the
-- stream's own first-sent chunks, joined up to each ending chunk: what other streams interleave
-- with it, how chunks are bundled into packets, and retransmissions make no difference.
pub read_capture-eq-reassemble :
    (pks : List Packet) (k : StreamKey)
    → contents k (read_capture pks) ≡ reassemble [] (of_stream k (first_sends [] (arrivals pks)))
unfolding read_capture outlook first_sends of_stream reassemble contents buffered get
read_capture-eq-reassemble pks k =
    sym (append-nil (contents k (read_packets pks start).msgs)) ∙ read_packets-outlook k pks start
