-- ===== src/Analyzer/Capture/Retransmission.antt =====
-- Retransmitted chunks and `read_capture` (5gcap/fivegcap/capture.py).
use g_pcap.Prelude.{
  true, if◌then◌else◌, ◌≡◌, refl, ap, ◌∙◌, none, some, List, [], ◌∷◌, ◌++◌, arith, All, All-imp,
  All-In, In, Bool-cases, Option-cases, inl, inr,
}
use g_pcap.Prelude.Sets.{mem}
use g_pcap.Analyzer.Capture.{
  Assoc, StreamKey, StreamKey-discrete, Chunk, Sctp, Packet, Reader, is_ngap, append_chunk,
  read_chunk, read_chunks, read_packet, read_packets, read_capture, start,
}
use g_pcap.Analyzer.Capture.Reassembly.{
  Arrival, tsn_key, arrivals, arrivals-none, arrivals-some, tag,
}

-- The association and TSN of each NGAP chunk.
unfoldable pub sends : List Arrival → List StreamKey
sends [] = []
sends (a ∷ rest) = let more = sends rest in if is_ngap a.chunk then tsn_key a ∷ more else more

module _ (P : StreamKey → Type 0) where
  sends_left : (xs ys : List Arrival) → All P (sends (xs ++ ys)) → All P (sends xs)
  unfolding sends
  sends_left [] ys h = tt
  sends_left (a ∷ xs) ys h = ground (arith, sends_left xs ys)

  sends_right : (xs ys : List Arrival) → All P (sends (xs ++ ys)) → All P (sends ys)
  unfolding sends
  sends_right [] ys h = h
  sends_right (a ∷ xs) ys h = ground (arith, sends_right xs ys)

  sends_both :
      (xs ys : List Arrival) → All P (sends xs) → All P (sends ys) → All P (sends (xs ++ ys))
  unfolding sends
  sends_both [] ys h g = g
  sends_both (a ∷ xs) ys h g = ground (arith, sends_both xs ys)

-- The association and TSN have been read.
abbrev IsSeen : Reader → StreamKey → Type 0
IsSeen s k = mem StreamKey-discrete k s.seen_tsns ≡ true

module _ (pk : Packet) (assoc : Assoc) where
  chunk_again :
      (c : Chunk) (s : Reader)
      → (is_ngap c ≡ true → IsSeen s (assoc, c.tsn))
      → read_chunk pk assoc c s ≡ s
  unfolding read_chunk
  chunk_again c s h = ground (arith, h)

  chunks_again :
      (cs : List Chunk) (s : Reader)
      → All (IsSeen s) (sends (tag assoc cs))
      → read_chunks pk assoc cs s ≡ s
  unfolding read_chunks tag sends
  chunks_again [] s h = refl
  chunks_again (c ∷ cs) s h =
      let now : read_chunk pk assoc c s ≡ s = chunk_again c s (λ e. ground arith) in
      rw now (chunks_again cs s (ground arith))

  chunk-IsSeen :
      (c : Chunk) (s : Reader) (k : StreamKey) → IsSeen s k → IsSeen (read_chunk pk assoc c s) k
  unfolding read_chunk append_chunk mem
  chunk-IsSeen c s k h = ground arith

  chunk_sees :
      (c : Chunk) (s : Reader) → is_ngap c ≡ true → IsSeen (read_chunk pk assoc c s) (assoc, c.tsn)
  unfolding read_chunk append_chunk mem
  chunk_sees c s h = ground arith

  chunks-IsSeen :
      (cs : List Chunk) (s : Reader) (k : StreamKey)
      → IsSeen s k
      → IsSeen (read_chunks pk assoc cs s) k
  unfolding read_chunks
  chunks-IsSeen [] s k h = h
  chunks-IsSeen (c ∷ cs) s k h = chunks-IsSeen cs (read_chunk pk assoc c s) k (chunk-IsSeen c s k h)

  chunks_see :
      (cs : List Chunk) (s : Reader)
      → All (IsSeen (read_chunks pk assoc cs s)) (sends (tag assoc cs))
  unfolding read_chunks tag sends
  chunks_see [] s = tt
  chunks_see (c ∷ cs) s = elim (Bool-cases (is_ngap c)) [
    | inl e ↦ rw e (
      chunks-IsSeen cs (read_chunk pk assoc c s) (assoc, c.tsn) (chunk_sees c s e),
      chunks_see cs (read_chunk pk assoc c s),
    )
    | inr e ↦ rw e (chunks_see cs (read_chunk pk assoc c s))
  ]

module _ (pk : Packet) (s : Reader) where
  packet_none : pk.sctp ≡ none → read_packet pk s ≡ s
  unfolding read_packet
  packet_none e = ground arith

  packet_some :
      (l : Sctp)
      → pk.sctp ≡ some l
      → read_packet pk s ≡ read_chunks pk (l.sport, l.dport) l.chunks s
  unfolding read_packet
  packet_some l e = ground arith

  packet-IsSeen : (k : StreamKey) → IsSeen s k → IsSeen (read_packet pk s) k
  packet-IsSeen k h = elim (Option-cases pk.sctp) [
    | inl e ↦ rw (packet_none e) h
    | inr (l, e) ↦ rw (packet_some l e) (chunks-IsSeen pk (l.sport, l.dport) l.chunks s k h)
  ]

packets-IsSeen :
    (pks : List Packet) (s : Reader) (k : StreamKey) → IsSeen s k → IsSeen (read_packets pks s) k
unfolding read_packets
packets-IsSeen [] s k h = h
packets-IsSeen (pk ∷ pks) s k h = packets-IsSeen pks (read_packet pk s) k (packet-IsSeen pk s k h)

packets_see :
    (pks : List Packet) (s : Reader) → All (IsSeen (read_packets pks s)) (sends (arrivals pks))
unfolding read_packets
packets_see [] s = unfold sends arrivals in tt
packets_see (pk ∷ pks) s =
    let s' = read_packet pk s in
    let rest = packets_see pks s' in
    elim (Option-cases pk.sctp) [
      | inl e ↦ rw (arrivals-none pk pks e) rest
      | inr (l, e) ↦
          let seen = chunks_see pk (l.sport, l.dport) l.chunks s in
          rw (arrivals-some pk pks l e) (
            sends_both (IsSeen (read_packets pks s')) (tag (l.sport, l.dport) l.chunks)
              (arrivals pks)
              (All-imp (sends (tag (l.sport, l.dport) l.chunks)) (packets-IsSeen pks s')
                (rw (packet_some pk s l e) seen))
              rest)
    ]

packets_again :
    (pks : List Packet) (s : Reader)
    → All (IsSeen s) (sends (arrivals pks))
    → read_packets pks s ≡ s
unfolding read_packets
packets_again [] s h = refl
packets_again (pk ∷ pks) s h = elim (Option-cases pk.sctp) [
  | inl e ↦ rw (packet_none pk s e) (packets_again pks s (rw (arrivals-none pk pks e) at h))
  | inr (l, e) ↦
      let sent = tag (l.sport, l.dport) l.chunks in
      let h' = rw (arrivals-some pk pks l e) at h in
      let here =
        chunks_again pk (l.sport, l.dport) l.chunks s
          (sends_left (IsSeen s) sent (arrivals pks) h') in
      rw (packet_some pk s l e, here)
        (packets_again pks s (sends_right (IsSeen s) sent (arrivals pks) h'))
]

read_packets-append :
    (pks again : List Packet) (s : Reader)
    → read_packets (pks ++ again) s ≡ read_packets again (read_packets pks s)
unfolding read_packets
read_packets-append [] again s = refl
read_packets-append (pk ∷ pks) again s = read_packets-append pks again (read_packet pk s)

-- Packets whose every NGAP chunk repeats an association and TSN of the capture before them add
-- no message: the capture reads as it does without them.
pub read_capture_again :
    (pks again : List Packet)
    → All (λ k. In k (sends (arrivals pks))) (sends (arrivals again))
    → read_capture (pks ++ again) ≡ read_capture pks
unfolding read_capture
read_capture_again pks again h =
    ap (λ (s : Reader). s.msgs)
      (read_packets-append pks again start
        ∙ packets_again again (read_packets pks start) (
            All-imp (sends (arrivals again))
              (λ k.
                All-In (IsSeen (read_packets pks start)) k (sends (arrivals pks))
                  (packets_see pks start))
              h))
