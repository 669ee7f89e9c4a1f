-- ===== src/Analyzer/Pfcp/Pairing/Once.antt =====
-- No message is counted twice by `pair_procedures` (5gcap/fivegcap/pfcp.py).
use g_pcap.Prelude.{
  ℕ, suc, ◌+◌, ◌≤◌, ◌==◌, if◌then◌else◌, String, ◌≡◌, refl, Option, none, some, List, [], ◌∷◌, ◌++◌,
  map, arith, Option-cases, inl, inr,
}
use g_pcap.Prelude.Dict.{
  Dict, get, put, remove, values, IsDict, put-append, put-IsDict, remove-IsDict, remove_absent,
}
use g_pcap.Prelude.Sort.{sort_by, insert_by}
use g_pcap.Analyzer.Pfcp.{PfcpMsg, N4Procedure}
use g_pcap.Analyzer.Pfcp.Pairing.{
  Key, Key-discrete, request_key, response_key, Pairing, answered, timed_out, note_request,
  note_response, role, act, step, scan, start, pair_procedures,
}
use g_pcap.Analyzer.Pfcp.Pairing.Sound.{Role-cases}

abbrev pub hits : ℕ → Option ℕ → ℕ
hits j none = 0
hits j (some i) = if i == j then 1 else 0

-- The procedures that message `j` starts.
abbrev pub starts : ℕ → List N4Procedure → ℕ
starts j [] = 0
starts j (p ∷ ps) = hits j p.req_index + starts j ps

-- The procedures that message `j` ends.
abbrev pub ends : ℕ → List N4Procedure → ℕ
ends j [] = 0
ends j (p ∷ ps) = hits j p.rsp_index + ends j ps

-- The pending requests that are message `j`.
abbrev waits : ℕ → Dict Key (PfcpMsg × ℕ) → ℕ
waits j [] = 0
waits j ((k, (m, i)) ∷ d) = hits j (some i) + waits j d

module _ (j : ℕ) where
  starts-append : (ps qs : List N4Procedure) → starts j (ps ++ qs) ≡ starts j ps + starts j qs
  starts-append [] qs = omega arith
  starts-append (p ∷ ps) qs = omega (arith, starts-append ps qs)

  ends-append : (ps qs : List N4Procedure) → ends j (ps ++ qs) ≡ ends j ps + ends j qs
  ends-append [] qs = omega arith
  ends-append (p ∷ ps) qs = omega (arith, ends-append ps qs)

  waits-append : (d e : Dict Key (PfcpMsg × ℕ)) → waits j (d ++ e) ≡ waits j d + waits j e
  waits-append [] e = omega arith
  waits-append ((k, (m, i)) ∷ d) e = omega (arith, waits-append d e)

  waits-remove :
      (k : Key) (v : PfcpMsg × ℕ) (d : Dict Key (PfcpMsg × ℕ))
      → IsDict Key-discrete d
      → get Key-discrete k d ≡ some v
      → hits j (some v.1) + waits j (remove Key-discrete k d) ≡ waits j d
  unfolding get remove
  waits-remove k v [] u e = cc
  waits-remove k v ((i, (m, n)) ∷ d) u e =
      ground (arith, waits-remove k v d u.1, remove_absent Key-discrete k d)

  starts-timeouts : (d : Dict Key (PfcpMsg × ℕ)) → starts j (map timed_out (values d)) ≡ waits j d
  unfolding timed_out
  starts-timeouts [] = refl
  starts-timeouts ((k, (m, i)) ∷ d) = omega (arith, starts-timeouts d)

  ends-timeouts : (d : Dict Key (PfcpMsg × ℕ)) → ends j (map timed_out (values d)) ≡ 0
  unfolding timed_out
  ends-timeouts [] = refl
  ends-timeouts ((k, (m, i)) ∷ d) = omega (arith, ends-timeouts d)

  module _ (key : N4Procedure → ℕ) where
    starts-insert_by :
        (p : N4Procedure) (ps : List N4Procedure)
        → starts j (insert_by key p ps) ≡ starts j (p ∷ ps)
    unfolding insert_by
    starts-insert_by p [] = refl
    starts-insert_by p (q ∷ ps) = ground (arith, starts-insert_by p ps)

    starts-sort_by : (ps : List N4Procedure) → starts j (sort_by key ps) ≡ starts j ps
    unfolding sort_by
    starts-sort_by [] = refl
    starts-sort_by (p ∷ ps) = omega (arith, starts-insert_by p (sort_by key ps), starts-sort_by ps)

    ends-insert_by :
        (p : N4Procedure) (ps : List N4Procedure) → ends j (insert_by key p ps) ≡ ends j (p ∷ ps)
    unfolding insert_by
    ends-insert_by p [] = refl
    ends-insert_by p (q ∷ ps) = ground (arith, ends-insert_by p ps)

    ends-sort_by : (ps : List N4Procedure) → ends j (sort_by key ps) ≡ ends j ps
    unfolding sort_by
    ends-sort_by [] = refl
    ends-sort_by (p ∷ ps) = omega (arith, ends-insert_by p (sort_by key ps), ends-sort_by ps)

-- Before message `i`: each key is pending once, and message `j` has been used at most once.
record IsOnce (j i : ℕ) (s : Pairing) : Type 0 where
  keys : IsDict Key-discrete s.pending
  started : starts j s.procedures + waits j s.pending ≤ 1
  ended : ends j s.procedures ≤ 1
  not_yet_started : i ≤ j → starts j s.procedures + waits j s.pending ≡ 0
  not_yet_ended : i ≤ j → ends j s.procedures ≡ 0

module _ (j i : ℕ) (m : PfcpMsg) (s : Pairing) (h : IsOnce j i s) where
  unchanged : IsOnce j (suc i) s
  unchanged = record {
    keys = h.keys;
    started = h.started;
    ended = h.ended;
    not_yet_started = λ le. h.not_yet_started (omega arith);
    not_yet_ended = λ le. h.not_yet_ended (omega arith);
  }

  request-IsOnce : IsOnce j (suc i) (note_request i m s)
  unfolding note_request
  request-IsOnce = elim (Option-cases (get Key-discrete (request_key m) s.pending)) [
    | inr (old, there) ↦ rw (there, note_request) unchanged
    | inl absent ↦
        let added : waits j (put Key-discrete (request_key m) (m, i) s.pending)
            ≡ waits j s.pending + hits j (some i) =
          rw (put-append Key-discrete (request_key m) (m, i) s.pending absent)
            (omega (arith, waits-append j s.pending ((request_key m, (m, i)) ∷ []))) in
        rw (absent, note_request)
          (record {
            keys = put-IsDict Key-discrete (request_key m) (m, i) s.pending h.keys;
            started = ground (arith, added, h.started, h.not_yet_started);
            ended = h.ended;
            not_yet_started = λ le. ground (arith, added, h.not_yet_started (omega arith));
            not_yet_ended = λ le. h.not_yet_ended (omega arith);
          })
  ]

  response-IsOnce : (kind : String) → IsOnce j (suc i) (note_response kind i m s)
  unfolding note_response answered
  response-IsOnce kind = elim (Option-cases (get Key-discrete (response_key m) s.pending)) [
    | inl absent ↦ rw (absent, note_response) unchanged
    | inr (v, there) ↦
        let taken = waits-remove j (response_key m) v s.pending h.keys there in
        let start' = starts-append j s.procedures (answered kind v i m ∷ []) in
        let end' = ends-append j s.procedures (answered kind v i m ∷ []) in
        rw (there, note_response)
          (record {
            keys = remove-IsDict Key-discrete (response_key m) s.pending h.keys;
            started = omega (arith, taken, start', h.started);
            ended = ground (arith, end', h.ended, h.not_yet_ended);
            not_yet_started = λ le. omega (arith, taken, start', h.not_yet_started (omega arith));
            not_yet_ended = λ le. ground (arith, end', h.not_yet_ended (omega arith));
          })
  ]

  step-IsOnce : IsOnce j (suc i) (step i m s)
  unfolding step act
  step-IsOnce = elim (Role-cases (role m)) [
    | inl r ↦ rw (r, act) unchanged
    | inr (inl r) ↦ rw (r, act) request-IsOnce
    | inr (inr (kind, r)) ↦ rw (r, act) (response-IsOnce kind)
  ]

scan-IsOnce :
    (j i : ℕ) (ms : List PfcpMsg) (s : Pairing) → IsOnce j i s → (n : ℕ) × IsOnce j n (scan i ms s)
unfolding scan
scan-IsOnce j i [] s h = (i, h)
scan-IsOnce j i (m ∷ ms) s h = scan-IsOnce j (suc i) ms (step i m s) (step-IsOnce j i m s h)

-- Whatever the capture, each of its messages starts at most one of the procedures that are
-- returned, and ends at most one.
pub pair_procedures_once :
    (msgs : List PfcpMsg) (j : ℕ)
    → (starts j (pair_procedures msgs).0 ≤ 1) × (ends j (pair_procedures msgs).0 ≤ 1)
unfolding pair_procedures
pair_procedures_once msgs j =
    let s = scan 0 msgs start in
    let h =
      (scan-IsOnce j 0 msgs start (record {
        keys = tt;
        started = omega arith;
        ended = omega arith;
        not_yet_started = λ le. refl;
        not_yet_ended = λ le. refl;
      })).1 in
    let late = map timed_out (values s.pending) in
    (
      omega (
        arith,
        h.started,
        starts-sort_by j (λ p. p.start_ts) (s.procedures ++ late),
        starts-append j s.procedures late,
        starts-timeouts j s.pending,
      ),
      omega (
        arith,
        h.ended,
        ends-sort_by j (λ p. p.start_ts) (s.procedures ++ late),
        ends-append j s.procedures late,
        ends-timeouts j s.pending,
      ),
    )
