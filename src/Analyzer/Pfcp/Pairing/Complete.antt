-- ===== src/Analyzer/Pfcp/Pairing/Complete.antt =====
-- No request is lost by `pair_procedures` (5gcap/fivegcap/pfcp.py).
use mathlib.Core.Logic.{if_pos, if_neg}
use g_pcap.Prelude.{
  ℕ, suc, ◌+◌, ◌≤◌, ◌<◌, String, ◌≡◌, ◌≢◌, refl, ◌∙◌, none, some, List, [], ◌∷◌, ◌++◌, map, arith,
  get_elem?, In, In-append_left, In-append_right, Option-cases, ◌⊎◌, inl, inr, length, lt-length,
  dec_lt, subst, StandsAt, StandsAt-head, StandsAt-tail, StandsAt-start,
}
use g_pcap.Prelude.Dict.{Dict, get, remove, values, get-put, get-remove, All-get}
use g_pcap.Prelude.Sort.{In-sort_by}
use g_pcap.Analyzer.Pfcp.{PfcpMsg, N4Procedure}
use g_pcap.Analyzer.Pfcp.Pairing.{
  Key, Key-discrete, request_key, response_key, Pairing, answered, timed_out, note_request,
  note_response, request, role, act, step, scan, start, pair_procedures,
}
use g_pcap.Analyzer.Pfcp.Pairing.Sound.{Role-cases, IsPending, IsSound, step-IsSound, all_scanned}

-- The procedure starts at message `i`, is not started later than message `j`, and has not ended
-- before it: it ends after message `j`, or never.
pub record IsRunningAt (j i : ℕ) (p : N4Procedure) : Type 0 where
  pub request_at : p.req_index ≡ some i
  pub started : i ≤ j
  pub ends_after : (p.rsp_index ≡ none) ⊎ ((r : ℕ) × (p.rsp_index ≡ some r) × (j < r))

-- The request with key `k` at message `j` is counted: a pending request, or a procedure, that
-- began with a message of the same key is running at message `j`.
data IsCounted (msgs : List PfcpMsg) (j : ℕ) (k : Key) (s : Pairing) : Type 0 where
  waiting :
      (v : PfcpMsg × ℕ) → get Key-discrete k s.pending ≡ some v → v.1 ≤ j → IsCounted msgs j k s
  done :
      (p : N4Procedure) (i : ℕ) (req : PfcpMsg)
      → In p s.procedures
      → IsRunningAt j i p
      → get_elem? msgs i ≡ some req
      → request_key req ≡ k
      → IsCounted msgs j k s

module _ (msgs : List PfcpMsg) (i : ℕ) (m : PfcpMsg) (s : Pairing) (h : IsSound msgs i s) where
  pending_at :
      (k : Key) (v : PfcpMsg × ℕ) → get Key-discrete k s.pending ≡ some v → IsPending msgs i (k, v)
  pending_at k v e = All-get Key-discrete (IsPending msgs i) k v s.pending h.pending e

  -- A request is counted from the step that reads it.
  request-IsCounted : IsCounted msgs i (request_key m) (note_request i m s)
  unfolding note_request
  request-IsCounted = elim (Option-cases (get Key-discrete (request_key m) s.pending)) [
    | inl absent ↦
        rw (absent, note_request)
          (waiting (m, i)
            (get-put Key-discrete (request_key m) (request_key m) (m, i) s.pending
              ∙ if_pos (Key-discrete (request_key m) (request_key m)) refl _ _)
            (omega arith))
    | inr (v, there) ↦
        rw (there, note_request)
          (waiting v there (omega (arith, (pending_at (request_key m) v there).earlier)))
  ]

  module _ (j : ℕ) (k : Key) (past : j < i) where
    request_keeps : IsCounted msgs j k s → IsCounted msgs j k (note_request i m s)
    unfolding note_request
    request_keeps (done p n req there running at same) =
        elim (Option-cases (get Key-discrete (request_key m) s.pending)) [
          | inl e ↦ rw (e, note_request) (done p n req there running at same)
          | inr (old, e) ↦ rw (e, note_request) (done p n req there running at same)
        ]
    request_keeps (waiting v there le) =
        elim (Option-cases (get Key-discrete (request_key m) s.pending)) [
          | inr (old, e) ↦ rw (e, note_request) (waiting v there le)
          | inl e ↦
              let other : request_key m ≢ k = λ same. cc in
              rw (e, note_request)
                (waiting v
                  (get-put Key-discrete (request_key m) k (m, i) s.pending
                    ∙ if_neg (Key-discrete (request_key m) k) other _ _
                    ∙ there)
                  le)
        ]

    response_keeps :
        (kind : String) → IsCounted msgs j k s → IsCounted msgs j k (note_response kind i m s)
    unfolding note_response answered
    response_keeps kind c = elim (Option-cases (get Key-discrete (response_key m) s.pending)) [
      | inl e ↦ rw (e, note_response) c
      | inr (w, e) ↦ rw (e, note_response) (go w e c)
    ]
      where
        left : PfcpMsg × ℕ → Pairing
        left w = record {
          pending = remove Key-discrete (response_key m) s.pending;
          procedures = s.procedures ++ answered kind w i m ∷ [];
        }

        go :
            (w : PfcpMsg × ℕ)
            → get Key-discrete (response_key m) s.pending ≡ some w
            → IsCounted msgs j k s
            → IsCounted msgs j k (left w)
        go w e (done p n req there running at same) =
            done p n req (In-append_left p s.procedures _ there) running at same
        go (w, n) e (waiting v there le) = elim (Key-discrete (response_key m) k) [
          | yes same ↦
              let p = pending_at (response_key m) (w, n) e in
              let here : n ≤ j = ground (arith, le) in
              done (answered kind (w, n) i m) n w (In-append_right _ s.procedures _ (inl refl))
                (record { request_at = refl; started = here; ends_after = inr (i, refl, past) })
                p.found (p.same_key ∙ same)
          | no other ↦
              waiting v
                (get-remove Key-discrete (response_key m) k s.pending
                  ∙ if_neg (Key-discrete (response_key m) k) other _ _
                  ∙ there)
                le
        ]

    step_keeps : IsCounted msgs j k s → IsCounted msgs j k (step i m s)
    unfolding step act
    step_keeps c = elim (Role-cases (role m)) [
      | inl r ↦ rw (r, act) c'
      | inr (inl r) ↦ rw (r, act) (request_keeps c)
      | inr (inr (kind, r)) ↦ rw (r, act) (response_keeps kind c)
    ]
      where
        c' : IsCounted msgs j k s
        c' = c

-- Among the procedures is one that is running at message `j` and began with a message of the same
-- key as `m`.
abbrev pub IsReturned : List PfcpMsg → ℕ → PfcpMsg → List N4Procedure → Type 0
IsReturned msgs j m ps =
    (p : N4Procedure) × (i : ℕ) × (req : PfcpMsg) × In p ps
    × IsRunningAt j i p
    × (get_elem? msgs i ≡ some req)
    × (request_key req ≡ request_key m)

module _ (msgs : List PfcpMsg) (j : ℕ) (m : PfcpMsg) (found : get_elem? msgs j ≡ some m) where
  module _ (asks : role m ≡ request) where
    step_counts :
        (i : ℕ) (x : PfcpMsg) (s : Pairing)
        → get_elem? msgs i ≡ some x
        → IsSound msgs i s
        → (j < i → IsCounted msgs j (request_key m) s)
        → j < suc i
        → IsCounted msgs j (request_key m) (step i x s)
    unfolding step act
    step_counts i x s at h c lt = elim (dec_lt j i) [
      | yes past ↦ step_keeps msgs i x s h j (request_key m) past (c past)
      | no now ↦
          let same : i ≡ j = omega arith in
          let same_msg : x ≡ m = cc in
          let r : role x ≡ request = cc in
          rw (r, act)
            (subst (λ n. IsCounted msgs n (request_key m) (note_request i x s)) same
              (subst (λ y. IsCounted msgs i (request_key y) (note_request i x s)) same_msg
                (request-IsCounted msgs i x s h)))
    ]

    scan_counts :
        (rest : List PfcpMsg) (i : ℕ) (s : Pairing)
        → StandsAt msgs i rest
        → IsSound msgs i s
        → (j < i → IsCounted msgs j (request_key m) s)
        → j < i + length rest
        → IsCounted msgs j (request_key m) (scan i rest s)
    unfolding scan
    scan_counts [] i s at h c lt = c (omega arith)
    scan_counts (x ∷ rest) i s at h c lt =
        let here = StandsAt-head msgs i x rest at in
        scan_counts rest (suc i) (step i x s) (StandsAt-tail msgs i x rest at)
          (step-IsSound msgs i x here s h) (step_counts i x s here h c) (omega arith)

    In-timeouts :
        (k : Key) (v : PfcpMsg × ℕ) (d : Dict Key (PfcpMsg × ℕ))
        → get Key-discrete k d ≡ some v
        → In (timed_out v) (map timed_out (values d))
    unfolding get
    In-timeouts k v [] e = cc
    In-timeouts k v ((i, w) ∷ d) e = elim (Key-discrete i k) [
      | yes same ↦ inl (ground arith)
      | no other ↦ inr (In-timeouts k v d (ground arith))
    ]

    counted-IsReturned :
        (s : Pairing)
        → IsSound msgs (length msgs) s
        → IsCounted msgs j (request_key m) s
        → IsReturned msgs j m (s.procedures ++ map timed_out (values s.pending))
    unfolding timed_out
    counted-IsReturned s h (done p i req there running at same) =
        (p, i, req, In-append_left p s.procedures _ there, running, at, same)
    counted-IsReturned s h (waiting (req, i) there le) =
        let p = pending_at msgs (length msgs) m s h (request_key m) (req, i) there in
        (
          timed_out (req, i),
          i,
          req,
          In-append_right _ s.procedures _ (In-timeouts (request_key m) (req, i) s.pending there),
          record { request_at = refl; started = le; ends_after = inl refl },
          p.found,
          p.same_key,
        )

    -- Every readable request of the capture is counted: some procedure that is returned began
    -- with it, or with an earlier message of the same key (the first send), and did not end
    -- before it.
    pub pair_procedures-IsReturned : IsReturned msgs j m (pair_procedures msgs).0
    unfolding pair_procedures
    pair_procedures-IsReturned =
        let s = scan 0 msgs start in
        let (p, i, req, there, running, at, same) = counted-IsReturned s (all_scanned msgs) (
          scan_counts msgs 0 start (StandsAt-start msgs) (record { pending = tt; procedures = tt })
            (λ lt. absurd (omega arith)) (omega (arith, lt-length msgs j m found))) in
        (p, i, req, In-sort_by (λ q. q.start_ts) p _ there, running, at, same)
