-- ===== src/Analyzer/Ngap/Decode/Sessions.antt =====
-- The sessions' tunnels are among the message's (5gcap/fivegcap/ngap.py, `_tunnels_of` and
-- `_pdu_sessions_of`).
use package.text.Mathlib.Text.{◌==◌ as str_eq}
use g_pcap.Prelude.{
  ℕ, String, ◌≡◌, bind, bind-some, if_cases, Option, none, some, List, [], ◌∷◌, ◌++◌, All,
  All-append, All-append_left, All-append_right, Option-cases, inl, inr, ℕ_discrete,
}
use g_pcap.Prelude.Dict.{Dict, get, put, All-get, All-put}
use g_pcap.Prelude.Sets.{add}
use g_pcap.Analyzer.Value.{
  Val, null, int, bool, bytes, text, list, dict, Vals, nil, cons, Fields, Tunnel, Tunnel-discrete,
}
use g_pcap.Analyzer.Ngap.Decode.{
  NgapLibrary, field_or, Sessions, transfer, transfer_tunnels, request_item, request_tunnels,
  items_of, entry_tunnels, tunnels_of, session_id, or_empty_set, add_all, join_session,
  session_item, session_tunnels, response_counts, pdu_sessions_of,
}

module _ (P : Tunnel → Type 0) where
  All-add :
      (t : Tunnel) (seen : List Tunnel) → P t → All P seen → All P (add Tunnel-discrete t seen)
  unfolding add
  All-add t seen p h =
      if_cases (All P) _ seen (seen ++ t ∷ []) (λ e. h) (λ e. All-append P seen (t ∷ []) h (p, tt))

module _ (py : NgapLibrary) (P : Tunnel → Type 0) where
  -- Each tunnel of each session.
  abbrev pub AllSessions : Sessions py → Type 0
  AllSessions d = All (λ s. All P s.1) d

  add_all-All : (ts seen : List Tunnel) → All P ts → All P seen → All P (add_all py ts seen)
  add_all-All [] seen h g = g
  add_all-All (t ∷ ts) seen h g =
      add_all-All ts (add Tunnel-discrete t seen) h.1 (All-add P t seen h.0 g)

  seen-All :
      (sid : ℕ) (d : Sessions py) → AllSessions d → All P (or_empty_set py (get ℕ_discrete sid d))
  seen-All sid d h = elim (Option-cases (get ℕ_discrete sid d)) [
    | inl e ↦ rw e tt
    | inr (ts, e) ↦ rw e (All-get ℕ_discrete (λ s. All P s.1) sid ts d h e)
  ]

  join_session-All :
      (sid : Option ℕ) (fs : Option Fields) (d d' : Sessions py) (ts : List Tunnel)
      → transfer_tunnels py fs ≡ some ts
      → All P ts
      → AllSessions d
      → join_session py sid fs d ≡ some d'
      → AllSessions d'
  join_session-All none fs d d' ts found all h e = let same : d ≡ d' = cc in rw (← same) h
  join_session-All (some sid) none d d' ts found all h e = let same : d ≡ d' = cc in rw (← same) h
  join_session-All (some sid) (some fs) d d' ts found all h e =
      let (us, read, e1) = bind-some (transfer_tunnels py (some fs)) _ d' e in
      let same : us ≡ ts = cc in
      let joined = add_all py us (or_empty_set py (get ℕ_discrete sid d)) in
      let put_there : put ℕ_discrete sid joined d ≡ d' = cc in
      rw (← put_there) (
        All-put ℕ_discrete (λ s. All P s.1) sid joined d
          (add_all-All us (or_empty_set py (get ℕ_discrete sid d)) (rw same all) (seen-All sid d h))
          h)

  session_item-All :
      (v : Val) (d d' : Sessions py) (ts : List Tunnel)
      → request_item py v ≡ some ts
      → All P ts
      → AllSessions d
      → session_item py v d ≡ some d'
      → AllSessions d'
  session_item-All (dict fs) d d' ts found all h e =
      join_session-All (session_id py fs)
        (transfer py (field_or null "pDUSessionResourceSetupRequestTransfer" fs)) d d' ts found all
        h e
  session_item-All null d d' ts found all h e = let same : d ≡ d' = cc in rw (← same) h
  session_item-All (int n) d d' ts found all h e = let same : d ≡ d' = cc in rw (← same) h
  session_item-All (bool b) d d' ts found all h e = let same : d ≡ d' = cc in rw (← same) h
  session_item-All (bytes bs) d d' ts found all h e = let same : d ≡ d' = cc in rw (← same) h
  session_item-All (text s) d d' ts found all h e = let same : d ≡ d' = cc in rw (← same) h
  session_item-All (list vs) d d' ts found all h e = let same : d ≡ d' = cc in rw (← same) h

  session_tunnels-All :
      (vs : Vals) (d d' : Sessions py) (ts : List Tunnel)
      → request_tunnels py vs ≡ some ts
      → All P ts
      → AllSessions d
      → session_tunnels py vs d ≡ some d'
      → AllSessions d'
  unfolding request_tunnels session_tunnels
  session_tunnels-All nil d d' ts found all h e = let same : d ≡ d' = cc in rw (← same) h
  session_tunnels-All (cons v vs) d d' ts found all h e =
      let (us, found_v, q) = bind-some (request_item py v) _ ts found in
      let (ws, found_vs, r) = bind-some (request_tunnels py vs) _ ts q in
      let joined : us ++ ws ≡ ts = cc in
      let all' : All P (us ++ ws) = rw joined all in
      let (d1, first, rest) = bind-some (session_item py v d) _ d' e in
      session_tunnels-All vs d1 d' ws found_vs (All-append_right P us ws all')
        (session_item-All v d d1 us found_v (All-append_left P us ws all') h first) rest

  -- The sessions of elements whose tunnels all have the property have it too.
  pub pdu_sessions_of-All :
      (ies : Dict String Val) (req : Sessions py) (rsp : Dict ℕ ℕ) (ts : List Tunnel)
      (r : Sessions py × Dict ℕ ℕ)
      → tunnels_of py ies ≡ some ts
      → All P ts
      → AllSessions req
      → pdu_sessions_of py ies req rsp ≡ some r
      → AllSessions r.0
  unfolding tunnels_of pdu_sessions_of
  pdu_sessions_of-All [] req rsp ts r found all h e =
      let same : (req, rsp) ≡ r = cc in rw (← same) h
  pdu_sessions_of-All ((name, v) ∷ ies) req rsp ts r found all h e =
      let (us, found_v, q) = bind-some (entry_tunnels py name v) _ ts found in
      let (ws, found_ies, q') = bind-some (tunnels_of py ies) _ ts q in
      let joined : us ++ ws ≡ ts = cc in
      let all' : All P (us ++ ws) = rw joined all in
      let rest = All-append_right P us ws all' in
      if_cases (λ o. o ≡ some r → AllSessions r.0) (str_eq name "PDUSessionResourceSetupListSUReq")
        (bind (session_tunnels py (items_of py v) req) (λ req'. pdu_sessions_of py ies req' rsp)) _
        (λ is_req e'.
          let (req', first, then') = bind-some (session_tunnels py (items_of py v) req) _ r e' in
          let found_req : request_tunnels py (items_of py v) ≡ some us = rw is_req at found_v in
          pdu_sessions_of-All ies req' rsp ws r found_ies rest
            (session_tunnels-All (items_of py v) req req' us found_req
              (All-append_left P us ws all') h first)
            then')
        (λ other.
          if_cases (λ o. o ≡ some r → AllSessions r.0)
            (str_eq name "PDUSessionResourceSetupListSURes")
            (pdu_sessions_of py ies req (response_counts py (items_of py v) rsp))
            (pdu_sessions_of py ies req rsp)
            (λ is_rsp e'.
              pdu_sessions_of-All ies req (response_counts py (items_of py v) rsp) ws r found_ies
                rest h e')
            (λ none_of e'. pdu_sessions_of-All ies req rsp ws r found_ies rest h e'))
        e
