-- ===== src/Analyzer/Pfcp/Pairing/Sound.antt =====
-- Every procedure of `pair_procedures` (5gcap/fivegcap/pfcp.py) is explained by its messages.
use g_pcap.Prelude.{
  ℕ, suc, ◌+◌, ◌<◌, String, ◌≡◌, ◌≢◌, refl, some, List, [], ◌∷◌, map, arith, get_elem?, All,
  All-append, All-imp, StandsAt, StandsAt-head, StandsAt-tail, StandsAt-start, Option-cases,
  lt-length, inl, inr, sym, ◌⊎◌, length, ◌∙◌, dec_lt,
}
use g_pcap.Prelude.Dict.{Dict, get, values, All-remove, All-absent, All-get, put-append}
use g_pcap.Prelude.Sort.{All-sort_by}
use g_pcap.Analyzer.Pfcp.{PfcpMsg, N4Procedure}
use g_pcap.Analyzer.Pfcp.Pairing.{
  Key, Key-discrete, request_key, response_key, Pairing, answered, timed_out, note_request,
  note_response, Role, ignored, request, response, role, act, step, scan, start, pair_procedures,
}

-- No readable response with the key stands between position `j` and position `i`.
abbrev pub IsUnanswered : List PfcpMsg → Key → ℕ → ℕ → Type 0
IsUnanswered msgs k j i =
    (n : ℕ) (m : PfcpMsg) (kind : String)
    → j < n
    → n < i
    → get_elem? msgs n ≡ some m
    → role m ≡ response kind
    → response_key m ≢ k

-- A procedure has a request of the capture, and either the response that came later with the
-- request's key, or no such response in the rest of the capture.
pub data IsExplained (msgs : List PfcpMsg) (p : N4Procedure) : Type 0 where
  by_response :
      (i j : ℕ) (req rsp : PfcpMsg) (kind : String)
      → i < j
      → get_elem? msgs i ≡ some req
      → get_elem? msgs j ≡ some rsp
      → role req ≡ request
      → role rsp ≡ response kind
      → request_key req ≡ response_key rsp
      → IsUnanswered msgs (request_key req) i j
      → p ≡ answered kind (req, i) j rsp
      → IsExplained msgs p
  by_timeout :
      (i : ℕ) (req : PfcpMsg)
      → get_elem? msgs i ≡ some req
      → role req ≡ request
      → ((n : ℕ) → IsUnanswered msgs (request_key req) i n)
      → p ≡ timed_out (req, i)
      → IsExplained msgs p

pub record IsPending (msgs : List PfcpMsg) (i : ℕ) (e : Key × (PfcpMsg × ℕ)) : Type 0 where
  pub found : get_elem? msgs e.1.1 ≡ some e.1.0
  pub is_request : role e.1.0 ≡ request
  pub same_key : request_key e.1.0 ≡ e.0
  pub earlier : e.1.1 < i
  pub unanswered : IsUnanswered msgs e.0 e.1.1 i

pub record IsSound (msgs : List PfcpMsg) (i : ℕ) (s : Pairing) : Type 0 where
  pub pending : All (IsPending msgs i) s.pending
  pub procedures : All (IsExplained msgs) s.procedures

pub Role-cases :
    (ρ : Role) → (ρ ≡ ignored) ⊎ ((ρ ≡ request) ⊎ ((kind : String) × (ρ ≡ response kind)))
Role-cases ignored = inl refl
Role-cases request = inr (inl refl)
Role-cases (response kind) = inr (inr (kind, refl))

module _ (msgs : List PfcpMsg) (i : ℕ) (m : PfcpMsg) (here : get_elem? msgs i ≡ some m) where
  -- One more message that does not answer the key.
  IsUnanswered-suc :
      (k : Key) (j : ℕ)
      → ((kind : String) → role m ≡ response kind → response_key m ≢ k)
      → IsUnanswered msgs k j i
      → IsUnanswered msgs k j (suc i)
  IsUnanswered-suc k j other h n m' kind lo hi e r = elim (dec_lt n i) [
    | yes p ↦ h n m' kind lo p e r
    | no p ↦
        let same : n ≡ i = omega arith in
        let same_msg : m' ≡ m = cc in rw same_msg (other kind (cc))
  ]

  IsPending-suc :
      (e : Key × (PfcpMsg × ℕ))
      → ((kind : String) → role m ≡ response kind → response_key m ≢ e.0)
      → IsPending msgs i e
      → IsPending msgs (suc i) e
  IsPending-suc e other h = record {
    found = h.found;
    is_request = h.is_request;
    same_key = h.same_key;
    earlier = omega arith;
    unanswered = IsUnanswered-suc e.0 e.1.1 other h.unanswered;
  }

  ignored-IsSound : (s : Pairing) → role m ≡ ignored → IsSound msgs i s → IsSound msgs (suc i) s
  ignored-IsSound s r h = record {
    pending = All-imp s.pending (λ e. IsPending-suc e (λ kind r'. cc)) h.pending;
    procedures = h.procedures;
  }

  request-IsSound :
      (s : Pairing)
      → role m ≡ request
      → IsSound msgs i s
      → IsSound msgs (suc i) (note_request i m s)
  unfolding note_request
  request-IsSound s r h = elim (Option-cases (get Key-discrete (request_key m) s.pending)) [
    | inl absent ↦
        rw (absent, note_request)
          (record {
            pending = rw put-append (
                All-append (IsPending msgs (suc i)) s.pending _ still (
                  record {
                    found = here;
                    is_request = r;
                    same_key = refl;
                    earlier = omega arith;
                    unanswered = λ n m' kind lo hi. absurd (omega arith);
                  },
                  tt,
                ));
            procedures = h.procedures;
          })
    | inr (old, there) ↦
        rw (there, note_request) (record { pending = still; procedures = h.procedures })
  ]
    where
      still : All (IsPending msgs (suc i)) s.pending
      still = All-imp s.pending (λ e. IsPending-suc e (λ kind r'. cc)) h.pending

  response-IsSound :
      (s : Pairing) (kind : String)
      → role m ≡ response kind
      → IsSound msgs i s
      → IsSound msgs (suc i) (note_response kind i m s)
  unfolding note_response
  response-IsSound s kind r h = elim (Option-cases (get Key-discrete (response_key m) s.pending)) [
    | inl absent ↦
        rw (absent, note_response)
          (record {
            pending =
                All-absent Key-discrete (IsPending msgs i) (IsPending msgs (suc i)) (response_key m)
                  s.pending absent still h.pending;
            procedures = h.procedures;
          })
    | inr ((req, j), there) ↦
        let p : IsPending msgs i (response_key m, (req, j)) =
          All-get Key-discrete (IsPending msgs i) (response_key m) (req, j) s.pending h.pending
            there in
        rw (there, note_response)
          (record {
            pending =
                All-remove Key-discrete (IsPending msgs i) (IsPending msgs (suc i)) (response_key m)
                  s.pending still h.pending;
            procedures = All-append (IsExplained msgs) s.procedures _ h.procedures (
              by_response j i req m kind p.earlier p.found here p.is_request r p.same_key
                  (rw p.same_key p.unanswered) refl,
              tt,
            );
          })
  ]
    where
      still :
          (k : Key) (v : PfcpMsg × ℕ)
          → k ≢ response_key m
          → IsPending msgs i (k, v)
          → IsPending msgs (suc i) (k, v)
      still k v other = IsPending-suc (k, v) (λ kind' r' e. other (sym e))

  pub step-IsSound : (s : Pairing) → IsSound msgs i s → IsSound msgs (suc i) (step i m s)
  unfolding step act
  step-IsSound s h = elim (Role-cases (role m)) [
    | inl r ↦ rw (r, act) (ignored-IsSound s r h)
    | inr (inl r) ↦ rw (r, act) (request-IsSound s r h)
    | inr (inr (kind, r)) ↦ rw (r, act) (response-IsSound s kind r h)
  ]

module _ (msgs : List PfcpMsg) where
  scan-IsSound :
      (rest : List PfcpMsg) (i n : ℕ) (s : Pairing)
      → StandsAt msgs i rest
      → n ≡ i + length rest
      → IsSound msgs i s
      → IsSound msgs n (scan i rest s)
  unfolding scan
  scan-IsSound [] i n s at e h = let same : n ≡ i = omega arith in rw same h
  scan-IsSound (m ∷ rest) i n s at e h =
      scan-IsSound rest (suc i) n (step i m s) (StandsAt-tail msgs i m rest at) (omega arith)
        (step-IsSound msgs i m (StandsAt-head msgs i m rest at) s h)

  pub all_scanned : IsSound msgs (length msgs) (scan 0 msgs start)
  all_scanned =
      scan-IsSound msgs 0 (length msgs) start (StandsAt-start msgs) (omega arith)
        (record { pending = tt; procedures = tt })

  timed_out-IsExplained :
      (e : Key × (PfcpMsg × ℕ)) → IsPending msgs (length msgs) e → IsExplained msgs (timed_out e.1)
  timed_out-IsExplained e h =
      by_timeout e.1.1 e.1.0 h.found h.is_request
        (λ n n' m kind lo hi found r same.
          h.unanswered n' m kind lo (lt-length msgs n' m found) found r (same ∙ h.same_key))
        refl

  timeouts-IsExplained :
      (d : Dict Key (PfcpMsg × ℕ))
      → All (IsPending msgs (length msgs)) d
      → All (IsExplained msgs) (map timed_out (values d))
  timeouts-IsExplained [] h = tt
  timeouts-IsExplained (e ∷ d) h = (timed_out-IsExplained e h.0, timeouts-IsExplained d h.1)

  -- Every procedure that is returned has its request in the capture, and either the first
  -- response after that request to carry its key, from which the procedure's end, outcome and
  -- cause are taken, or, as a timeout, no such response anywhere later in the capture.
  pub pair_procedures-IsExplained : All (IsExplained msgs) (pair_procedures msgs).0
  unfolding pair_procedures
  pair_procedures-IsExplained =
      All-sort_by (λ p. p.start_ts) (IsExplained msgs) _
        (All-append (IsExplained msgs) (scan 0 msgs start).procedures _ all_scanned.procedures
          (timeouts-IsExplained (scan 0 msgs start).pending all_scanned.pending))
