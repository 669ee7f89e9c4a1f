-- ===== src/Analyzer/Kpi/Closed.antt =====
-- The KPIs of the flows that `build_flows` returns (5gcap/fivegcap/kpi.py and flow.py).
use g_pcap.Prelude.{
  ℕ, suc, ◌+◌, String, Bool, true, false, if◌then◌else◌, ◌≡◌, ◌≢◌, refl, ap, ◌∙◌, Option, some,
  List, [], ◌∷◌, ◌++◌, arith, length, All, inl, inr,
}
use g_pcap.Prelude.Integers.{ℤ, minus}
use g_pcap.Analyzer.Nas.{NasLibrary}
use g_pcap.Analyzer.Ngap.{NgapMsg}
use g_pcap.Analyzer.Flow.{
  Flow, Procedure, Kind, registration, pdu_session_est, Outcome, open_ended, accept, reject, Signal,
  ends_kind, nas_signal, ngap_signal, build_flows,
}
use g_pcap.Analyzer.Flow.Handled.{IsMatched, IsClosed}
use g_pcap.Analyzer.Flow.Closed.{build_flows-IsClosed}
use g_pcap.Analyzer.Kpi.{
  KpiResult, no_result, append_time, add_latency, add_latencies, add_flow, add_flows, count_outcome,
  count_procedures, count_flows, compute,
}

-- How many procedures the flows have, and how many of these stand in complete flows.
pub procedure_count : List Flow → ℕ
procedure_count [] = 0
procedure_count (f ∷ fs) = length f.procedures + procedure_count fs

pub complete_count : List Flow → ℕ
complete_count [] = 0
complete_count (f ∷ fs) = (if f.partial then 0 else length f.procedures) + complete_count fs

-- The procedure has ended, with an outcome.
record IsEnded (p : Procedure) : Type 0 where
  ts : ℕ
  at : p.end_ts ≡ some ts
  ended : p.outcome ≢ open_ended

nas_signal-ended : (n : String) (k : Kind) → nas_signal n ≢ ends_kind k open_ended
unfolding nas_signal
nas_signal-ended n k = λ e. ground arith

ngap_signal-ended : (n : String) (k : Kind) → ngap_signal n ≢ ends_kind k open_ended
unfolding ngap_signal
ngap_signal-ended n k = λ e. ground arith

matched-IsEnded :
    (signal : String → Signal) (p : Procedure)
    → ((n : String) (k : Kind) → signal n ≢ ends_kind k open_ended)
    → IsMatched signal p
    → IsEnded p
matched-IsEnded signal p never h = record {
  ts = h.ts;
  at = h.end_time;
  ended = λ e. never h.msg p.kind (h.ends ∙ ap (ends_kind p.kind) e);
}

closed-IsEnded : (p : Procedure) → IsClosed p → IsEnded p
closed-IsEnded p (inl h) = matched-IsEnded nas_signal p nas_signal-ended h
closed-IsEnded p (inr h) = matched-IsEnded ngap_signal p ngap_signal-ended h

abbrev times : KpiResult → ℕ
times r = length r.attach_times + length r.pdu_session_times

abbrev outcomes : KpiResult → ℕ
outcomes r = r.successes + r.failures

length-snoc : {A : Type 0} (x : A) (xs : List A) → length (xs ++ x ∷ []) ≡ suc (length xs)
length-snoc x [] = refl
length-snoc x (y ∷ ys) = ap suc (length-snoc x ys)

-- The result is there, it has `n` latencies more, and no other outcomes.
abbrev HasTimes : KpiResult → ℕ → Option KpiResult → Type 0
HasTimes r n o =
    (r' : KpiResult) × (o ≡ some r') × (times r' ≡ times r + n) × (outcomes r' ≡ outcomes r)

append_time-times : (k : Kind) (t : ℤ) (r : KpiResult) → times (append_time k t r) ≡ suc (times r)
append_time-times registration t r = omega (arith, length-snoc t r.attach_times)
append_time-times pdu_session_est t r = omega (arith, length-snoc t r.pdu_session_times)

append_time-outcomes :
    (k : Kind) (t : ℤ) (r : KpiResult) → outcomes (append_time k t r) ≡ outcomes r
append_time-outcomes registration t r = refl
append_time-outcomes pdu_session_est t r = refl

add_latencies-HasTimes :
    (ps : List Procedure) (r : KpiResult)
    → All IsClosed ps
    → HasTimes r (length ps) (add_latencies ps r)
unfolding add_latencies add_latency
add_latencies-HasTimes [] r h = (r, refl, omega arith, refl)
add_latencies-HasTimes (p ∷ ps) r h =
    let e = closed-IsEnded p h.0 in
    let t = minus e.ts p.start_ts in
    let (r', q, ts, os) = add_latencies-HasTimes ps (append_time p.kind t r) h.1 in
    rw e.at
      (r', q, omega (arith, append_time-times p.kind t r), os ∙ append_time-outcomes p.kind t r)

skip-HasTimes :
    (b : Bool) (r : KpiResult) (n : ℕ) (o : Option KpiResult)
    → HasTimes r n o
    → HasTimes r (if b then 0 else n) (if b then some r else o)
skip-HasTimes true r n o h = (r, refl, omega arith, refl)
skip-HasTimes false r n o h = h

add_flow-HasTimes :
    (f : Flow) (r : KpiResult)
    → All IsClosed f.procedures
    → HasTimes r (if f.partial then 0 else length f.procedures) (add_flow f r)
unfolding add_flow
add_flow-HasTimes f r h =
    skip-HasTimes f.partial r (length f.procedures) (add_latencies f.procedures r)
      (add_latencies-HasTimes f.procedures r h)

add_flows-cons :
    (f : Flow) (fs : List Flow) (r r1 : KpiResult)
    → add_flow f r ≡ some r1
    → add_flows (f ∷ fs) r ≡ add_flows fs r1
unfolding add_flows
add_flows-cons f fs r r1 e = rw (add_flows, e) refl

add_flows-HasTimes :
    (fs : List Flow) (r : KpiResult)
    → All (λ f. All IsClosed f.procedures) fs
    → HasTimes r (complete_count fs) (add_flows fs r)
unfolding add_flows complete_count
add_flows-HasTimes [] r h = (r, refl, omega arith, refl)
add_flows-HasTimes (f ∷ fs) r h =
    let (r1, q1, t1, o1) = add_flow-HasTimes f r h.0 in
    let (r2, q2, t2, o2) = add_flows-HasTimes fs r1 h.1 in
    (r2, add_flows-cons f fs r r1 q1 ∙ q2, omega arith, o2 ∙ o1)

count_outcome-outcomes :
    (o : Outcome) (r : KpiResult) → o ≢ open_ended → outcomes (count_outcome o r) ≡ suc (outcomes r)
count_outcome-outcomes open_ended r h = absurd (h refl)
count_outcome-outcomes accept r h = omega arith
count_outcome-outcomes reject r h = omega arith

count_outcome-times : (o : Outcome) (r : KpiResult) → times (count_outcome o r) ≡ times r
count_outcome-times open_ended r = refl
count_outcome-times accept r = refl
count_outcome-times reject r = refl

count_procedures-outcomes :
    (ps : List Procedure) (r : KpiResult)
    → All IsClosed ps
    → (outcomes (count_procedures ps r) ≡ outcomes r + length ps)
      × (times (count_procedures ps r) ≡ times r)
unfolding count_procedures
count_procedures-outcomes [] r h = (omega arith, refl)
count_procedures-outcomes (p ∷ ps) r h =
    let (os, ts) = count_procedures-outcomes ps (count_outcome p.outcome r) h.1 in
    let one = count_outcome-outcomes p.outcome r (closed-IsEnded p h.0).ended in
    (omega arith, ts ∙ count_outcome-times p.outcome r)

count_flows-outcomes :
    (fs : List Flow) (r : KpiResult)
    → All (λ f. All IsClosed f.procedures) fs
    → (outcomes (count_flows fs r) ≡ outcomes r + procedure_count fs)
      × (times (count_flows fs r) ≡ times r)
unfolding count_flows procedure_count
count_flows-outcomes [] r h = (omega arith, refl)
count_flows-outcomes (f ∷ fs) r h =
    let (o1, t1) = count_procedures-outcomes f.procedures r h.0 in
    let (o2, t2) = count_flows-outcomes fs (count_procedures f.procedures r) h.1 in
    (omega arith, t2 ∙ t1)

compute-some :
    (fs : List Flow) (r : KpiResult)
    → add_flows fs no_result ≡ some r
    → compute fs ≡ some (count_flows fs r)
unfolding compute
compute-some fs r e = rw (compute, e) refl

-- The KPIs can be computed from whatever flows `build_flows` returns, since each procedure has
-- ended: every procedure counts as a success or as a failure, and there is one latency for each
-- procedure of the flows that are not partial.
pub compute-build_flows :
    (py : NasLibrary) (msgs : List NgapMsg)
    → (r : KpiResult) × (compute (build_flows py msgs).0 ≡ some r)
      × (r.successes + r.failures ≡ procedure_count (build_flows py msgs).0)
      × (length r.attach_times + length r.pdu_session_times
          ≡ complete_count (build_flows py msgs).0)
compute-build_flows py msgs =
    let fs = (build_flows py msgs).0 in
    let closed = build_flows-IsClosed py msgs in
    let (r, q, ts, os) = add_flows-HasTimes fs no_result closed in
    let (o, t) = count_flows-outcomes fs r closed in
    (count_flows fs r, compute-some fs r q, o ∙ (omega arith), t ∙ (omega arith))
