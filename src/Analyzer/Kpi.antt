-- ===== src/Analyzer/Kpi.antt =====
-- 5gcap/fivegcap/kpi.py: `compute`. A latency is a difference of times, in microseconds.
pub mod Closed
use g_pcap.Prelude.{
  ℕ, suc, Bool, true, false, if◌then◌else◌, Option, none, some, List, [], ◌∷◌, ◌++◌,
}
use g_pcap.Prelude.Integers.{ℤ, minus}
use g_pcap.Analyzer.Flow.{
  Flow, Procedure, Kind, registration, pdu_session_est, Outcome, open_ended, accept, reject,
}

pub record KpiResult : Type 0 where
  pub attach_times : List ℤ
  pub pdu_session_times : List ℤ
  pub successes : ℕ
  pub failures : ℕ

abbrev pub no_result : KpiResult
no_result = record { attach_times = []; pdu_session_times = []; successes = 0; failures = 0 }

abbrev pub append_time : Kind → ℤ → KpiResult → KpiResult
append_time registration t r = record r { attach_times = r.attach_times ++ t ∷ [] }
append_time pdu_session_est t r = record r { pdu_session_times = r.pdu_session_times ++ t ∷ [] }

-- One procedure's latency; the subtraction raises if the procedure has not ended.
unfoldable pub add_latency : Procedure → KpiResult → Option KpiResult
unfolding minus
add_latency p r = elim p.end_ts [
  | none ↦ none
  | some t ↦ some (append_time p.kind (minus t p.start_ts) r)
]

unfoldable pub add_latencies : List Procedure → KpiResult → Option KpiResult
unfolding add_latency
add_latencies [] r = some r
add_latencies (p ∷ ps) r = elim (add_latency p r) [ none ↦ none | some r' ↦ add_latencies ps r' ]

-- Latencies of complete flows only.
unfoldable pub add_flow : Flow → KpiResult → Option KpiResult
unfolding add_latencies
add_flow f r = if f.partial then some r else add_latencies f.procedures r

-- The first loop.
unfoldable pub add_flows : List Flow → KpiResult → Option KpiResult
unfolding add_flow
add_flows [] r = some r
add_flows (f ∷ fs) r = elim (add_flow f r) [ none ↦ none | some r' ↦ add_flows fs r' ]

abbrev pub count_outcome : Outcome → KpiResult → KpiResult
count_outcome open_ended r = r
count_outcome accept r = record r { successes = suc r.successes }
count_outcome reject r = record r { failures = suc r.failures }

unfoldable pub count_procedures : List Procedure → KpiResult → KpiResult
count_procedures [] r = r
count_procedures (p ∷ ps) r = count_procedures ps (count_outcome p.outcome r)

-- The second loop: every flow.
unfoldable pub count_flows : List Flow → KpiResult → KpiResult
unfolding count_procedures
count_flows [] r = r
count_flows (f ∷ fs) r = count_flows fs (count_procedures f.procedures r)

unfoldable pub compute : List Flow → Option KpiResult
unfolding add_flows count_flows
compute flows = elim (add_flows flows no_result) [
  | none ↦ none
  | some r ↦ some (count_flows flows r)
]
