-- ===== src/Analyzer/Sbi/Pairing/Count.antt =====
-- The count of unpaired requests (5gcap/fivegcap/sbi.py, `pair_procedures`).
use g_pcap.Prelude.{
  ℕ, ◌+◌, Bool, true, false, ap, ◌≡◌, refl, sym, ◌∙◌, Option, none, some, List, [], ◌∷◌, ◌++◌,
  arith, ℕ_discrete, length, keep, keep-append,
}
use g_pcap.Prelude.Dict.{Dict, get}
use g_pcap.Prelude.Sort.{length-keep-sort_by}
use g_pcap.Analyzer.Sbi.{SbiMsg}
use g_pcap.Analyzer.Sbi.Pairing.{
  Outcome, accept, reject, timeout, SbiProcedure, Bucket, timed_out, outcome_of, answered, Paired,
  pair_one, pair_streams, pair_conns, sort_all, pair_procedures,
}

abbrev is_timeout_outcome : Outcome → Bool
is_timeout_outcome timeout = true
is_timeout_outcome accept = false
is_timeout_outcome reject = false

abbrev pub timeouts : List SbiProcedure → ℕ
timeouts ps = length (keep (λ p. is_timeout_outcome p.outcome) ps)

length-append : {A : Type 0} (xs ys : List A) → length (xs ++ ys) ≡ length xs + length ys
length-append [] ys = omega arith
length-append (x ∷ xs) ys = omega (arith, length-append xs ys)

timeouts-append : (ps qs : List SbiProcedure) → timeouts (ps ++ qs) ≡ timeouts ps + timeouts qs
timeouts-append ps qs =
    ap length (keep-append (λ p. is_timeout_outcome p.outcome) ps qs) ∙ length-append _ _

answered-timeouts : (req rsp : SbiMsg) → timeouts (answered req rsp ∷ []) ≡ 0
unfolding answered outcome_of
answered-timeouts req rsp = ground arith

timed_out-timeouts : (req : SbiMsg) → timeouts (timed_out req ∷ []) ≡ 1
unfolding timed_out
timed_out-timeouts req = refl

abbrev IsCounted : Paired → Type 0
IsCounted s = s.1 ≡ timeouts s.0

pair_one-IsCounted :
    (req : SbiMsg) (o : Option SbiMsg) (s : Paired) → IsCounted s → IsCounted (pair_one req o s)
unfolding pair_one
pair_one-IsCounted req none s h =
    omega (arith, timeouts-append s.0 (timed_out req ∷ []), timed_out-timeouts req)
pair_one-IsCounted req (some rsp) s h =
    omega (arith, timeouts-append s.0 (answered req rsp ∷ []), answered-timeouts req rsp)

pair_streams-IsCounted :
    (rsps reqs : Dict ℕ SbiMsg) (s : Paired) → IsCounted s → IsCounted (pair_streams rsps reqs s)
unfolding pair_streams
pair_streams-IsCounted rsps [] s h = h
pair_streams-IsCounted rsps ((sid, req) ∷ rest) s h =
    pair_streams-IsCounted rsps rest _ (pair_one-IsCounted req (get ℕ_discrete sid rsps) s h)

pair_conns-IsCounted :
    (rsps reqs : Bucket) (s : Paired) → IsCounted s → IsCounted (pair_conns rsps reqs s)
unfolding pair_conns
pair_conns-IsCounted rsps [] s h = h
pair_conns-IsCounted rsps ((c, streams) ∷ rest) s h =
    pair_conns-IsCounted rsps rest _ (pair_streams-IsCounted _ streams s h)

-- The number of unpaired requests that is returned is the number of timeouts among the procedures
-- that are returned with it.
pub pair_procedures-timeouts :
    (msgs : List SbiMsg) → (pair_procedures msgs).1 ≡ timeouts (pair_procedures msgs).0
unfolding pair_procedures
pair_procedures-timeouts msgs =
    let b = sort_all msgs (record { reqs = []; rsps = [] }) in
    pair_conns-IsCounted b.rsps b.reqs ([], 0) refl
    ∙ sym (length-keep-sort_by (λ p. p.start_ts) (λ p. is_timeout_outcome p.outcome) _)
