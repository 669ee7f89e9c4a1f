-- ===== src/Dispatch/Learning/Covered.antt =====
-- When an episode is covered by a committed runbook (dispatch/dispatch/learning.py,
-- `matching_runbook`).
use package.text.Mathlib.TextEquality.{eq_iff}
use g_pcap.Prelude.{
  ℕ, ◌≤◌, ◌<◌, String, true, false, leb, ◌≡◌, refl, subst, length, map, List, [], ◌∷◌, In, inl, inr,
  Bool-cases, arith,
}
use g_pcap.Prelude.Order.{sort_with, take, length-sort_with}
use g_pcap.Dispatch.Executor.{Sandbox}
use g_pcap.Dispatch.Runbook.{
  Runbook, or_text, score, scored, evidence_keys, by_slug, newest_first, highest_first, ranked,
  match_runbooks,
}
use g_pcap.Dispatch.Memory.{Episode}
use g_pcap.Dispatch.Proposal.{is_empty}
use g_pcap.Dispatch.Learning.{symptoms_of, matching_runbook}

-- A runbook of the procedure scores two at least.
score_same :
    (sb : Sandbox) (procedure : String) (keys : List (String × String)) (rb : Runbook)
    → or_text "" rb.procedure ≡ procedure
    → 2 ≤ score sb procedure keys rb
unfolding score
score_same sb procedure keys rb e =
    let same = (eq_iff (or_text "" rb.procedure) procedure).1 e in rw same (omega arith)

scored_some :
    (sb : Sandbox) (procedure : String) (keys : List (String × String)) (rbs : List Runbook)
    (rb : Runbook)
    → In rb rbs
    → or_text "" rb.procedure ≡ procedure
    → 0 < length (scored sb procedure keys rbs)
unfolding scored
scored_some sb procedure keys [] rb m e = absurd m
scored_some sb procedure keys (q ∷ rbs) rb (inl p) e =
    let two =
      score_same sb procedure keys q (subst (λ x. or_text "" x.procedure ≡ procedure) p e) in
    let yes' : leb 2 (score sb procedure keys q) ≡ true = ground (arith, two) in
    rw yes' (omega arith)
scored_some sb procedure keys (q ∷ rbs) rb (inr m) e =
    let rest = scored_some sb procedure keys rbs rb m e in
    elim (Bool-cases (leb 2 (score sb procedure keys q))) [
      | inl h ↦ rw h (omega arith)
      | inr h ↦ rw h rest
    ]

length-ranked : (ps : List (ℕ × Runbook)) → length (ranked ps) ≡ length ps
unfolding ranked
length-ranked ps = omega (
  arith,
  length-sort_with by_slug ps,
  length-sort_with newest_first (sort_with by_slug ps),
  length-sort_with highest_first (sort_with newest_first (sort_with by_slug ps)),
)

taken : (ps : List (ℕ × Runbook)) → 0 < length ps → is_empty (map (λ p. p.1) (take 3 ps)) ≡ false
taken [] lt = absurd (omega (arith, lt))
taken (p ∷ ps) lt = refl

-- An episode is covered by any library that has a runbook of its procedure, where no procedure and
-- the empty text are the same.
pub matching_runbook_same :
    (sb : Sandbox) (rbs : List Runbook) (rb : Runbook) (e : Episode)
    → In rb rbs
    → or_text "" rb.procedure ≡ or_text "" e.procedure
    → matching_runbook sb rbs e ≡ true
unfolding matching_runbook match_runbooks
matching_runbook_same sb rbs rb e m same =
    let p = or_text "" e.procedure in
    let items = symptoms_of e.evidence_keys [] ∷ [] in
    let s = scored sb p (evidence_keys sb items) rbs in
    let some' = scored_some sb p (evidence_keys sb items) rbs rb m same in
    rw (taken (ranked s) (omega (arith, length-ranked s, some'))) refl
