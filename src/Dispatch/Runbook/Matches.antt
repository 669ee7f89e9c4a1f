-- ===== src/Dispatch/Runbook/Matches.antt =====
-- What the match of runbooks gives (dispatch/dispatch/runbook.py, `match_runbooks`).
use g_pcap.Prelude.{
  ℕ, ◌≤◌, String, true, ◌≡◌, refl, leb, Option, List, [], ◌∷◌, map, length, All, All-imp,
  Bool-cases, inl, inr, arith,
}
use g_pcap.Prelude.Order.{
  sort_with, take, All-sort_with, sort_with-IsOrdered, IsOrdered, length-take, All-take,
  take-IsOrdered,
}
use g_pcap.Dispatch.Executor.{Sandbox}
use g_pcap.Dispatch.Runbook.{
  Keys, Runbook, score, scored, evidence_keys, or_text, by_slug, newest_first, highest_first,
  ranked, match_runbooks,
}

module _ (sb : Sandbox) (procedure : String) (keys : List (String × String)) where
  -- A runbook with its own score, which is two at least.
  abbrev pub IsScored : ℕ × Runbook → Type 0
  IsScored p = (p.0 ≡ score sb procedure keys p.1) × (2 ≤ p.0)

  scored-IsScored : (rbs : List Runbook) → All IsScored (scored sb procedure keys rbs)
  unfolding scored
  scored-IsScored [] = tt
  scored-IsScored (rb ∷ rbs) =
      let rest = scored-IsScored rbs in
      elim (Bool-cases (leb 2 (score sb procedure keys rb))) [
        | inl e ↦ rw e ((refl, ground arith), rest)
        | inr e ↦ rw e rest
      ]

  ranked-IsScored : (rbs : List Runbook) → All IsScored (ranked (scored sb procedure keys rbs))
  unfolding ranked
  ranked-IsScored rbs =
      let s = scored sb procedure keys rbs in
      All-sort_with highest_first IsScored (sort_with newest_first (sort_with by_slug s)) (
        All-sort_with newest_first IsScored (sort_with by_slug s)
          (All-sort_with by_slug IsScored s (scored-IsScored rbs)))

ranked-IsOrdered : (ps : List (ℕ × Runbook)) → IsOrdered highest_first (ranked ps)
unfolding ranked
ranked-IsOrdered ps =
    sort_with-IsOrdered highest_first (λ p q e. ground arith) (λ p q r e f. ground arith)
      (sort_with newest_first (sort_with by_slug ps))

abbrev pub Scores : Sandbox → String → List (String × String) → Runbook → Runbook → Type 0
Scores sb procedure keys rb rb' = score sb procedure keys rb' ≤ score sb procedure keys rb

-- Each runbook scores two at least, and no less than those after it.
abbrev pub AreRanked : (Runbook → ℕ) → List Runbook → Type 0
AreRanked f [] = Unit
AreRanked f (rb ∷ rbs) = (2 ≤ f rb) × All (λ rb'. f rb' ≤ f rb) rbs × AreRanked f rbs

All-map :
    (f : Runbook → ℕ) (n : ℕ) (ps : List (ℕ × Runbook))
    → All (λ p. (p.0 ≡ f p.1) × (p.0 ≤ n)) ps
    → All (λ rb. f rb ≤ n) (map (λ p. p.1) ps)
All-map f n [] h = tt
All-map f n (p ∷ ps) h = (omega (arith, h.0.0, h.0.1), All-map f n ps h.1)

both :
    (P Q : ℕ × Runbook → Type 0) (ps : List (ℕ × Runbook))
    → All P ps
    → All Q ps
    → All (λ p. P p × Q p) ps
both P Q [] h g = tt
both P Q (p ∷ ps) h g = ((h.0, g.0), both P Q ps h.1 g.1)

map-AreRanked :
    (f : Runbook → ℕ) (ps : List (ℕ × Runbook))
    → All (λ p. (p.0 ≡ f p.1) × (2 ≤ p.0)) ps
    → IsOrdered highest_first ps
    → AreRanked f (map (λ p. p.1) ps)
map-AreRanked f [] h o = tt
map-AreRanked f (p ∷ ps) h o = (
  omega (arith, h.0.0, h.0.1),
  All-map f (f p.1) ps (
      All-imp ps (λ q x. (x.0.0, ground (arith, h.0.0)))
        (both (λ q. (q.0 ≡ f q.1) × (2 ≤ q.0)) (λ q. highest_first p q ≡ true) ps h.1 o.0)),
  map-AreRanked f ps h.1 o.1,
)

length-map : (ps : List (ℕ × Runbook)) → length (map (λ p. p.1) ps) ≡ length ps
length-map [] = refl
length-map (p ∷ ps) = omega (arith, length-map ps)

-- Whatever the runbooks and the evidence are, at most three runbooks match, each with a score of
-- two or more, and none before one that scores higher.
pub match_runbooks-AreRanked :
    (sb : Sandbox) (rbs : List Runbook) (procedure : Option String) (items : List Keys)
    → (length (match_runbooks sb rbs procedure items) ≤ 3)
      × AreRanked
          (score sb (or_text "" procedure) (evidence_keys sb items))
          (match_runbooks sb rbs procedure items)
unfolding match_runbooks
match_runbooks-AreRanked sb rbs procedure items =
    let p = or_text "" procedure in
    let keys = evidence_keys sb items in
    let r = ranked (scored sb p keys rbs) in
    (
      omega (arith, length-map (take 3 r), length-take 3 r),
      map-AreRanked (score sb p keys) (take 3 r)
          (All-take (IsScored sb p keys) 3 r (ranked-IsScored sb p keys rbs))
          (take-IsOrdered highest_first 3 r (ranked-IsOrdered (scored sb p keys rbs))),
    )
