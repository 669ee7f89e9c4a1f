-- ===== src/Dispatch/RootCause/Grounded.antt =====
-- An explanation cites the inventory (dispatch/dispatch/root_cause.py, with triage's search).
use package.text.Mathlib.Text.{◌==◌ as str_eq}
use g_pcap.Prelude.{
  ℕ, ◌<◌, String, true, false, ◌≡◌, refl, ap, subst, if◌then◌else◌, if_cases, length, Option, none,
  some, List, [], ◌∷◌, inl, inr, Bool-cases, Option-cases, All, arith,
}
use g_pcap.Prelude.Chars.{is_empty_text}
use g_pcap.Prelude.Dict.{get}
use g_pcap.Prelude.Text.{String-discrete}
use g_pcap.Dispatch.Json.{
  Json, null, flag, number, text, day, list, dict, Items, elements, Members, lookup, as_text,
  as_dict, as_list,
}
use g_pcap.Dispatch.Executor.{Sandbox}
use g_pcap.Dispatch.Record.{EvidenceItem}
use g_pcap.Dispatch.Correlation.{Link}
use g_pcap.Dispatch.RootCause.{
  Reading, Hypothesis, inspect_observation, citation_of, cites, citations_of, kept_claims, if_any,
  ground_fields, grounded_episode, items_of, as_json, finalize, unknown_tool, run_tool,
  execute_action, dispatch_steps, narrative_of, conclude_search,
}
use g_pcap.Triage.Search.Action.{parse_action}
use g_pcap.Triage.Search.Node.{Floats}
use g_pcap.Triage.Search.Rollout.{Steps, Settings}
use g_pcap.Triage.Search.Run.{SearchResult, run}
use g_pcap.Triage.Search.Run.Results.{run-Came}

module _ (items : List EvidenceItem) where
  -- The claim cites an item of the inventory by its citation.
  abbrev pub IsCited : Json → Type 0
  IsCited claim = cites (citations_of items) (citation_of claim) ≡ true

  -- A narrative that is not empty, with one claim at least, and only claims that cite the inventory.
  pub record IsGrounded (h : Hypothesis) : Type 0 where
    pub told : is_empty_text h.narrative ≡ false
    pub some_claim : 0 < length h.cited_evidence
    pub cited : All IsCited h.cited_evidence

  kept-All : (cs : List Json) → All IsCited (kept_claims items cs)
  kept-All [] = tt
  kept-All (c ∷ cs) =
      let rest = kept-All cs in
      elim (Bool-cases (cites (citations_of items) (citation_of c))) [
        | inl e ↦ rw e (e, rest)
        | inr e ↦ rw e rest
      ]

  if_any-IsGrounded :
      (narrative : String) (cs : List Json) (h : Hypothesis)
      → is_empty_text narrative ≡ false
      → All IsCited cs
      → if_any narrative cs ≡ some h
      → IsGrounded h
  if_any-IsGrounded narrative [] h n all e = cc
  if_any-IsGrounded narrative (c ∷ cs) h n all e =
      let same : record { narrative = narrative; cited_evidence = c ∷ cs } ≡ h = cc in
      subst IsGrounded same (record { told = n; some_claim = omega arith; cited = all })

  ground_fields-IsGrounded :
      (narrative : Option String) (cited : Option (List Json)) (h : Hypothesis)
      → ground_fields items narrative cited ≡ some h
      → IsGrounded h
  unfolding ground_fields
  ground_fields-IsGrounded none cited h e = cc
  ground_fields-IsGrounded (some n) none h e = cc
  ground_fields-IsGrounded (some n) (some cs) h e =
      if_cases (λ o. o ≡ some h → IsGrounded h) (is_empty_text n) none
        (if_any n (kept_claims items cs)) (λ t q. cc)
        (λ f q. if_any-IsGrounded n (kept_claims items cs) h f (kept-All cs) q) e

  grounded_episode-IsGrounded :
      (episode : Json) (h : Hypothesis) → grounded_episode items episode ≡ some h → IsGrounded h
  unfolding grounded_episode
  grounded_episode-IsGrounded (dict ms) h e =
      ground_fields-IsGrounded (as_text (lookup "narrative" (g_pcap.Dispatch.Json.entries ms)))
        (as_list (lookup "cited_evidence" (g_pcap.Dispatch.Json.entries ms))) h e
  grounded_episode-IsGrounded null h e = cc
  grounded_episode-IsGrounded (flag b) h e = cc
  grounded_episode-IsGrounded (number n) h e = cc
  grounded_episode-IsGrounded (text s) h e = cc
  grounded_episode-IsGrounded (day d) h e = cc
  grounded_episode-IsGrounded (list vs) h e = cc

  kept_of_cited : (cs : List Json) → All IsCited cs → kept_claims items cs ≡ cs
  kept_of_cited [] a = refl
  kept_of_cited (c ∷ cs) a = let rest = kept_of_cited cs a.1 in rw a.0 (ap (λ ys. c ∷ ys) rest)

  elements-items_of : (cs : List Json) → elements (items_of cs) ≡ cs
  elements-items_of [] = refl
  elements-items_of (c ∷ cs) = ap (λ ys. c ∷ ys) (elements-items_of cs)

  if_any-some :
      (n : String) (cs : List Json)
      → 0 < length cs
      → if_any n cs ≡ some (record { narrative = n; cited_evidence = cs })
  if_any-some n [] lt = absurd (omega (arith, lt))
  if_any-some n (c ∷ cs) lt = refl

  -- A grounded episode is grounded to itself.
  grounded_episode-as_json :
      (h : Hypothesis) → IsGrounded h → grounded_episode items (as_json h) ≡ some h
  unfolding grounded_episode ground_fields String-discrete get
  grounded_episode-as_json h g =
      rw (g.told, elements-items_of h.cited_evidence, kept_of_cited h.cited_evidence g.cited)
        (if_any-some h.narrative h.cited_evidence g.some_claim)

  finalize-IsGrounded :
      (o : Option Json) (h : Hypothesis) → (finalize items o).1 ≡ some h → IsGrounded h
  unfolding finalize
  finalize-IsGrounded none h e = cc
  finalize-IsGrounded (some episode) h e = elim (Option-cases (grounded_episode items episode)) [
    | inl n ↦ ground (arith, n, e)
    | inr (g, n) ↦
        let same : g ≡ h = ground (arith, n, e) in
        subst IsGrounded same (grounded_episode-IsGrounded episode g n)
  ]

  abbrev FromTool : String × Option Hypothesis → Type 0
  FromTool r = (h : Hypothesis) → r.1 ≡ some h → IsGrounded h

  unknown-FromTool : (a : String) → FromTool (unknown_tool a)
  unfolding unknown_tool
  unknown-FromTool a h e = cc

  run_tool-IsGrounded :
      (sb : Sandbox) (rd : Reading) (links : List (Link Json)) (a : String) (cut : String × String)
      (h : Hypothesis)
      → (run_tool sb rd items links a cut).1 ≡ some h
      → IsGrounded h
  unfolding run_tool
  run_tool-IsGrounded sb rd links a (tool, argument) h =
      if_cases FromTool (str_eq tool "inspect") (inspect_observation sb items links, none)
        (if str_eq tool "finalize" then finalize items (rd.loads argument) else unknown_tool a)
        (λ t. λ g q. cc)
        (λ f.
          if_cases FromTool (str_eq tool "finalize") (finalize items (rd.loads argument))
            (unknown_tool a) (λ t. finalize-IsGrounded (rd.loads argument))
            (λ g. unknown-FromTool a))
        h

  -- Whatever the models propose, an episode that the live search returns cites only items of the
  -- inventory, one at least, and the node that grounds it again keeps its narrative.
  pub run-IsGrounded :
      {R W : Type 0} (fl : Floats R) (models : Steps R Hypothesis W) (cfg : Settings R)
      (sb : Sandbox) (rd : Reading) (links : List (Link Json)) (k : ℕ) (w : W)
      (r : SearchResult R Hypothesis) (h : Hypothesis)
      → (run fl (dispatch_steps sb rd items links models) cfg k w).0 ≡ some r
      → r.episode ≡ some h
      → IsGrounded h × (conclude_search items (some (as_json h)) ≡ h.narrative)
  unfolding dispatch_steps execute_action conclude_search
  run-IsGrounded fl models cfg sb rd links k w r h e q =
      let (a, (w', o, came)) =
        run-Came fl (dispatch_steps sb rd items links models) cfg k w r h e q in
      let g = run_tool-IsGrounded sb rd links a (parse_action rd.lower a) h (ap (λ x. x.1) came) in
      (g, ap narrative_of (grounded_episode-as_json h g))
