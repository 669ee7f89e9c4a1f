-- ===== src/Dispatch/RootCause/Told.antt =====
-- What the root cause of an incident says (dispatch/dispatch/root_cause.py, `run_root_cause`).
use g_pcap.Prelude.{
  ℕ, String, true, false, ◌≡◌, ◌↔◌, refl, sym, ap, ◌∙◌, if_cases, Option, none, some, List, [], ◌∷◌,
  inl, inr, In,
}
use g_pcap.Prelude.Chars.{is_empty_text}
use g_pcap.Prelude.Sets.{mem}
use g_pcap.Dispatch.Json.{
  Json, null, flag, number, text, day, list, dict, Members, lookup, as_text, as_list,
}
use g_pcap.Dispatch.Executor.{Sandbox}
use g_pcap.Dispatch.Record.{AlarmEvent, EvidenceItem}
use g_pcap.Dispatch.Memory.{Episode}
use g_pcap.Dispatch.Correlation.{Link}
use g_pcap.Dispatch.RootCause.{
  objective_text, citation_of, cites, citations_of, kept_claims, if_any, ground_fields,
  grounded_episode, seeded, narrative_of, conclude_search, run_root_cause,
}
use g_pcap.Dispatch.RootCause.Grounded.{IsCited}

absurd_text : {P : Type 0} (s : String) → is_empty_text s ≡ false → "" ≡ s → P
absurd_text s full e = let empty : is_empty_text "" ≡ false = ap is_empty_text e ∙ full in cc

none_cited : {P : Type 0} (o : Option String) → cites [] o ≡ true → P
unfolding mem
none_cited none e = cc
none_cited (some c) e = cc

module _ (items : List EvidenceItem) where
  -- The answer of a search is a dict whose narrative is this text and whose evidence, a list, has a
  -- claim that cites the inventory.
  pub record IsTold (answer : Option Json) (s : String) : Type 0 where
    pub members : Members
    pub is_dict : answer ≡ some (dict members)
    pub narrative : lookup "narrative" (g_pcap.Dispatch.Json.entries members) ≡ text s
    pub claims : List Json
    pub is_list :
        as_list (lookup "cited_evidence" (g_pcap.Dispatch.Json.entries members)) ≡ some claims
    pub claim : Json
    pub there : In claim claims
    pub cited : IsCited items claim

  kept-In : (k : Json) (cs : List Json) → In k (kept_claims items cs) → In k cs × IsCited items k
  kept-In k [] h = absurd h
  kept-In k (c ∷ cs) h =
      if_cases (λ ks. In k ks → In k (c ∷ cs) × IsCited items k)
        (cites (citations_of items) (citation_of c)) (c ∷ kept_claims items cs)
        (kept_claims items cs)
        (λ e m. elim m [
          | inl same ↦ (inl same, ap (λ x. cites (citations_of items) (citation_of x)) same ∙ e)
          | inr rest ↦ let (i, g) = kept-In k cs rest in (inr i, g)
        ])
        (λ e rest. let (i, g) = kept-In k cs rest in (inr i, g)) h

  In-kept : (k : Json) (cs : List Json) → In k cs → IsCited items k → In k (kept_claims items cs)
  In-kept k [] m g = absurd m
  In-kept k (c ∷ cs) (inl same) g =
      let e : cites (citations_of items) (citation_of c) ≡ true =
        ap (λ x. cites (citations_of items) (citation_of x)) (sym same) ∙ g in
      rw e (inl same)
  In-kept k (c ∷ cs) (inr m) g =
      if_cases (In k) (cites (citations_of items) (citation_of c)) (c ∷ kept_claims items cs)
        (kept_claims items cs) (λ e. inr (In-kept k cs m g)) (λ e. In-kept k cs m g)

  if_any-first :
      (n s : String) (ks : List Json)
      → is_empty_text s ≡ false
      → narrative_of (if_any n ks) ≡ s
      → (n ≡ s) × (k : Json) × In k ks
  if_any-first n s [] full e = absurd_text s full e
  if_any-first n s (k ∷ ks) full e = (e, k, inl refl)

  if_any-narrative :
      (n : String) (k : Json) (ks : List Json) → In k ks → narrative_of (if_any n ks) ≡ n
  if_any-narrative n k [] m = absurd m
  if_any-narrative n k (x ∷ ks) m = refl

  -- What two fields that are grounded to a text are.
  abbrev FieldsTell : Option String → Option (List Json) → String → Type 0
  FieldsTell n c s =
      (n ≡ some s) × (cs : List Json) × (c ≡ some cs) × (k : Json) × In k cs × IsCited items k

  ground_fields-FieldsTell :
      (n : Option String) (c : Option (List Json)) (s : String)
      → is_empty_text s ≡ false
      → narrative_of (ground_fields items n c) ≡ s
      → FieldsTell n c s
  unfolding ground_fields
  ground_fields-FieldsTell none c s full e = absurd_text s full e
  ground_fields-FieldsTell (some n) none s full e = absurd_text s full e
  ground_fields-FieldsTell (some n) (some cs) s full e =
      if_cases (λ o. narrative_of o ≡ s → FieldsTell (some n) (some cs) s) (is_empty_text n) none
        (if_any n (kept_claims items cs)) (λ t q. absurd_text s full q)
        (λ f q.
          let (same, k, m) = if_any-first n s (kept_claims items cs) full q in
          let (there, cited) = kept-In k cs m in (ap some same, cs, refl, k, there, cited))
        e

  as_text-some : (v : Json) (s : String) → as_text v ≡ some s → v ≡ text s
  as_text-some null s e = cc
  as_text-some (flag b) s e = cc
  as_text-some (number n) s e = cc
  as_text-some (text t) s e = let same : t ≡ s = cc in ap text same
  as_text-some (day d) s e = cc
  as_text-some (list vs) s e = cc
  as_text-some (dict ms) s e = cc

  conclude_search-IsTold :
      (o : Option Json) (s : String)
      → is_empty_text s ≡ false
      → conclude_search items o ≡ s
      → IsTold o s
  unfolding conclude_search grounded_episode
  conclude_search-IsTold none s full e = absurd_text s full e
  conclude_search-IsTold (some (dict ms)) s full e =
      let d = g_pcap.Dispatch.Json.entries ms in
      let (n, cs, c, k, there, cited) =
        ground_fields-FieldsTell (as_text (lookup "narrative" d))
          (as_list (lookup "cited_evidence" d)) s full e in
      record {
        members = ms;
        is_dict = refl;
        narrative = as_text-some (lookup "narrative" d) s n;
        claims = cs;
        is_list = c;
        claim = k;
        there = there;
        cited = cited;
      }
  conclude_search-IsTold (some null) s full e = absurd_text s full e
  conclude_search-IsTold (some (flag b)) s full e = absurd_text s full e
  conclude_search-IsTold (some (number n)) s full e = absurd_text s full e
  conclude_search-IsTold (some (text t)) s full e = absurd_text s full e
  conclude_search-IsTold (some (day d)) s full e = absurd_text s full e
  conclude_search-IsTold (some (list vs)) s full e = absurd_text s full e

  telling :
      (o : Option Json) (s : String)
      → is_empty_text s ≡ false
      → IsTold o s
      → conclude_search items o ≡ s
  unfolding conclude_search grounded_episode ground_fields
  telling o s full h =
      rw (h.is_dict, h.narrative, h.is_list, full)
        (if_any-narrative s h.claim (kept_claims items h.claims)
          (In-kept h.claim h.claims h.there h.cited))

-- Whatever search is injected, the root cause of an incident is a text that is not empty exactly
-- if the search answers, to the objective that is seeded with the past episodes, a dict with that
-- text as its narrative and a list of evidence with a claim that cites the incident's evidence.
pub run_root_cause-IsTold :
    {W : Type 0} (sb : Sandbox) (iso : ℕ → String) (search : String → W → Option Json × W)
    (episodes : Option (List Episode)) (event : AlarmEvent) (items : List EvidenceItem)
    (links : List (Link Json)) (w : W) (s : String)
    → is_empty_text s ≡ false
    → ((run_root_cause sb iso search episodes event items links w).0 ≡ s)
      ↔ IsTold items
          (search (seeded sb iso episodes event items (objective_text sb event items links)) w).0
          s
unfolding run_root_cause
run_root_cause-IsTold sb iso search episodes event [] links w s full =
    (λ e. absurd_text s full e, λ h. none_cited (citation_of h.claim) h.cited)
run_root_cause-IsTold sb iso search episodes event (e ∷ es) links w s full =
    let o =
      (search (seeded sb iso episodes event (e ∷ es) (objective_text sb event (e ∷ es) links))
        w).0 in
    (conclude_search-IsTold (e ∷ es) o s full, telling (e ∷ es) o s full)
