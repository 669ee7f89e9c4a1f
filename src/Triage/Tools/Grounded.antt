-- ===== src/Triage/Tools/Grounded.antt =====
-- A hypothesis of triage's search is grounded in the decode (triage/triage/search.py).
use package.text.Mathlib.Text.{◌==◌ as str_eq}
use package.text.Mathlib.TextEquality.{eq_iff}
use g_pcap.Prelude.{
  ℕ, String, Bool, true, false, ◌&&◌, ◌≡◌, refl, sym, ap, subst, if_cases, Option, none, some, List,
  [], ◌∷◌, inl, inr, Option-cases, In, arith,
}
use g_pcap.Triage.Export.{DecodedCapture}
use g_pcap.Triage.Memory.{CitedEvidence, Episode}
use g_pcap.Triage.Tools.{
  Tools, Inventory, is_near, same_cause, has_match, is_grounded, grounded_of, grounded_evidence,
  message_inventory, accept, finalize, observe_with, run_tool, execute_action, lats_steps,
}
use g_pcap.Triage.Search.Action.{parse_action}
use g_pcap.Triage.Search.Node.{Floats}
use g_pcap.Triage.Search.Rollout.{Steps, Settings}
use g_pcap.Triage.Search.Run.{SearchResult, run}
use g_pcap.Triage.Search.Run.Results.{run-Came}

-- An entry of the inventory that the evidence names: at most half a millisecond apart, and with the
-- evidence's cause where it has one.
pub record Matches (inv : Inventory) (ev : CitedEvidence) : Type 0 where
  pub time : ℕ
  pub cited_time : ℕ
  pub cause : Option ℕ
  pub listed : In ((ev.message, time), cause) inv
  pub timed : ev.ts ≡ some cited_time
  pub near : is_near time cited_time ≡ true
  pub agrees : same_cause ev.cause cause ≡ true

abbrev Found : Inventory → String → ℕ → Option ℕ → Type 0
Found inv message t cause =
    (ts : ℕ) × (c : Option ℕ) × In ((message, ts), c) inv
    × (is_near ts t ≡ true)
    × (same_cause cause c ≡ true)

all_three : (a b c : Bool) → (a && (b && c)) ≡ true → (a ≡ true) × (b ≡ true) × (c ≡ true)
all_three true true true e = (refl, refl, refl)
all_three true true false e = cc
all_three true false c e = cc
all_three false b c e = cc

has_match-Found :
    (inv : Inventory) (message : String) (t : ℕ) (cause : Option ℕ)
    → has_match message t cause inv ≡ true
    → Found inv message t cause
unfolding has_match
has_match-Found [] message t cause h = cc
has_match-Found (((name, ts), c) ∷ inv) message t cause h =
    if_cases (λ b. b ≡ true → Found (((name, ts), c) ∷ inv) message t cause)
      (str_eq name message && (is_near ts t && same_cause cause c)) true
      (has_match message t cause inv)
      (λ e q.
        let (n, near, agrees) =
          all_three (str_eq name message) (is_near ts t) (same_cause cause c) e in
        let same : name ≡ message = (eq_iff name message).0 n in
        (ts, c, inl (ap (λ x. ((x, ts), c)) (sym same)), near, agrees))
      (λ e q.
        let (ts', c', m, near, agrees) = has_match-Found inv message t cause q in
        (ts', c', inr m, near, agrees))
      h

is_grounded-Matches :
    (inv : Inventory) (ev : CitedEvidence) → is_grounded inv ev ≡ true → Matches inv ev
unfolding is_grounded
is_grounded-Matches inv ev h = elim (Option-cases ev.ts) [
  | inl e ↦ ground (arith, e, h)
  | inr (t, e) ↦
      let (ts, c, m, near, agrees) =
        has_match-Found inv ev.message t ev.cause (ground (arith, e, h)) in
      record {
        time = ts;
        cited_time = t;
        cause = c;
        listed = m;
        timed = e;
        near = near;
        agrees = agrees;
      }
]

-- One of the cited evidence is in the inventory.
abbrev pub IsGrounded : Inventory → List CitedEvidence → Type 0
IsGrounded inv evs = (ev : CitedEvidence) × In ev evs × Matches inv ev

grounded_of-IsGrounded :
    (inv : Inventory) (evs : List CitedEvidence) (g : CitedEvidence) (gs : List CitedEvidence)
    → grounded_of inv evs ≡ g ∷ gs
    → IsGrounded inv evs
unfolding grounded_of
grounded_of-IsGrounded inv [] g gs e = cc
grounded_of-IsGrounded inv (ev ∷ evs) g gs e =
    if_cases (λ r. r ≡ g ∷ gs → IsGrounded inv (ev ∷ evs)) (is_grounded inv ev)
      (ev ∷ grounded_of inv evs) (grounded_of inv evs)
      (λ t q. (ev, inl refl, is_grounded-Matches inv ev t))
      (λ f q. let (x, m, found) = grounded_of-IsGrounded inv evs g gs q in (x, inr m, found)) e

module _ (tl : Tools) (cap : DecodedCapture) where
  abbrev Grounds : Episode → Type 0
  Grounds e = IsGrounded (message_inventory cap) e.cited_evidence

  accept-Grounds :
      (e f : Episode) (gs : List CitedEvidence)
      → grounded_evidence cap e ≡ gs
      → (accept e gs).1 ≡ some f
      → Grounds f
  unfolding grounded_evidence
  accept-Grounds e f [] q h = cc
  accept-Grounds e f (g ∷ gs) q h =
      let same : e ≡ f = cc in
      subst Grounds same (grounded_of-IsGrounded (message_inventory cap) e.cited_evidence g gs q)

  abbrev FromTool : String × Option Episode → Type 0
  FromTool r = (e : Episode) → r.1 ≡ some e → Grounds e

  finalize-FromTool : (error : String) (o : Option Episode) → FromTool (finalize cap error o)
  unfolding finalize
  finalize-FromTool error none e h = cc
  finalize-FromTool error (some f) e h = accept-Grounds f e (grounded_evidence cap f) refl h

  text-FromTool : (s : String) → FromTool (s, none)
  text-FromTool s e h = cc

  run_tool-FromTool :
      (action : String) (cut : String × String) → FromTool (run_tool tl cap action cut)
  unfolding run_tool
  run_tool-FromTool action (tool, argument) =
      if_cases FromTool (str_eq tool "finalize")
        (finalize cap (tl.validation_error argument) (tl.validate argument))
        (observe_with tl cap action tool argument, none)
        (λ t. finalize-FromTool (tl.validation_error argument) (tl.validate argument))
        (λ f. text-FromTool (observe_with tl cap action tool argument))

  -- Whatever the models propose, an episode that triage's search returns cites at least one message
  -- that is decoded in the capture: with its name, less than half a millisecond from its time, and
  -- with the cited cause where one is cited.
  pub run-Grounds :
      {R W : Type 0} (fl : Floats R) (models : Steps R Episode W) (cfg : Settings R) (k : ℕ) (w : W)
      (r : SearchResult R Episode) (e : Episode)
      → (run fl (lats_steps tl cap models) cfg k w).0 ≡ some r
      → r.episode ≡ some e
      → Grounds e
  unfolding lats_steps execute_action
  run-Grounds fl models cfg k w r e q h =
      let (a, (w', o, came)) = run-Came fl (lats_steps tl cap models) cfg k w r e q h in
      run_tool-FromTool a (parse_action tl.lower a) e (ap (λ x. x.1) came)
