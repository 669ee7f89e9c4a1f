-- ===== src/Dispatch/RootCause.antt =====
-- dispatch/dispatch/root_cause.py: the objective of the root-cause search, its execute step, and the
-- grounding of the episode that it finds. The search itself is triage's, or one that is injected.
pub mod Grounded
pub mod Told
use Prim.Native.String.{◌++◌ as append}
use package.text.Mathlib.Text.{◌==◌ as str_eq}
use g_pcap.Prelude.{
  ℕ, zero, suc, String, Bool, true, false, ◌&&◌, ◌||◌, if◌then◌else◌, keep, length, map, is_some,
  Option, none, some, List, [], ◌∷◌, ◌++◌,
}
use g_pcap.Prelude.Chars.{join_texts, is_empty_text}
use g_pcap.Prelude.Dict.{Dict}
use g_pcap.Prelude.Sets.{mem}
use g_pcap.Prelude.Text.{String-discrete, truthy, show}
use g_pcap.Dispatch.Json.{
  Json, null, text, list, dict, Items, nil, cons, Members, end, member, lookup, as_text, as_dict,
  as_list,
}
use g_pcap.Dispatch.Executor.{Sandbox, str_of}
use g_pcap.Dispatch.Runbook.{or_text}
use g_pcap.Dispatch.Record.{AlarmEvent, EvidenceItem, cat, keys_text}
use g_pcap.Dispatch.Memory.{Episode, memory_context}
use g_pcap.Dispatch.Correlation.{Link}
use g_pcap.Triage.Search.Action.{parse_action}
use g_pcap.Triage.Search.Rollout.{Steps}

-- `json.loads`, which gives nothing where it raises, and `lower`
pub record Reading : Type 0 where
  pub loads : String → Option Json
  pub lower : String → String

-- A grounded episode.
pub record Hypothesis : Type 0 where
  pub narrative : String
  pub cited_evidence : List Json

abbrev pub key_part : Sandbox → Dict String Json → String
key_part sb ks =
    if truthy (some (keys_text sb ks)) then cat (" (keys: " ∷ keys_text sb ks ∷ ")" ∷ []) else ""

abbrev pub cited_line : EvidenceItem → String
cited_line e =
    if truthy e.line
    then cat (e.citation ∷ " (line: " ∷ or_text "" e.line ∷ ")" ∷ [])
    else e.citation

abbrev pub inventory_lines : Sandbox → ℕ → List EvidenceItem → List String
inventory_lines sb n [] = []
inventory_lines sb n (e ∷ es) =
    cat (
      "["
      ∷ show n
      ∷ "] "
      ∷ e.source
      ∷ " "
      ∷ e.kind
      ∷ ": "
      ∷ e.entry
      ∷ key_part sb e.keys
      ∷ " — citation: "
      ∷ cited_line e
      ∷ [])
    ∷ inventory_lines sb (suc n) es

abbrev pub or_one : String → List String → List String
or_one s [] = s ∷ []
or_one s (x ∷ xs) = x ∷ xs

abbrev pub edge_line : Sandbox → Link Json → String
edge_line sb l = cat (
    "["
    ∷ show (suc l.a)
    ∷ "] ↔ ["
    ∷ show (suc l.b)
    ∷ "] via "
    ∷ l.key
    ∷ "="
    ∷ str_of sb l.value
    ∷ [])

-- `inspect_observation`
unfoldable pub inspect_observation : Sandbox → List EvidenceItem → List (Link Json) → String
unfolding join_texts
inspect_observation sb items links = join_texts "\n" (
    cat ("Evidence inventory (" ∷ show (length items) ∷ " item(s)):" ∷ [])
      ∷ or_one "- (no evidence)" (inventory_lines sb 1 items)
    ++ or_one "- no links" (map (edge_line sb) links))

-- `objective_text`
unfoldable pub objective_text : Sandbox → AlarmEvent → List EvidenceItem → List (Link Json) → String
unfolding inspect_observation
objective_text sb event items links = cat (
    "Explain the failure incident: "
    ∷ event.description
    ∷ "\n\n"
    ∷ inspect_observation sb items links
    ∷ "\n\nInvestigate with `inspect` to re-read the inventory, then `finalize` with a JSON episode {\"narrative\": \"...\", \"cited_evidence\": [{\"citation\": \"...\"}]} whose citations name inventory items exactly as shown."
    ∷ [])

-- A claim is a dict whose citation is a text and one of the inventory's.
abbrev pub citation_of : Json → Option String
citation_of claim = elim (as_dict claim) [ none ↦ none | some d ↦ as_text (lookup "citation" d) ]

abbrev pub cites : List String → Option String → Bool
cites citations none = false
cites citations (some c) = mem String-discrete c citations

abbrev pub citations_of : List EvidenceItem → List String
citations_of items = map (λ e. e.citation) items

abbrev pub kept_claims : List EvidenceItem → List Json → List Json
kept_claims items cited = keep (λ claim. cites (citations_of items) (citation_of claim)) cited

abbrev pub if_any : String → List Json → Option Hypothesis
if_any narrative [] = none
if_any narrative (c ∷ cs) = some (record { narrative = narrative; cited_evidence = c ∷ cs })

-- The narrative is a text that is not empty, and the claims are a list.
unfoldable pub ground_fields :
    List EvidenceItem → Option String → Option (List Json) → Option Hypothesis
ground_fields items none cited = none
ground_fields items (some narrative) none = none
ground_fields items (some narrative) (some cited) =
    if is_empty_text narrative then none else if_any narrative (kept_claims items cited)

-- `grounded_episode`
unfoldable pub grounded_episode : List EvidenceItem → Json → Option Hypothesis
unfolding ground_fields
grounded_episode items episode = elim (as_dict episode) [
  | none ↦ none
  | some d ↦
      ground_fields items (as_text (lookup "narrative" d)) (as_list (lookup "cited_evidence" d))
]

abbrev pub items_of : List Json → Items
items_of [] = nil
items_of (v ∷ vs) = cons v (items_of vs)

-- The dict that a grounded episode is.
abbrev pub as_json : Hypothesis → Json
as_json h = dict (
    member "narrative" (text h.narrative)
      (member "cited_evidence" (list (items_of h.cited_evidence)) end))

abbrev pub finalize_answer : Option Hypothesis → String × Option Hypothesis
finalize_answer none = (
  "finalize rejected: no cited evidence names an inventory item. Cite citations exactly as shown in the inventory.",
  none,
)
finalize_answer (some h) = (
  cat (
      "finalize accepted: hypothesis grounded in "
      ∷ show (length h.cited_evidence)
      ∷ " evidence item(s)."
      ∷ []),
  some h,
)

-- `_finalize`, of what `json.loads` gave
unfoldable pub finalize : List EvidenceItem → Option Json → String × Option Hypothesis
unfolding grounded_episode
finalize items none = (
  "finalize rejected: the argument is not valid JSON. Expected {\"narrative\": \"...\", \"cited_evidence\": [{\"citation\": \"...\"}]}.",
  none,
)
finalize items (some episode) = finalize_answer (grounded_episode items episode)

-- `make_execute`
unfoldable pub unknown_tool : String → String × Option Hypothesis
unknown_tool action =
    (cat ("unknown action \"" ∷ action ∷ "\": expected one of inspect, finalize" ∷ []), none)

unfoldable pub run_tool :
    Sandbox
    → Reading
    → List EvidenceItem
    → List (Link Json)
    → String
    → String × String
    → String × Option Hypothesis
unfolding finalize inspect_observation unknown_tool
run_tool sb rd items links action (tool, argument) =
    if str_eq tool "inspect"
    then (inspect_observation sb items links, none)
    else if str_eq tool "finalize"
    then finalize items (rd.loads argument)
    else unknown_tool action

unfoldable pub execute_action :
    Sandbox → Reading → List EvidenceItem → List (Link Json) → String → String × Option Hypothesis
unfolding run_tool parse_action
execute_action sb rd items links action =
    run_tool sb rd items links action (parse_action rd.lower action)

-- The steps of the live search: the Dispatcher's execute step leaves the world as it is.
unfoldable pub dispatch_steps :
    {R W : Type 0}
    → Sandbox
    → Reading
    → List EvidenceItem
    → List (Link Json)
    → Steps R Hypothesis W
    → Steps R Hypothesis W
unfolding execute_action
dispatch_steps sb rd items links models = record {
  expand = models.expand;
  evaluate = models.evaluate;
  execute = λ action w. (execute_action sb rd items links action, w);
}

-- The objective below the past incidents, where there are any.
abbrev pub below_context : String → String → String
below_context context objective =
    if is_empty_text context then objective else cat (context ∷ "\n\n" ∷ objective ∷ [])

abbrev pub seeded :
    Sandbox
    → (ℕ → String)
    → Option (List Episode)
    → AlarmEvent
    → List EvidenceItem
    → String
    → String
seeded sb iso none event items objective = objective
seeded sb iso (some episodes) event items objective =
    below_context (memory_context sb iso episodes event items) objective

-- The narrative of the search's episode, where it is grounded; a search that raised gives nothing.
abbrev pub narrative_of : Option Hypothesis → String
narrative_of none = ""
narrative_of (some h) = h.narrative

unfoldable pub conclude_search : List EvidenceItem → Option Json → String
unfolding grounded_episode
conclude_search items none = ""
conclude_search items (some episode) = narrative_of (grounded_episode items episode)

-- `run_root_cause`
unfoldable pub run_root_cause :
    {W : Type 0}
    → Sandbox
    → (ℕ → String)
    → (String → W → Option Json × W)
    → Option (List Episode)
    → AlarmEvent
    → List EvidenceItem
    → List (Link Json)
    → W
    → String × W
unfolding objective_text conclude_search
run_root_cause sb iso search episodes event [] links w = ("", w)
run_root_cause sb iso search episodes event (e ∷ es) links w =
    let objective = objective_text sb event (e ∷ es) links in
    let (episode, w') = search (seeded sb iso episodes event (e ∷ es) objective) w in
    (conclude_search (e ∷ es) episode, w')
