-- ===== src/Triage/Tools.antt =====
-- triage/triage/search.py: the execute step of triage's search, `execute_action`, with the grounding
-- of an episode in the decode. The tools that only render text are parameters.
pub mod Grounded
use Prim.Native.Char.{code}
use Prim.Native.String
use Prim.Native.String.{◌++◌ as append}
use package.text.Mathlib.Text.{◌==◌ as str_eq}
use g_pcap.Prelude.{
  ℕ, zero, suc, ◌+◌, ◌-◌, String, Bool, true, false, not, ◌&&◌, ◌||◌, ltb, leb, is, if◌then◌else◌,
  length, Option, none, some, List, [], ◌∷◌, ◌++◌, ℕ_discrete,
}
use g_pcap.Prelude.Chars.{is_empty_text, partition, is_space}
use g_pcap.Prelude.Dict.{Dict, get, put}
use g_pcap.Prelude.Keys.{Option-discrete, pair_discrete}
use g_pcap.Prelude.Sets.{mem}
use g_pcap.Prelude.Text.{String-discrete, truthy, show}
use g_pcap.Triage.Export.{FlowMessage, ExportedFlow, PlaneMessage, DecodedCapture}
use g_pcap.Triage.Memory.{CitedEvidence, Episode}
use g_pcap.Triage.Search.Action.{parse_action}
use g_pcap.Triage.Search.Rollout.{Steps}

-- The other tools, of their arguments: `inspect_decoded_evidence`, `query_topology`,
-- `query_3gpp_spec` and `query_episodic_memory` over the store. Then what pydantic and Python answer:
-- an episode from its JSON, its error's text, `lower`, and the number
-- that `int` reads in a text, by its own text.
pub record Tools : Type 0 where
  pub inspect : DecodedCapture → String → String
  pub topology : DecodedCapture → String
  pub spec : String → String
  pub memory : Dict String String → String
  pub validate : String → Option Episode
  pub validation_error : String → String
  pub lower : String → String
  pub to_int : String → Option String

abbrev pub MessageKey : Type 0
MessageKey = String × ℕ

unfoldable pub MessageKey-discrete : Discrete MessageKey
unfolding pair_discrete String-discrete ℕ_discrete
MessageKey-discrete = pair_discrete String-discrete ℕ_discrete

-- {(name, ts): cause code}
abbrev pub Inventory : Type 0
Inventory = Dict MessageKey (Option ℕ)

-- One entry, where the name is not empty and the time is there.
unfoldable pub add_entry : Option String → Option ℕ → Option ℕ → Inventory → Inventory
add_entry none ts cause inv = inv
add_entry (some name) none cause inv = inv
add_entry (some name) (some ts) cause inv =
    if is_empty_text name then inv else put MessageKey-discrete (name, ts) cause inv

abbrev pub code_of : Option (Option ℕ) → Option ℕ
code_of none = none
code_of (some c) = c

-- The three names of a message have its cause.
unfoldable pub add_messages : List FlowMessage → Inventory → Inventory
unfolding add_entry
add_messages [] inv = inv
add_messages (m ∷ ms) inv =
    let cause = code_of m.nas_cause in
    add_messages ms (
      add_entry m.nas_inner m.ts cause
        (add_entry m.nas m.ts cause (add_entry m.ngap m.ts cause inv)))

unfoldable pub add_flows_messages : List ExportedFlow → Inventory → Inventory
unfolding add_messages
add_flows_messages [] inv = inv
add_flows_messages (f ∷ fs) inv = add_flows_messages fs (add_messages f.messages inv)

unfoldable pub add_unassociated : List FlowMessage → Inventory → Inventory
unfolding add_entry
add_unassociated [] inv = inv
add_unassociated (m ∷ ms) inv = add_unassociated ms (add_entry m.ngap m.ts none inv)

unfoldable pub add_n4 : List PlaneMessage → Inventory → Inventory
unfolding add_entry
add_n4 [] inv = inv
add_n4 (m ∷ ms) inv = add_n4 ms (add_entry m.name m.ts m.cause_code inv)

unfoldable pub add_sbi : List PlaneMessage → Inventory → Inventory
unfolding add_entry
add_sbi [] inv = inv
add_sbi (m ∷ ms) inv = add_sbi ms (add_entry m.name m.ts none inv)

-- `_message_inventory`
unfoldable pub message_inventory : DecodedCapture → Inventory
unfolding add_flows_messages add_unassociated add_n4 add_sbi
message_inventory cap =
    add_sbi cap.sbi_messages
      (add_n4 cap.n4_messages (add_unassociated cap.unassociated (add_flows_messages cap.flows [])))

-- `abs(ts - ev.ts) < 5e-4`
abbrev pub is_near : ℕ → ℕ → Bool
is_near a b = ltb ((a - b) + (b - a)) 500

abbrev pub same_cause : Option ℕ → Option ℕ → Bool
same_cause none cause = true
same_cause (some c) cause = is (Option-discrete ℕ_discrete cause (some c))

-- The inventory has a message that the evidence names, near its time, with its cause if it has one.
unfoldable pub has_match : String → ℕ → Option ℕ → Inventory → Bool
has_match message t cause [] = false
has_match message t cause (((name, ts), c) ∷ inv) =
    if str_eq name message && (is_near ts t && same_cause cause c)
    then true
    else has_match message t cause inv

unfoldable pub is_grounded : Inventory → CitedEvidence → Bool
unfolding has_match
is_grounded inv ev = elim ev.ts [ none ↦ false | some t ↦ has_match ev.message t ev.cause inv ]

-- `grounded_evidence`
unfoldable pub grounded_of : Inventory → List CitedEvidence → List CitedEvidence
unfolding is_grounded
grounded_of inv [] = []
grounded_of inv (ev ∷ evs) =
    let rest = grounded_of inv evs in if is_grounded inv ev then ev ∷ rest else rest

unfoldable pub grounded_evidence : DecodedCapture → Episode → List CitedEvidence
unfolding grounded_of message_inventory
grounded_evidence cap e = grounded_of (message_inventory cap) e.cited_evidence

-- `_finalize`
abbrev pub ungrounded_text : String
ungrounded_text =
    "finalize rejected: no cited evidence matches a decoded message. Cite message names and ts values exactly as shown in the observations."

abbrev pub accept : Episode → List CitedEvidence → String × Option Episode
accept e [] = (ungrounded_text, none)
accept e (ev ∷ evs) = (
  append "finalize accepted: hypothesis grounded in "
      (append (show (length (ev ∷ evs))) " evidence item(s)."),
  some e,
)

abbrev pub finalize_text : String → String
finalize_text error = append "finalize rejected: argument is not a valid Episode (" (
    append error
      "). Expected JSON: {\"incident_type\": one of auth_failure, registration_reject, registration_timeout, pdu_session_reject_slice, pdu_session_reject_other, pdu_session_timeout, pdu_session_rsp_timeout, sbi_udm_timeout, sbi_nssf_reject, n4_upf_timeout, \"narrative\": \"...\", \"cited_evidence\": [{\"message\": ..., \"cause\": ..., \"ts\": ...}]}.")

unfoldable pub finalize : DecodedCapture → String → Option Episode → String × Option Episode
unfolding grounded_evidence
finalize cap error none = (finalize_text error, none)
finalize cap error (some e) = accept e (grounded_evidence cap e)

-- `argument.split()`: the texts between the spaces.
abbrev pub push_char : Prim.Native.Char.Char → List String → List String
push_char c [] = String.◌∷◌ c String.[] ∷ []
push_char c (w ∷ ws) = String.◌∷◌ c w ∷ ws

unfoldable pub split_spaces : String → List String
unfolding is_space
split_spaces String.[] = String.[] ∷ []
split_spaces (String.◌∷◌ c s) =
    let rest = split_spaces s in if is_space (code c) then String.[] ∷ rest else push_char c rest

-- `_memory_kwargs`; a number is kept by its text, which `int` accepts.
unfoldable pub kwarg : Tools → String → Dict String String → Dict String String
unfolding partition String-discrete
kwarg tl token kwargs =
    let (key, found, value) = partition b'=' token in
    if not found
    then kwargs
    else if str_eq key "incident_type" || str_eq key "message"
    then put String-discrete key value kwargs
    else if str_eq key "cause" || str_eq key "limit"
    then elim (tl.to_int value) [ none ↦ kwargs | some n ↦ put String-discrete key n kwargs ]
    else kwargs

unfoldable pub kwargs_of : Tools → List String → Dict String String → Dict String String
unfolding kwarg
kwargs_of tl [] kwargs = kwargs
kwargs_of tl (t ∷ ts) kwargs =
    kwargs_of tl ts (if is_empty_text t then kwargs else kwarg tl t kwargs)

unfoldable pub memory_kwargs : Tools → String → Dict String String
unfolding kwargs_of split_spaces
memory_kwargs tl argument = kwargs_of tl (split_spaces argument) []

abbrev pub or_flows : String → String
or_flows argument = if is_empty_text argument then "flows" else argument

-- A tool that answers a text only.
abbrev pub unknown_text : String → String
unknown_text action =
    append "unknown action \""
      (append action "\": expected one of inspect, topology, spec, memory, finalize")

unfoldable pub observe_with : Tools → DecodedCapture → String → String → String → String
unfolding memory_kwargs
observe_with tl cap action tool argument =
    if str_eq tool "inspect"
    then tl.inspect cap (or_flows argument)
    else if str_eq tool "topology"
    then tl.topology cap
    else if str_eq tool "spec"
    then tl.spec argument
    else if str_eq tool "memory"
    then tl.memory (memory_kwargs tl argument)
    else unknown_text action

-- `execute_action`
unfoldable pub run_tool :
    Tools → DecodedCapture → String → String × String → String × Option Episode
unfolding finalize observe_with
run_tool tl cap action (tool, argument) =
    if str_eq tool "finalize"
    then finalize cap (tl.validation_error argument) (tl.validate argument)
    else (observe_with tl cap action tool argument, none)

unfoldable pub execute_action : Tools → DecodedCapture → String → String × Option Episode
unfolding run_tool parse_action
execute_action tl cap action = run_tool tl cap action (parse_action tl.lower action)

-- The steps of `run_lats`: the execute step leaves the world as it is.
unfoldable pub lats_steps :
    {R W : Type 0} → Tools → DecodedCapture → Steps R Episode W → Steps R Episode W
unfolding execute_action
lats_steps tl cap models = record {
  expand = models.expand;
  evaluate = models.evaluate;
  execute = λ action w. (execute_action tl cap action, w);
}
