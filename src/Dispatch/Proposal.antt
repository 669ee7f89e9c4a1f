-- ===== src/Dispatch/Proposal.antt =====
-- dispatch/dispatch/proposal.py, `run_proposal`: what a language model selects becomes a proposal of
-- three fields, or none. The model's call is a parameter.
use Prim.Native.String.{◌++◌}
use package.text.Mathlib.Text.{◌==◌ as str_eq}
use g_pcap.Prelude.{
  ℕ, String, Bool, true, false, ◌&&◌, not, if◌then◌else◌, Option, none, some, List, [], ◌∷◌, length,
}
use g_pcap.Prelude.Dict.{Dict}
use g_pcap.Prelude.Sets.{mem}
use g_pcap.Prelude.Text.{String-discrete}
use g_pcap.Prelude.Chars.{is_empty_text}
use g_pcap.Dispatch.Json.{Json, as_text, as_dict, lookup}
use g_pcap.Dispatch.Executor.{Sandbox, Checked, ok, refused, actions}
use g_pcap.Dispatch.Runbook.{Keys, Runbook, match_runbooks, runbook_context, bind_placeholders}

-- The three fields.
pub record Selection : Type 0 where
  pub action : String
  pub args : Dict String Json
  pub justification : String

-- What the proposal step is given: the proposer, which gives nothing where its call raises, the
-- characters of `\w`, and `json.dumps` of a resolution's arguments.
pub record Proposer (W : Type 0) : Type 0 where
  pub propose : String → String → W → Option Json × W
  pub is_word : ℕ → Bool
  pub dumps_args : Dict String String → String

abbrev pub is_empty : {A : Type 0} → List A → Bool
is_empty [] = true
is_empty (x ∷ xs) = false

-- The incident's description, below the runbooks that match.
abbrev pub with_context :
    Sandbox → (Dict String String → String) → ℕ → List Runbook → List Keys → String → String
with_context sb dumps total [] items incident = incident
with_context sb dumps total (m ∷ ms) items incident =
    runbook_context sb dumps (m ∷ ms) items total ++ "\n\n" ++ incident

unfoldable pub context :
    {W : Type 0} → Proposer W → Sandbox → List Runbook → Option String → List Keys → String → String
unfolding match_runbooks
context pr sb [] procedure items incident = incident
context pr sb (rb ∷ rbs) procedure items incident =
    with_context sb pr.dumps_args (length (rb ∷ rbs)) (match_runbooks sb (rb ∷ rbs) procedure items)
      items incident

abbrev pub or_dropped : String → String → Checked (Dict String Json) → Option Selection
or_dropped action justification (refused r) = none
or_dropped action justification (ok args) =
    some (record { action = action; args = args; justification = justification })

-- The arguments are bound where there is evidence.
abbrev pub bind_if_evidence : (ℕ → Bool) → List Keys → Dict String Json → Checked (Dict String Json)
bind_if_evidence is_word [] args = ok args
bind_if_evidence is_word (ks ∷ items) args = bind_placeholders is_word (ks ∷ items) args

-- The checks of the three fields.
unfoldable pub check_fields :
    (ℕ → Bool)
    → List Keys
    → Option String
    → Option (Dict String Json)
    → Option String
    → Option Selection
check_fields is_word items (some action) (some args) (some justification) =
    if not (mem String-discrete action actions)
    then none
    else if is_empty_text justification
    then none
    else if str_eq action "observe_only" && not (is_empty args)
    then none
    else or_dropped action justification (bind_if_evidence is_word items args)
check_fields is_word items none args justification = none
check_fields is_word items (some action) none justification = none
check_fields is_word items (some action) (some args) none = none

-- The selection must be a dict.
unfoldable pub check_selection : (ℕ → Bool) → List Keys → Option Json → Option Selection
unfolding check_fields
check_selection is_word items none = none
check_selection is_word items (some selection) = elim (as_dict selection) [
  | none ↦ none
  | some d ↦
      check_fields is_word items (as_text (lookup "action" d)) (as_dict (lookup "args" d))
        (as_text (lookup "justification" d))
]

-- `run_proposal`, of the event's description and procedure
unfoldable pub run_proposal :
    {W : Type 0}
    → Proposer W
    → Sandbox
    → List Runbook
    → String
    → Option String
    → List Keys
    → String
    → W
    → Option Selection × W
unfolding context check_selection
run_proposal pr sb rbs incident procedure items root_cause w =
    let (selection, w') = pr.propose (context pr sb rbs procedure items incident) root_cause w in
    (check_selection pr.is_word items selection, w')
