-- ===== src/Dispatch/Record.antt =====
-- dispatch/dispatch/record.py: the Incident Record's text, of the events and evidence items of
-- dispatch/dispatch/evidence.py. Times stand beside their text.
use Prim.Native.String.{◌++◌ as append}
use g_pcap.Prelude.{ℕ, suc, String, if◌then◌else◌, Option, none, some, List, [], ◌∷◌, ◌++◌, map}
use g_pcap.Prelude.Dict.{Dict}
use g_pcap.Prelude.Text.{truthy, show}
use g_pcap.Prelude.Chars.{join_texts}
use package.text.Mathlib.Text.{◌==◌ as str_eq}
use g_pcap.Dispatch.Json.{Json}
use g_pcap.Dispatch.Executor.{Sandbox, str_of, observe_only_note}
use g_pcap.Dispatch.Runbook.{or_text}
use g_pcap.Dispatch.Correlation.{Link}

-- A float as a number of microseconds and as Python prints it.
pub record Time : Type 0 where
  pub micros : ℕ
  pub shown : String

pub record AlarmEvent : Type 0 where
  pub incident_id : String
  pub detected_at : Time
  pub source : String
  pub procedure : Option String
  pub start : Time
  pub end : Time
  pub description : String
  pub captures : Dict String String

pub record EvidenceItem : Type 0 where
  pub source : String
  pub kind : String
  pub ts : Time
  pub entry : String
  pub cause : Option String
  pub keys : Dict String Json
  pub citation : String
  pub line : Option String

-- A proposal with its rendered commands and its hash.
pub record Proposal : Type 0 where
  pub action : String
  pub args : Dict String Json
  pub justification : String
  pub commands : List String
  pub hash : String

-- What the record is rendered from.
pub record Incident : Type 0 where
  pub event : AlarmEvent
  pub evidence : List EvidenceItem
  pub links : List (Link Json)
  pub root_cause : String
  pub proposal : Option Proposal
  pub approval : String
  pub execution_log : List String

abbrev pub approval_label : String → String
approval_label a =
    if str_eq a "pending"
    then "**pending**"
    else if str_eq a "approved-dry-run"
    then "**approved (dry-run)**"
    else if str_eq a "approved-executed"
    then "**approved (executed)**"
    else if str_eq a "rejected"
    then "**rejected**"
    else append "**" (append a "**")

-- The concatenation of an f-string's parts.
abbrev pub cat : List String → String
cat = join_texts ""

abbrev pub event_lines : AlarmEvent → List String
event_lines e =
    append "# Incident Record — " e.incident_id
    ∷ ""
    ∷ "## Event"
    ∷ ""
    ∷ cat ("- Incident id: `" ∷ e.incident_id ∷ "`" ∷ [])
    ∷ append "- Detected at: " e.detected_at.shown
    ∷ append "- Source: " e.source
    ∷ append "- Procedure: " (or_text "-" e.procedure)
    ∷ cat ("- Time window: " ∷ e.start.shown ∷ " → " ∷ e.end.shown ∷ [])
    ∷ ""
    ∷ e.description
    ∷ ""
    ∷ []

abbrev pub key_text : Sandbox → String × Json → String
key_text sb (k, v) = cat (k ∷ "=" ∷ str_of sb v ∷ [])

-- `", ".join(f"{k}={v}" …)`
abbrev pub keys_text : Sandbox → Dict String Json → String
keys_text sb ks = join_texts ", " (map (key_text sb) ks)

abbrev pub cited : EvidenceItem → String
cited e = if truthy e.line then cat (e.citation ∷ " — " ∷ or_text "" e.line ∷ []) else e.citation

abbrev pub item_lines : Sandbox → ℕ → List EvidenceItem → List String
item_lines sb n [] = []
item_lines sb n (e ∷ es) =
    cat (
      "- ["
      ∷ show n
      ∷ "] "
      ∷ e.source
      ∷ " "
      ∷ e.kind
      ∷ ": "
      ∷ e.entry
      ∷ " (keys: "
      ∷ keys_text sb e.keys
      ∷ ") — cited: "
      ∷ cited e
      ∷ [])
    ∷ item_lines sb (suc n) es

abbrev pub or_line : String → List String → List String
or_line s [] = s ∷ []
or_line s (x ∷ xs) = x ∷ xs

abbrev pub link_line : Sandbox → Link Json → String
link_line sb l =
    cat ("- [" ∷ show l.a ∷ "] ↔ [" ∷ show l.b ∷ "] via " ∷ l.key ∷ "=" ∷ str_of sb l.value ∷ [])

abbrev pub dash : String → String
dash s = append "- " s

-- The lines of the proposal, of `json.dumps(args, sort_keys=True)`.
abbrev pub proposal_lines : (Dict String Json → String) → Option Proposal → List String
proposal_lines dumps none = "- (no proposal produced)" ∷ "" ∷ []
proposal_lines dumps (some p) =
    (cat ("- Action: `" ∷ p.action ∷ "`" ∷ [])
      ∷ cat ("- Arguments: `" ∷ dumps p.args ∷ "`" ∷ [])
      ∷ ""
      ∷ p.justification
      ∷ ""
      ∷ "Commands (template-rendered):"
      ∷ ""
      ∷ or_line (dash observe_only_note) (map dash p.commands))
    ++ "" ∷ cat ("Proposal hash: `" ∷ p.hash ∷ "`" ∷ []) ∷ "" ∷ []

-- `render_record`
unfoldable pub render_record : Sandbox → (Dict String Json → String) → Incident → String
unfolding join_texts
render_record sb dumps rec' =
    append
      (join_texts "\n" (
        event_lines rec'.event
        ++ "## Correlation graph" ∷ "" ∷ or_line "- (no evidence)" (item_lines sb 0 rec'.evidence)
        ++ "" ∷ or_line "- no links" (map (link_line sb) rec'.links)
        ++ ""
          ∷ "## Root cause"
          ∷ ""
          ∷ or_text "- (no root cause produced)" (some rec'.root_cause)
          ∷ ""
          ∷ "## Proposal"
          ∷ ""
          ∷ proposal_lines dumps rec'.proposal
        ++ "## Approval status"
          ∷ ""
          ∷ cat ("Approval status: " ∷ approval_label rec'.approval ∷ [])
          ∷ ""
          ∷ "## Execution log"
          ∷ ""
          ∷ or_line "- (empty)" (map dash rec'.execution_log)))
      "\n"
