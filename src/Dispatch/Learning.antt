-- ===== src/Dispatch/Learning.antt =====
-- dispatch/dispatch/learning.py: what closing an incident drafts and suggests. YAML's printing, json's
-- and a path's last name are parameters, and the date and the time are given.
pub mod Covered
use Prim.Native.Char.{code}
use Prim.Native.String
use Prim.Native.String.{◌++◌ as append}
use package.text.Mathlib.Text.{◌==◌ as str_eq}
use g_pcap.Prelude.{
  ℕ, String, Bool, true, false, ◌==◌, if◌then◌else◌, Option, none, some, List, [], ◌∷◌, ◌++◌, map,
}
use g_pcap.Prelude.Chars.{join_texts, is_empty_text}
use g_pcap.Prelude.Dict.{Dict, get, put}
use g_pcap.Prelude.Text.{String-discrete, truthy}
use g_pcap.Dispatch.Json.{Json, lookup, as_text, text, day}
use g_pcap.Dispatch.Executor.{Sandbox, str_of}
use g_pcap.Dispatch.Runbook.{Runbook, or_text, match_runbooks}
use g_pcap.Dispatch.Record.{AlarmEvent, Proposal, cat}
use g_pcap.Dispatch.Memory.{Episode}
use g_pcap.Dispatch.Proposal.{is_empty}

-- The frontmatter of a draft.
pub record Frontmatter : Type 0 where
  pub slug : String
  pub title : String
  pub procedure : String
  pub added : ℕ
  pub symptoms : Dict String Json
  pub steps : List String
  pub action : Option String
  pub args : Dict String Json

pub record Printing : Type 0 where
  pub path_name : String → String
  pub dumps : Dict String Json → String
  pub safe_dump : Frontmatter → String

-- A capture's name, where there is one that is not empty.
abbrev pub capture : String → AlarmEvent → Option String
capture key event = get String-discrete key event.captures

abbrev pub option_part : (String → String) → String → Option String → List String
option_part name flag o = if truthy o then append flag (name (or_text "" o)) ∷ [] else []

abbrev pub n2_name : (String → String) → Option String → String
n2_name name none = name "<n2-capture>"
n2_name name (some s) = name s

-- `confirmation_check`, of the proposal's action and arguments
unfoldable pub confirmation_check :
    Printing → Sandbox → String → Dict String Json → AlarmEvent → String
unfolding join_texts
confirmation_check pt sb action args event =
    if str_eq action "rerun_capture"
    then cat (
        "bash "
        ∷ sb.root
        ∷ "/capture.sh --scenario "
        ∷ elim (get String-discrete "scenario" args) [ none ↦ "" | some v ↦ str_of sb v ]
        ∷ [])
    else join_texts " " (
        append "dispatch detect-kpi " (n2_name pt.path_name (capture "n2" event))
          ∷ option_part pt.path_name "--sbi " (capture "sbi" event)
        ++ option_part pt.path_name "--n4 " (capture "n4" event))

-- `draft_filename` without and with its ending
abbrev pub draft_slug : Episode → String
draft_slug e = cat (or_text "none" e.procedure ∷ "-" ∷ e.incident_id ∷ [])

abbrev pub draft_filename : Episode → String
draft_filename e = append (draft_slug e) ".md"

abbrev pub args_or_empty : Option (Dict String Json) → Dict String Json
args_or_empty none = []
args_or_empty (some args) = args

abbrev pub shown : Option String → String
shown none = "None"
shown (some s) = s

-- A dict of the episode's keys: the last value of a key stays, at the key's first place.
unfoldable pub symptoms_of : List (String × Json) → Dict String Json → Dict String Json
symptoms_of [] d = d
symptoms_of ((k, v) ∷ ks) d = symptoms_of ks (put String-discrete k v d)

abbrev pub draft_title : Episode → String
draft_title e = cat ("Apply " ∷ shown e.action ∷ " after incident " ∷ e.incident_id ∷ [])

abbrev pub draft_steps : Printing → Episode → List String
draft_steps pt e =
    append "Diagnosis: " (or_text "(no root cause recorded)" (some e.narrative))
    ∷ cat ("Remediation: " ∷ shown e.action ∷ " " ∷ pt.dumps (args_or_empty e.args) ∷ [])
    ∷ (if truthy e.justification
        then append "Justification: " (or_text "" e.justification) ∷ []
        else [])

-- `draft_text`, of today's date
unfoldable pub draft_text : Printing → ℕ → Episode → String
unfolding symptoms_of
draft_text pt today e = cat (
    "---\n"
    ∷ pt.safe_dump (record {
      slug = draft_slug e;
      title = draft_title e;
      procedure = or_text "" e.procedure;
      added = today;
      symptoms = symptoms_of e.evidence_keys [];
      steps = draft_steps pt e;
      action = e.action;
      args = args_or_empty e.args;
    })
    ∷ "---\n\n# "
    ∷ draft_title e
    ∷ "\n\nDrafted by `dispatch close "
    ∷ e.incident_id
    ∷ "` from the episode's own record — a deterministic template, no LLM call. The args stay literal; generalize them to {placeholder} form and adjust the steps at promotion.\n"
    ∷ [])

-- `matching_runbook`
unfoldable pub matching_runbook : Sandbox → List Runbook → Episode → Bool
unfolding match_runbooks symptoms_of
matching_runbook sb rbs e =
    if is_empty (match_runbooks sb rbs e.procedure (symptoms_of e.evidence_keys [] ∷ []))
    then false
    else true

-- `outcome_section`, of the time of the close
unfoldable pub outcome_section : String → String → Option String → String → String
unfolding join_texts
outcome_section closed outcome evidence check = join_texts "\n" (
    ""
    ∷ "## Outcome"
    ∷ ""
    ∷ cat ("- **Verdict:** **" ∷ outcome ∷ "**" ∷ [])
    ∷ append "- **Operator evidence:** " (or_text "(none)" evidence)
    ∷ cat ("- **Suggested confirmation check:** `" ∷ check ∷ "`" ∷ [])
    ∷ append "- **Closed at:** " closed
    ∷ ""
    ∷ [])
