-- ===== src/Triage/Incidents.antt =====
-- triage/triage/incidents.py: the failed procedures of a decode. `title` and `lower` are
-- parameters, and a plane's procedure stands with its kind, outcome and codes.
pub mod Failed
use Prim.Native.Char.{code}
use Prim.Native.String
use Prim.Native.String.{◌++◌ as append}
use package.text.Mathlib.Text.{◌==◌ as str_eq}
use g_pcap.Prelude.{
  ℕ, String, Bool, true, false, not, ◌&&◌, ◌||◌, if◌then◌else◌, ◌==◌, leb, any, is_some, keep, map,
  Option, none, some, List, [], ◌∷◌, ℕ_discrete,
}
use g_pcap.Prelude.Chars.{join_texts, is_empty_text, starts_with}
use g_pcap.Prelude.Order.{sort_with}
use g_pcap.Prelude.Sets.{mem, add}
use g_pcap.Prelude.Text.{String-discrete, show}
use g_pcap.Triage.Export.{FlowMessage, Procedure, ExportedFlow, DecodedCapture}

-- Python's `title` of a text, and `lower`.
pub record Casing : Type 0 where
  pub title : String → String
  pub lower : String → String

pub record Incident : Type 0 where
  pub plane : String
  pub flow_id : Option ℕ
  pub procedure : String
  pub shape : String
  pub detail : Option String

-- `mark in s`
unfoldable pub contains : String → String → Bool
unfolding starts_with
contains mark String.[] = is_empty_text mark
contains mark (String.◌∷◌ c s) = starts_with mark (String.◌∷◌ c s) || contains mark s

-- `kind.replace("_", " ")`
unfoldable pub spaced : String → String
spaced String.[] = String.[]
spaced (String.◌∷◌ c s) = String.◌∷◌ (if code c == b'_' then " " else c) (spaced s)

abbrev pub label : Casing → String → String
label cs kind =
    if str_eq kind "registration"
    then "Registration"
    else if str_eq kind "pdu_session_est"
    then "PDU Session"
    else cs.title (spaced kind)

abbrev pub or_blank : Option String → String
or_blank none = ""
or_blank (some s) = s

-- `a or b or ""`, where the empty text counts as nothing
abbrev pub or_else : String → String → String
or_else a b = if is_empty_text a then b else a

abbrev pub name_of_message : FlowMessage → String
name_of_message m = or_else (or_blank m.nas_inner) (or_else (or_blank m.nas) (or_blank m.ngap))

abbrev pub nas_name : FlowMessage → String
nas_name m = or_else (or_blank m.nas_inner) (or_blank m.nas)

-- `_procedure`
unfoldable pub procedure_of : Casing → ExportedFlow → List Procedure → String
unfolding contains spaced join_texts
procedure_of cs f [] =
    let names = join_texts " " (map name_of_message f.messages) in
    if contains "PDUSession" names || contains "5GSMPDU" names
    then "PDU Session"
    else if contains "Registration" names
    then "Registration"
    else "unknown"
procedure_of cs f (p ∷ ps) = label cs (or_blank p.kind)

abbrev pub is_reject : Procedure → Bool
is_reject p = str_eq (or_blank p.outcome) "reject"

-- A cause on a message that is a reject, a status or a failure.
unfoldable pub bears_cause : Casing → FlowMessage → Bool
unfolding contains
bears_cause cs m =
    let name = cs.lower (nas_name m) in
    is_some m.nas_cause
    && (contains "reject" name || (contains "status" name || contains "failure" name))

abbrev pub explicit_reject : String
explicit_reject = "explicit reject"

abbrev pub timed_out_shape : String
timed_out_shape = "no terminal message (timeout)"

-- `_shape`
unfoldable pub shape_of : Casing → List FlowMessage → List Procedure → String
unfolding bears_cause
shape_of cs ms failed =
    if any is_reject failed
    then explicit_reject
    else if any (bears_cause cs) ms
    then explicit_reject
    else timed_out_shape

-- An outcome that is neither an accept nor unknown, a missing one included.
abbrev pub has_failed : Procedure → Bool
has_failed p = elim p.outcome [
  | none ↦ true
  | some o ↦ not (str_eq o "accept" || str_eq o "unknown")
]

abbrev pub failed_of : ExportedFlow → List Procedure
failed_of f = keep has_failed f.procedures

abbrev pub has_any : {A : Type 0} → List A → Bool
has_any [] = false
has_any (x ∷ xs) = true

-- The conditions under which a flow is no incident, negated.
unfoldable pub is_incident : ExportedFlow → Bool
is_incident f =
    has_any (failed_of f)
    || (any (λ m. is_some m.nas_cause) f.messages
        || (has_any f.messages && not (has_any f.procedures) || f.partial))

-- The causes' codes but zero, each once.
unfoldable pub codes_of : List FlowMessage → List ℕ
codes_of [] = []
codes_of (m ∷ ms) =
    let rest = codes_of ms in
    elim m.nas_cause [
      | none ↦ rest
      | some c ↦ elim c [ none ↦ rest | some n ↦ if n == 0 then rest else add ℕ_discrete n rest ]
    ]

abbrev pub detail_of : List FlowMessage → Option String
detail_of ms =
    if any (λ m. is_some m.nas_cause) ms
    then some (
        append "cause code(s) observed: "
          (join_texts ", " (map (λ n. append "#" (show n)) (sort_with leb (codes_of ms)))))
    else none

abbrev pub incident_of : Casing → ExportedFlow → Incident
incident_of cs f = record {
  plane = "n2";
  flow_id = f.flow_id;
  procedure = procedure_of cs f (failed_of f);
  shape = shape_of cs f.messages (failed_of f);
  detail = detail_of f.messages;
}

-- `detect_incidents`
unfoldable pub detect_incidents : Casing → List ExportedFlow → List Incident
unfolding is_incident procedure_of shape_of sort_with codes_of
detect_incidents cs [] = []
detect_incidents cs (f ∷ fs) =
    let rest = detect_incidents cs fs in if is_incident f then incident_of cs f ∷ rest else rest

abbrev pub is_timeout : Procedure → Bool
is_timeout p = str_eq (or_blank p.outcome) "timeout"

abbrev pub plane_incident : String → String → (Procedure → Option ℕ) → Procedure → Incident
plane_incident plane what code_of p = record {
  plane = plane;
  flow_id = p.flow_id;
  procedure = or_else (or_blank p.kind) "unknown";
  shape = if is_reject p then explicit_reject else timed_out_shape;
  detail =
      if is_reject p
      then some (append what (elim (code_of p) [ none ↦ "None" | some n ↦ show n ]))
      else none;
}

-- `detect_sbi_incidents`
unfoldable pub detect_sbi_incidents : List Procedure → List Incident
detect_sbi_incidents [] = []
detect_sbi_incidents (p ∷ ps) =
    let rest = detect_sbi_incidents ps in
    if is_reject p || is_timeout p
    then plane_incident "sbi" "SBI status code(s) observed: " (λ q. q.status) p ∷ rest
    else rest

abbrev pub session_kinds : List String
session_kinds =
    "session_establishment" ∷ "session_modification" ∷ "session_deletion" ∷ "session_report" ∷ []

-- `detect_n4_incidents`
unfoldable pub detect_n4_incidents : List Procedure → List Incident
detect_n4_incidents [] = []
detect_n4_incidents (p ∷ ps) =
    let rest = detect_n4_incidents ps in
    if mem String-discrete (or_blank p.kind) session_kinds && (is_reject p || is_timeout p)
    then plane_incident "n4" "PFCP cause code(s) observed: " (λ q. q.cause) p ∷ rest
    else rest
