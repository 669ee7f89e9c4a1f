-- ===== src/Triage/Objective.antt =====
-- triage/triage/search.py: the objective of a search, with the past episodes that are relevant to an
-- incident (`objective_text`, `memory_context`, `_procedure_of`).
use Prim.Native.String.{◌++◌ as append}
use package.text.Mathlib.Text.{◌==◌ as str_eq}
use g_pcap.Prelude.{
  ℕ, suc, ◌+◌, ◌*◌, String, Bool, false, ◌&&◌, ◌||◌, if◌then◌else◌, ◌==◌, leb, ltb, keep, length,
  map, Option, none, some, List, [], ◌∷◌, ◌++◌, ℕ_discrete,
}
use g_pcap.Prelude.Chars.{join_texts, is_empty_text, starts_with}
use g_pcap.Prelude.Order.{sort_with, take}
use g_pcap.Prelude.Sets.{mem, add}
use g_pcap.Prelude.Text.{String-discrete, truthy, show}
use g_pcap.Triage.Export.{FlowMessage, ExportedFlow}
use g_pcap.Triage.Incidents.{Incident, or_blank}
use g_pcap.Triage.Memory.{CitedEvidence, Episode, Clock, cause_part}

-- `_procedure_of`
unfoldable pub procedure_of_type : String → Option String
unfolding starts_with
procedure_of_type t =
    if starts_with "auth" t || starts_with "registration" t
    then some "Registration"
    else if starts_with "pdu_session" t
    then some "PDU Session"
    else if str_eq t "sbi_udm_timeout"
    then some "Registration"
    else if str_eq t "sbi_nssf_reject" || str_eq t "n4_upf_timeout"
    then some "PDU Session"
    else none

abbrev pub add_name : Option String → List String → List String
add_name o names = if truthy o then add String-discrete (or_blank o) names else names

-- The names and the causes but zero of a flow's messages, as sets.
unfoldable pub names_of : List FlowMessage → List String → List String
names_of [] names = names
names_of (m ∷ ms) names =
    names_of ms (add_name m.ngap (add_name m.nas (add_name m.nas_inner names)))

abbrev pub add_cause : Option (Option ℕ) → List ℕ → List ℕ
add_cause none causes = causes
add_cause (some none) causes = causes
add_cause (some (some c)) causes = if c == 0 then causes else add ℕ_discrete c causes

unfoldable pub causes_in : List FlowMessage → List ℕ → List ℕ
causes_in [] causes = causes
causes_in (m ∷ ms) causes = causes_in ms (add_cause m.nas_cause causes)

abbrev pub messages_in : Option ExportedFlow → List FlowMessage
messages_in none = []
messages_in (some f) = f.messages

-- The sets of what an episode cites.
unfoldable pub cited_causes : List CitedEvidence → List ℕ → List ℕ
cited_causes [] seen = seen
cited_causes (ev ∷ evs) seen =
    cited_causes evs (elim ev.cause [ none ↦ seen | some c ↦ add ℕ_discrete c seen ])

unfoldable pub cited_names : List CitedEvidence → List String → List String
cited_names [] seen = seen
cited_names (ev ∷ evs) seen = cited_names evs (add String-discrete ev.message seen)

abbrev pub is_procedure : String → Option String → Bool
is_procedure procedure none = false
is_procedure procedure (some p) = str_eq p procedure

-- The score of an episode; an incident always names its procedure.
unfoldable pub similarity : String → List ℕ → List String → Episode → ℕ
unfolding procedure_of_type cited_causes cited_names
similarity procedure causes names e =
    3 * length (keep (λ c. mem ℕ_discrete c causes) (cited_causes e.cited_evidence []))
    + length (keep (λ n. mem String-discrete n names) (cited_names e.cited_evidence []))
    + (if is_procedure procedure (procedure_of_type e.incident_type) then 2 else 0)

unfoldable pub similar : String → List ℕ → List String → List Episode → List (ℕ × Episode)
unfolding similarity
similar procedure causes names [] = []
similar procedure causes names (e ∷ es) =
    let rest = similar procedure causes names es in
    if leb 2 (similarity procedure causes names e)
    then (similarity procedure causes names e, e) ∷ rest
    else rest

abbrev pub more_similar : ℕ × Episode → ℕ × Episode → Bool
more_similar p q = ltb q.0 p.0 || p.0 == q.0 && leb q.1.created_at p.1.created_at

abbrev pub cited_part : CitedEvidence → String
cited_part ev = append ev.message (cause_part ev.cause)

unfoldable pub similar_lines : Clock → ℕ → List (ℕ × Episode) → List String
unfolding join_texts
similar_lines ck i [] = []
similar_lines ck i ((s, e) ∷ ps) =
    join_texts "" ("[" ∷ show i ∷ "] " ∷ e.incident_type ∷ "  " ∷ ck.iso e.created_at ∷ [])
    ∷ append "    " e.narrative
    ∷ append "    cited: " (join_texts "; " (map cited_part e.cited_evidence))
    ∷ similar_lines ck (suc i) ps

abbrev pub similar_text : Clock → ℕ → List (ℕ × Episode) → String
similar_text ck total [] = ""
similar_text ck total (p ∷ ps) = join_texts "\n" (
    join_texts "" (
      "Past similar incidents retrieved from episodic memory ("
      ∷ show (length (p ∷ ps))
      ∷ " of "
      ∷ show total
      ∷ " Episode(s)):"
      ∷ [])
    ∷ similar_lines ck 1 (take 3 (sort_with more_similar (p ∷ ps))))

-- `memory_context`, of the episodes in the store
unfoldable pub past_context : Clock → List Episode → Incident → Option ExportedFlow → String
unfolding similar names_of causes_in similar_lines sort_with join_texts
past_context ck es incident flow = similar_text ck (length es) (
    similar incident.procedure (causes_in (messages_in flow) []) (names_of (messages_in flow) [])
      es)

abbrev pub is_own_plane : String → Bool
is_own_plane plane = str_eq plane "sbi" || str_eq plane "n4"

abbrev pub plane_label : String → String
plane_label plane = if str_eq plane "n4" then "N4" else "SBI"

abbrev pub correlated_line : String → Option ℕ → List String
correlated_line plane none = []
correlated_line plane (some n) =
    join_texts "" (
      "Correlated flow: this procedure is part of flow "
      ∷ show n
      ∷ "'s signaling — inspect flow:"
      ∷ show n
      ∷ " alongside the "
      ∷ plane_label plane
      ∷ " handles."
      ∷ [])
    ∷ []

abbrev pub plane_lines : Incident → List String
plane_lines inc =
    join_texts "" (
      "Explain why the "
      ∷ inc.procedure
      ∷ " procedure failed on the "
      ∷ plane_label inc.plane
      ∷ " plane in this decoded 5G capture."
      ∷ [])
    ∷ correlated_line inc.plane inc.flow_id

abbrev pub flow_lines : Incident → ℕ → List String
flow_lines inc n =
    join_texts "" (
      "Explain the failure incident in flow "
      ∷ show n
      ∷ " ("
      ∷ inc.procedure
      ∷ ") in this decoded 5G capture."
      ∷ [])
    ∷ []

-- What the objective opens with.
unfoldable pub opening : Incident → Option ℕ → List String
unfolding join_texts
opening inc none = plane_lines inc
opening inc (some n) = if is_own_plane inc.plane then plane_lines inc else flow_lines inc n

abbrev pub shape_lines : String → List String
shape_lines shape =
    (if is_empty_text shape then [] else join_texts "" ("Failure shape: " ∷ shape ∷ "." ∷ []) ∷ [])
    ++ (if str_eq shape "no terminal message (timeout)"
        then "There is no reject message and no terminal procedure record to find: the failure is an absence. Inspect what did arrive, then finalize on that evidence instead of waiting for a reject that never comes."
          ∷ []
        else [])

abbrev pub detail_lines : Option String → List String
detail_lines d =
    if truthy d then join_texts "" ("Incident detail: " ∷ or_blank d ∷ "." ∷ []) ∷ [] else []

abbrev pub memory_lines : String → List String
memory_lines memory =
    if is_empty_text memory
    then []
    else memory
      ∷ "These memory entries are context only: cited_evidence must still cite messages decoded in THIS capture."
      ∷ []

-- `objective_text`
unfoldable pub objective_text : Incident → String → String
unfolding opening join_texts
objective_text inc memory = join_texts "\n" (
    opening inc inc.flow_id
    ++ (shape_lines inc.shape
        ++ (detail_lines inc.detail
            ++ (memory_lines memory
                ++ "Take one action per step. Actions: \"inspect <handle>\" (kpis, flows, flow:<id>, flow:<id>:<i>, unassociated[:<i>], n4[:<i>], sbi[:<i>]), \"topology\", \"spec <question>\", \"memory [incident_type=... message=... cause=...]\", or \"finalize <episode JSON>\". Finish with finalize once the evidence supports a root cause; its JSON must have incident_type (one of auth_failure, registration_reject, registration_timeout, pdu_session_reject_slice, pdu_session_reject_other, pdu_session_timeout, pdu_session_rsp_timeout, sbi_udm_timeout, sbi_nssf_reject, n4_upf_timeout), narrative, and cited_evidence."
                  ∷ []))))
