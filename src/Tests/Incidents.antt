-- ===== src/Tests/Incidents.antt =====
-- Runs of triage/triage/incidents.py and dispatch/dispatch/learning.py: one flow with a rejected
-- registration, and one episode without a procedure.
use g_pcap.Prelude.{◌≡◌, refl, true, false, none, some, [], ◌∷◌, All, In, inl}
use g_pcap.Triage.Export.{Procedure, ExportedFlow}
use g_pcap.Triage.Incidents.{Casing, incident_of, detect_incidents, explicit_reject}
use g_pcap.Triage.Incidents.Failed.{detect_incidents_rejected}
use g_pcap.Dispatch.Runbook.{Runbook}
use g_pcap.Dispatch.Runbook.Parse.{load_runbooks}
use g_pcap.Dispatch.Runbook.Parse.Valid.{IsValid, load_runbooks-IsValid}
use g_pcap.Dispatch.Learning.{matching_runbook}
use g_pcap.Dispatch.Learning.Covered.{matching_runbook_same}
use g_pcap.Tests.Remediation.{sandbox, runbook_yaml}
use g_pcap.Tests.Stores.{decided}

abbrev casing : Casing
casing = record { title = λ s. s; lower = λ s. s }

abbrev rejected : Procedure
rejected = record {
  kind = some "registration";
  outcome = some "reject";
  flow_id = none;
  status = none;
  cause = some 111;
}

abbrev flow : ExportedFlow
flow = record { flow_id = some 1; messages = []; procedures = rejected ∷ []; partial = false }

detect_incidents_rejected_example :
    In (incident_of casing flow) (detect_incidents casing (flow ∷ []))
    × ((incident_of casing flow).shape ≡ explicit_reject)
detect_incidents_rejected_example =
    detect_incidents_rejected casing (flow ∷ []) flow rejected (inl refl) (inl refl) refl

abbrev general : Runbook
general = record {
  slug = "any";
  title = "Any";
  procedure = some "";
  added = none;
  symptoms = [];
  steps = "look" ∷ [];
  resolution = record { action = "observe_only"; args = [] };
}

general_covers : matching_runbook sandbox (general ∷ []) decided ≡ true
general_covers = matching_runbook_same sandbox (general ∷ []) general decided (inl refl) refl

load_runbooks-IsValid_example :
    All IsValid (load_runbooks sandbox runbook_yaml ("---\nslug: x\n---\n" ∷ "no frontmatter" ∷ []))
load_runbooks-IsValid_example =
    load_runbooks-IsValid sandbox runbook_yaml ("---\nslug: x\n---\n" ∷ "no frontmatter" ∷ [])
