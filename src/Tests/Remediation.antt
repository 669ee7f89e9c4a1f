-- ===== src/Tests/Remediation.antt =====
-- Runs of dispatch/dispatch: runbooks, proposals, the executor, the root cause and the graph's
-- steps, in a sandbox with two services.
use g_pcap.Prelude.{
  ℕ, ◌≤◌, ◌≡◌, refl, leb, ◌&&◌, String, true, false, ◌↔◌, length, Option, none, some, [], ◌∷◌,
}
use g_pcap.Prelude.Chars.{
  strip, strip_by, lstrip_by, rstrip_by, partition, starts_in, ends_in, starts_with, after, before,
}
use g_pcap.Prelude.Dict.{get}
use g_pcap.Prelude.Sets.{mem}
use g_pcap.Prelude.Text.{String-discrete, show}
use g_pcap.Dispatch.Json.{Json, text, dict, list, cons, nil, member, end}
use g_pcap.Dispatch.Executor.{
  Sandbox, ok, refused, unknown_service, core_services, all_chars, is_imsi, render_restart,
  render_revert, render_reseed, render_rerun, render, dry_run, proposal_hash,
}
use g_pcap.Dispatch.Executor.Templates.{AllTemplates, render-AllTemplates}
use g_pcap.Dispatch.Runbook.{Runbook, score, evidence_keys, match_runbooks}
use g_pcap.Dispatch.Runbook.Parse.{
  frontmatter, all_known, scalars, prose, steps_of, resolution_of, runbook_of, parse_runbook,
  load_runbooks,
}
use g_pcap.Dispatch.Runbook.Matches.{AreRanked, match_runbooks-AreRanked}
use g_pcap.Dispatch.Proposal.{Selection}
use g_pcap.Dispatch.Record.{AlarmEvent, EvidenceItem, Incident}
use g_pcap.Dispatch.RootCause.{
  Reading, Hypothesis, ground_fields, grounded_episode, as_json, finalize, run_tool, execute_action,
  dispatch_steps, conclude_search, run_root_cause,
}
use g_pcap.Dispatch.RootCause.Grounded.{IsGrounded, run-IsGrounded}
use g_pcap.Dispatch.RootCause.Told.{IsTold, run_root_cause-IsTold}
use g_pcap.Dispatch.Graph.{
  Disk, Libraries, hex_run, hash_here, find_hash, read_record_hash, rendered, execute, awaiting,
  halted, resume, run_approval, approval_calls,
}
use g_pcap.Dispatch.Graph.Safe.{ResumesAllowed, run_approval-ResumesAllowed}
use g_pcap.Dispatch.Graph.Rejected.{approval_calls-rejected}
use g_pcap.Dispatch.Graph.Live.{execute-rendered}
use g_pcap.Triage.Search.Action.{parse_action, clean_argument}
use g_pcap.Triage.Search.Rollout.{Steps}
use g_pcap.Triage.Search.Run.{SearchResult, run}
use g_pcap.Tests.Search.{whole, settings, program as search_program}

abbrev pub sandbox : Sandbox
sandbox = record {
  root = "/lab";
  compose_text = some "services";
  services_block = λ t. some "amf upf";
  service_names = λ b. "amf" ∷ "upf" ∷ [];
  path_text = λ s. s;
  resolve_below = λ s. s;
  resolved_root = "/lab";
  separator = "/";
  is_decimal = λ c. leb b'0' c && leb c b'9';
  show_value = λ v. "value";
}

program : Unit {0}
unfolding render render_restart render_revert render_reseed render_rerun core_services is_imsi
    all_chars starts_with mem String-discrete dry_run rendered read_record_hash find_hash hash_here
    hex_run after proposal_hash get
program = tt

restart_upf :
    render sandbox "restart_nf" (("nf", text "upf") ∷ [])
    ≡ ok ("docker compose --project-directory /lab/core restart upf" ∷ [])
unfolding program
restart_upf = refl

restart_other : render sandbox "restart_nf" (("nf", text "dns") ∷ []) ≡ refused unknown_service
unfolding program
restart_other = refl

-- A path below the root may hold what a shell reads as a second command.
revert_two :
    render sandbox "revert_config" (("path", text "/lab/a; reboot") ∷ [])
    ≡ ok ("git -C /lab checkout -- /lab/a; reboot" ∷ [])
unfolding program
revert_two = refl

render-AllTemplates_example :
    AllTemplates sandbox (render sandbox "restart_nf" (("nf", text "upf") ∷ []))
render-AllTemplates_example = render-AllTemplates sandbox "restart_nf" (("nf", text "upf") ∷ [])

abbrev runbook : Runbook
runbook = record {
  slug = "upf-down";
  title = "UPF";
  procedure = some "pdu_session";
  added = none;
  symptoms = ("nf", text "upf") ∷ [];
  steps = [];
  resolution = record { action = "restart_nf"; args = [] };
}

match_runbooks-AreRanked_example :
    (length (
        match_runbooks sandbox (runbook ∷ []) (some "pdu_session") ((("nf", text "upf") ∷ []) ∷ []))
      ≤ 3)
    × AreRanked
        (score sandbox "pdu_session" (evidence_keys sandbox ((("nf", text "upf") ∷ []) ∷ [])))
        (match_runbooks sandbox
          (runbook ∷ [])
          (some "pdu_session")
          ((("nf", text "upf") ∷ []) ∷ []))
match_runbooks-AreRanked_example =
    match_runbooks-AreRanked sandbox (runbook ∷ []) (some "pdu_session")
      ((("nf", text "upf") ∷ []) ∷ [])

abbrev event : AlarmEvent
event = record {
  incident_id = "INC-1";
  detected_at = record { micros = 5; shown = "5e-06" };
  source = "human";
  procedure = some "pdu_session";
  start = record { micros = 0; shown = "0.0" };
  end = record { micros = 9; shown = "9e-06" };
  description = "sessions fail";
  captures = [];
}

abbrev found_line : EvidenceItem
found_line = record {
  source = "log";
  kind = "error";
  ts = record { micros = 3; shown = "3e-06" };
  entry = "upf exited";
  cause = none;
  keys = ("nf", text "upf") ∷ [];
  citation = "log:1";
  line = none;
}

abbrev selection : Selection
selection = record {
  action = "restart_nf";
  args = ("nf", text "upf") ∷ [];
  justification = "it exited";
}

abbrev libraries : Libraries ℕ
libraries = record {
  digest = record { dumps = λ action args why. action; sha256_hex = λ s. "ab12" };
  dumps_args = λ args. "{}";
  codec = record { dump = λ e. "e"; parse = λ s. none };
  valid_keys = λ ks. some ks;
  valid_args = λ args. some args;
  now = λ w. w;
}

abbrev incident : Incident
incident = record {
  event = event;
  evidence = found_line ∷ [];
  links = [];
  root_cause = "the UPF exited";
  proposal = rendered libraries sandbox (some selection);
  approval = "pending";
  execution_log = [];
}

abbrev disk : Disk ℕ
disk = record { record_text = some "Proposal hash: `ab12`"; ran = []; store = some none; world = 7 }

hash_read : read_record_hash (some "Proposal hash: `ab12`") ≡ some "ab12"
unfolding program
hash_read = refl

hash_of : proposal_hash libraries.digest "restart_nf" (("nf", text "upf") ∷ []) "it exited" ≡ "ab12"
unfolding program
hash_of = refl

run_approval-ResumesAllowed_example :
    ResumesAllowed libraries sandbox
      (awaiting incident)
      "approve"
      true
      disk
      (run_approval libraries sandbox (awaiting incident) "approve" true disk)
run_approval-ResumesAllowed_example =
    run_approval-ResumesAllowed libraries sandbox (awaiting incident) "approve" true disk

-- Where `execute` had raised after an approval, a rejection runs what was approved.
late_rejection :
    (run_approval libraries sandbox (halted "approve" true incident) "reject" false disk).1.ran
    ≡ "docker compose --project-directory /lab/core restart upf" ∷ []
unfolding run_approval resume proposal_hash
late_rejection =
    execute-rendered libraries sandbox selection
      ("docker compose --project-directory /lab/core restart upf" ∷ []) incident disk restart_upf
      refl hash_read

approval_calls-rejected_example :
    (approval_calls libraries sandbox
      (("reject", false) ∷ ("approve", true) ∷ [])
      (awaiting incident, disk)).1.ran
    ≡ []
approval_calls-rejected_example =
    approval_calls-rejected libraries sandbox false (("approve", true) ∷ []) incident disk

execute-rendered_example :
    (execute libraries sandbox "approve" true incident disk).1.ran
    ≡ "docker compose --project-directory /lab/core restart upf" ∷ []
unfolding proposal_hash
execute-rendered_example =
    execute-rendered libraries sandbox selection
      ("docker compose --project-directory /lab/core restart upf" ∷ []) incident disk restart_upf
      refl hash_read

-- The model finalizes at once, with one claim that the inventory has.
abbrev claim : Json
claim = dict (member "citation" (text "log:1") end)

abbrev hypothesis : Hypothesis
hypothesis = record { narrative = "the UPF exited"; cited_evidence = claim ∷ [] }

abbrev reading : Reading
reading = record { loads = λ s. some (as_json hypothesis); lower = λ s. s }

abbrev models : Steps ℕ Hypothesis ℕ
models = record {
  expand = λ objective trajectory n w. (some ("finalize {}" ∷ []), w);
  evaluate = λ objective trajectory w. (some (1, "complete"), w);
  execute = λ action w. (("", none), w);
}

abbrev injected : String → ℕ → Option Json × ℕ
injected objective w = (some (as_json hypothesis), w)

abbrev one_round : SearchResult ℕ Hypothesis
one_round = record {
  episode = some hypothesis;
  reward = 1;
  trajectory =
      ("finalize {}", "finalize accepted: hypothesis grounded in 1 evidence item(s).") ∷ [];
  rollouts = 1;
}

search_run :
    (run whole (dispatch_steps sandbox reading (found_line ∷ []) [] models) settings 3 0).0
    ≡ some one_round
unfolding program search_program dispatch_steps execute_action run_tool finalize grounded_episode
    ground_fields parse_action clean_argument partition strip strip_by lstrip_by rstrip_by starts_in
    ends_in show
search_run = refl

run-IsGrounded_example :
    IsGrounded (found_line ∷ []) hypothesis
    × (conclude_search (found_line ∷ []) (some (as_json hypothesis)) ≡ hypothesis.narrative)
run-IsGrounded_example =
    run-IsGrounded (found_line ∷ []) whole models settings sandbox reading [] 3 0 one_round
      hypothesis search_run refl

run_root_cause-IsTold_example :
    ((run_root_cause sandbox (λ n. "date") injected none event (found_line ∷ []) [] 0).0
      ≡ "the UPF exited")
    ↔ IsTold (found_line ∷ []) (some (as_json hypothesis)) "the UPF exited"
run_root_cause-IsTold_example =
    run_root_cause-IsTold sandbox (λ n. "date") injected none event (found_line ∷ []) [] 0
      "the UPF exited" refl

-- A file's frontmatter as YAML reads it.
abbrev pub runbook_yaml : String → Option Json
runbook_yaml s = some (
    dict (
      member "slug" (text "x") (
        member "title" (text "X") (
          member "steps" (list (cons (text "look") nil))
            (member "resolution" (dict (member "action" (text "observe_only") end)) end)))))

runbook_loaded :
    load_runbooks sandbox runbook_yaml ("---\nslug: x\n---\n" ∷ "no frontmatter" ∷ [])
    ≡ record {
      slug = "x";
      title = "X";
      procedure = none;
      added = none;
      symptoms = [];
      steps = "look" ∷ [];
      resolution = record { action = "observe_only"; args = [] };
    }
      ∷ []
unfolding program load_runbooks parse_runbook frontmatter before all_known runbook_of steps_of prose
    resolution_of scalars
runbook_loaded = refl
