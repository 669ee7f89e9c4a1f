-- ===== src/Tests/Tools.antt =====
-- Runs of triage's execute step: a capture with one rejected registration, and an episode that cites
-- the reject.
use g_pcap.Prelude.{ℕ, ◌≡◌, refl, false, String, Option, none, some, [], ◌∷◌}
use g_pcap.Prelude.Chars.{
  strip, strip_by, lstrip_by, rstrip_by, partition, starts_in, ends_in, is_space,
}
use g_pcap.Prelude.Dict.{put}
use g_pcap.Prelude.Keys.{Option-discrete, pair_discrete}
use g_pcap.Prelude.Text.{show, String-discrete}
use g_pcap.Triage.Export.{FlowMessage, DecodedCapture}
use g_pcap.Triage.Memory.{Episode}
use g_pcap.Triage.Search.Action.{parse_action, clean_argument}
use g_pcap.Triage.Search.Rollout.{Steps}
use g_pcap.Triage.Search.Run.{SearchResult, run}
use g_pcap.Triage.Tools.{
  Tools, MessageKey-discrete, add_entry, add_messages, add_flows_messages, add_unassociated, add_n4,
  add_sbi, message_inventory, has_match, is_grounded, grounded_of, grounded_evidence, finalize,
  run_tool, execute_action, lats_steps,
}
use g_pcap.Triage.Tools.Grounded.{IsGrounded, run-Grounds}
use g_pcap.Tests.Search.{whole, settings, program}

abbrev message : String → ℕ → Option (Option ℕ) → FlowMessage
message nas ts cause = record {
  ngap = some "DownlinkNASTransport";
  nas = some nas;
  nas_inner = none;
  nas_cause = cause;
  ts = some ts;
}

abbrev capture : DecodedCapture
capture = record {
  flows =
      record {
        flow_id = some 1;
        messages =
            message "RegistrationRequest" 1000 none
            ∷ message "RegistrationReject" 9000 (some (some 111))
            ∷ [];
        procedures = [];
        partial = false;
      }
      ∷ [];
  unassociated = [];
  n4_messages = [];
  n4_procedures = [];
  sbi_messages = [];
  sbi_procedures = [];
}

abbrev hypothesis : Episode
hypothesis = record {
  incident_type = "registration_reject";
  narrative = "the core rejects the registration";
  cited_evidence = record { message = "RegistrationReject"; cause = some 111; ts = some 9100 } ∷ [];
  created_at = 1;
}

abbrev tools : Tools
tools = record {
  inspect = λ cap argument. "flows";
  topology = λ cap. "topology";
  spec = λ q. "spec";
  memory = λ kwargs. "memory";
  validate = λ s. some hypothesis;
  validation_error = λ s. "";
  lower = λ s. s;
  to_int = λ s. some s;
}

abbrev models : Steps ℕ Episode ℕ
models = record {
  expand = λ objective trajectory n w. (some ("finalize {}" ∷ []), w);
  evaluate = λ objective trajectory w. (some (1, "complete"), w);
  execute = λ action w. (("", none), w);
}

abbrev one_round : SearchResult ℕ Episode
one_round = record {
  episode = some hypothesis;
  reward = 1;
  trajectory =
      ("finalize {}", "finalize accepted: hypothesis grounded in 1 evidence item(s).") ∷ [];
  rollouts = 1;
}

grounded_search : (run whole (lats_steps tools capture models) settings 3 0).0 ≡ some one_round
unfolding program lats_steps execute_action run_tool finalize grounded_evidence grounded_of
    is_grounded has_match message_inventory add_sbi add_n4 add_unassociated add_flows_messages
    add_messages add_entry MessageKey-discrete put parse_action clean_argument partition strip
    strip_by lstrip_by rstrip_by is_space starts_in ends_in show String-discrete Option-discrete
    pair_discrete
grounded_search = refl

run-Grounds_example : IsGrounded (message_inventory capture) hypothesis.cited_evidence
run-Grounds_example =
    run-Grounds tools capture whole models settings 3 0 one_round hypothesis grounded_search refl
