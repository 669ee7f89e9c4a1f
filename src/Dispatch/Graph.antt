-- ===== src/Dispatch/Graph.antt =====
-- dispatch/dispatch/graph.py: the steps of an incident that change its state, from the evidence to
-- the execution of an approved proposal. The graph library runs them in the order of `build_graph`
-- and keeps the state between them; the specialists' items, and what pydantic accepts, are
-- parameters.
pub mod Safe
pub mod Live
pub mod Rejected
use Prim.Native.Char.{code}
use Prim.Native.String
use Prim.Native.String.{◌++◌ as append}
use package.text.Mathlib.Text.{◌==◌ as str_eq}
use g_pcap.Prelude.{
  ℕ, zero, suc, String, Bool, true, false, not, ◌&&◌, ◌||◌, if◌then◌else◌, ◌==◌, leb, keep, map,
  Option, none, some, List, [], ◌∷◌, ◌++◌,
}
use g_pcap.Prelude.Chars.{is_empty_text, after}
use g_pcap.Prelude.Dict.{Dict}
use g_pcap.Prelude.Text.{truthy}
use g_pcap.Jsonl.{Codec, add_record}
use g_pcap.Dispatch.Json.{Json, null}
use g_pcap.Dispatch.Executor.{
  Sandbox, Digest, Checked, ok, refused, no_proposal, no_hash, hash_mismatch, invalid_episode,
  unknown_decision, no_checkpoint, not_awaiting, step_failed, observe_only_note, dry_run, apply,
  proposal_hash,
}
use g_pcap.Dispatch.Runbook.{Runbook, or_text}
use g_pcap.Dispatch.Proposal.{Selection, Proposer, run_proposal}
use g_pcap.Dispatch.Record.{AlarmEvent, EvidenceItem, Proposal, Incident, dash, render_record}
use g_pcap.Dispatch.Memory.{Episode}
use g_pcap.Dispatch.Correlation.{Evidence, link}

-- What a step reads and changes outside the state: the record's file, the commands that the runner
-- got, the Episode store's file where a store is there, and the rest of the world.
pub record Disk (W : Type 0) : Type 0 where
  pub record_text : Option String
  pub ran : List String
  pub store : Option (Option String)
  pub world : W

-- The libraries: json, pydantic's checks of an Episode's keys and arguments, and the clock.
pub record Libraries (W : Type 0) : Type 0 where
  pub digest : Digest
  pub dumps_args : Dict String Json → String
  pub codec : Codec Episode
  pub valid_keys : List (String × Json) → Option (List (String × Json))
  pub valid_args : Dict String Json → Option (Dict String Json)
  pub now : W → ℕ

-- `_replace_evidence`
unfoldable pub replace_evidence : String → List EvidenceItem → List EvidenceItem → List EvidenceItem
replace_evidence source items evidence = keep (λ e. not (str_eq e.source source)) evidence ++ items

abbrev pub value_or_none : Json → Option Json
value_or_none null = none
value_or_none v = some v

abbrev pub linked_keys : Dict String Json → Dict String (Option Json)
linked_keys [] = []
linked_keys ((k, v) ∷ ks) = (k, value_or_none v) ∷ linked_keys ks

-- The `correlate` step.
unfoldable pub correlate : Discrete Json → Incident → Incident
unfolding link
correlate dec inc = record inc {
  links =
      link dec (map (λ e. record { keys = linked_keys e.keys; ts = e.ts.micros }) inc.evidence)
        (inc.event.start.micros, inc.event.end.micros);
}

-- `[0-9a-f]`
abbrev pub is_hex : ℕ → Bool
is_hex c = leb b'0' c && leb c b'9' || leb b'a' c && leb c b'f'

-- The hexadecimal digits up to a backtick.
unfoldable pub hex_run : String → Option String
hex_run String.[] = none
hex_run (String.◌∷◌ c s) =
    let rest = hex_run s in
    if code c == b'`'
    then some String.[]
    else if is_hex (code c)
    then elim rest [ none ↦ none | some t ↦ some (String.◌∷◌ c t) ]
    else none

abbrev pub not_empty : Option String → Option String
not_empty none = none
not_empty (some s) = if is_empty_text s then none else some s

unfoldable pub hash_here : String → Option String
unfolding after hex_run
hash_here s = elim (after "Proposal hash: `" s) [ none ↦ none | some t ↦ not_empty (hex_run t) ]

-- `_HASH_RE.search` in the record's text.
abbrev pub first_of : Option String → Option String → Option String
first_of none o = o
first_of (some s) o = some s

unfoldable pub find_hash : String → Option String
unfolding hash_here
find_hash String.[] = none
find_hash (String.◌∷◌ c s) = first_of (hash_here (String.◌∷◌ c s)) (find_hash s)

-- `_read_record_hash`; a record that is missing raises too
unfoldable pub read_record_hash : Option String → Option String
unfolding find_hash
read_record_hash none = none
read_record_hash (some t) = find_hash t

module _ {W : Type 0} (lb : Libraries W) (sb : Sandbox) where
  -- `_write_record`
  unfoldable pub write_record : String → List String → Incident → Disk W → Incident × Disk W
  unfolding render_record
  write_record approval lines inc disk =
      let inc' = record inc { approval = approval; execution_log = inc.execution_log ++ lines } in
      (inc', record disk { record_text = some (render_record sb lb.dumps_args inc') })

  -- The Episode of a decided incident, where pydantic accepts it. The event that `gather` keeps has
  -- no scenario: AlarmEvent drops what it does not declare.
  abbrev pub all_keys : List EvidenceItem → List (String × Json)
  all_keys [] = []
  all_keys (e ∷ es) = e.keys ++ all_keys es

  abbrev pub all_causes : List EvidenceItem → List String
  all_causes [] = []
  all_causes (e ∷ es) =
      let rest = all_causes es in if truthy e.cause then or_text "" e.cause ∷ rest else rest

  abbrev pub action_of : Option Proposal → Option String
  action_of none = none
  action_of (some p) = some p.action

  abbrev pub justification_of : Option Proposal → Option String
  justification_of none = none
  justification_of (some p) = some p.justification

  abbrev pub args_of : Option Proposal → Option (Option (Dict String Json))
  args_of none = some none
  args_of (some p) = elim (lb.valid_args p.args) [ none ↦ none | some a ↦ some (some a) ]

  unfoldable pub episode_of : Incident → String → ℕ → Option Episode
  episode_of inc decision now = elim (lb.valid_keys (all_keys inc.evidence)) [
    | none ↦ none
    | some keys ↦ elim (args_of inc.proposal) [
      | none ↦ none
      | some args ↦ some (record {
        incident_id = inc.event.incident_id;
        procedure = inc.event.procedure;
        scenario = none;
        evidence_keys = keys;
        causes = all_causes inc.evidence;
        action = action_of inc.proposal;
        args = args;
        narrative = inc.root_cause;
        justification = justification_of inc.proposal;
        decision = decision;
        outcome = none;
        outcome_evidence = none;
        created_at = now;
      })
    ]
  ]

  abbrev pub store_episode :
      Option Episode → Option String → Incident → Disk W → Checked Incident × Disk W
  store_episode none file inc disk = (refused invalid_episode, disk)
  store_episode (some e) file inc disk =
      (ok inc, record disk { store = some (add_record lb.codec e file) })

  -- `_write_episode`, of the store
  abbrev pub write_to :
      String → Incident → Disk W → Option (Option String) → Checked Incident × Disk W
  write_to decision inc disk none = (ok inc, disk)
  write_to decision inc disk (some file) =
      store_episode (episode_of inc decision (lb.now disk.world)) file inc disk

  unfoldable pub write_episode : String → Incident → Disk W → Checked Incident × Disk W
  write_episode decision inc disk = write_to decision inc disk disk.store

  abbrev pub with_commands : Selection → Checked (List String) → Option Proposal
  with_commands s (refused r) = none
  with_commands s (ok commands) = some (record {
    action = s.action;
    args = s.args;
    justification = s.justification;
    commands = commands;
    hash = proposal_hash lb.digest s.action s.args s.justification;
  })

  -- A selection with its commands and its hash; none where the executor refuses it.
  unfoldable pub rendered : Option Selection → Option Proposal
  unfolding dry_run
  rendered none = none
  rendered (some s) = with_commands s (dry_run sb s.action s.args)

  -- The `propose` step.
  unfoldable pub propose : Proposer W → List Runbook → Incident → Disk W → Incident × Disk W
  unfolding run_proposal rendered write_record
  propose pr rbs inc disk =
      let (selection, world) =
        run_proposal pr sb rbs inc.event.description inc.event.procedure
          (map (λ e. e.keys) inc.evidence) inc.root_cause disk.world in
      write_record "pending" [] (record inc { proposal = rendered selection })
        (record disk { world = world })

  -- The commands of a proposal, without the note that stands for none.
  abbrev pub real_commands : List String → List String
  real_commands cs = keep (λ c. not (str_eq c observe_only_note)) cs

  abbrev pub or_one : String → List String → List String
  or_one s [] = s ∷ []
  or_one s (x ∷ xs) = x ∷ xs

  abbrev pub dry_run_log : List String → List String
  dry_run_log cs =
      or_one (append "dry-run: " observe_only_note) (map (λ c. append "dry-run: " c) cs)

  -- What is written once the decision is carried out: the record, and then the episode.
  abbrev pub conclude : String → List String → Incident → Disk W → Checked Incident × Disk W
  conclude decision lines inc disk =
      let (inc', disk') = write_record decision lines inc disk in write_episode decision inc' disk'

  abbrev pub executed :
      List String → Incident → Disk W → Checked (List String) → Checked Incident × Disk W
  executed log inc disk (refused r) = (refused r, disk)
  executed log inc disk (ok commands) =
      conclude "approved-executed" (log ++ map (λ c. append "executed: " c) commands) inc
        (record disk { ran = disk.ran ++ commands })

  -- An approval, carried out or only shown.
  unfoldable pub approve : Bool → Proposal → Incident → Disk W → Checked Incident × Disk W
  unfolding apply
  approve execute' p inc disk =
      let commands = real_commands p.commands in
      let log = dry_run_log commands in
      if execute'
      then executed log inc disk (apply sb p.action p.args commands)
      else conclude "approved-dry-run" log inc disk

  abbrev pub reject : Incident → Disk W → Checked Incident × Disk W
  reject inc disk = conclude "rejected" ("rejected: no commands applied" ∷ []) inc disk

  abbrev pub same_hash : Option String → Proposal → Checked Proposal
  same_hash none p = refused no_hash
  same_hash (some h) p = if str_eq h p.hash then ok p else refused hash_mismatch

  abbrev pub decide :
      String → Bool → Incident → Disk W → Checked Proposal → Checked Incident × Disk W
  decide decision execute' inc disk (refused r) = (refused r, disk)
  decide decision execute' inc disk (ok p) =
      if str_eq decision "reject" then reject inc disk else approve execute' p inc disk

  -- The `execute` step.
  abbrev pub execute_proposal :
      String → Bool → Incident → Disk W → Option Proposal → Checked Incident × Disk W
  execute_proposal decision execute' inc disk none =
      if str_eq decision "reject" then reject inc disk else (refused no_proposal, disk)
  execute_proposal decision execute' inc disk (some p) =
      decide decision execute' inc disk (same_hash (read_record_hash disk.record_text) p)

  unfoldable pub execute : String → Bool → Incident → Disk W → Checked Incident × Disk W
  execute decision execute' inc disk = execute_proposal decision execute' inc disk inc.proposal

  -- What the checkpointer holds for an incident: nothing, the end, the approval that is awaited, an
  -- `execute` step that raised, with the decision that it was given, or an earlier step that raised,
  -- with what the steps from it to `investigate` give.
  pub data Checkpoint : Type 0 where
    missing finished : Checkpoint
    awaiting : Incident → Checkpoint
    halted : String → Bool → Incident → Checkpoint
    gathering : (W → Option Incident × W) → Proposer W → List Runbook → Checkpoint

  abbrev pub propose_gathered :
      Proposer W → List Runbook → Option Incident → Disk W → Checked Incident × Disk W
  propose_gathered pr rbs none disk = (refused step_failed, disk)
  propose_gathered pr rbs (some inc) disk =
      let (inc', disk') = propose pr rbs inc disk in (ok inc', disk')

  -- `run_approval`, with the steps that it resumes: `approval` takes the decision and `execute`
  -- follows; an `execute` that raised is run again with the decision that the state holds, and the
  -- new one is not read; the steps before the approval stop at it.
  unfoldable pub resume : String → Bool → Disk W → Checkpoint → Checked Incident × Disk W
  unfolding execute propose
  resume decision execute' disk missing = (refused no_checkpoint, disk)
  resume decision execute' disk finished = (refused not_awaiting, disk)
  resume decision execute' disk (awaiting inc) = execute decision execute' inc disk
  resume decision execute' disk (halted decided execute'' inc) = execute decided execute'' inc disk
  resume decision execute' disk (gathering steps pr rbs) =
      let (gathered, world) = steps disk.world in
      propose_gathered pr rbs gathered (record disk { world = world })

  unfoldable pub run_approval : Checkpoint → String → Bool → Disk W → Checked Incident × Disk W
  unfolding resume
  run_approval cp decision execute' disk =
      if str_eq decision "approve" || str_eq decision "reject"
      then resume decision execute' disk cp
      else (refused unknown_decision, disk)

  -- What the checkpointer holds once `execute` has run: the end, or the step that raised.
  abbrev pub held : String → Bool → Incident → Checked Incident → Checkpoint
  held decision execute' inc (ok inc') = finished
  held decision execute' inc (refused r) = halted decision execute' inc

  -- What it holds once the steps before the approval have run.
  abbrev pub held_gathered :
      (W → Option Incident × W) → Proposer W → List Runbook → Checked Incident → Checkpoint
  held_gathered steps pr rbs (ok inc) = awaiting inc
  held_gathered steps pr rbs (refused r) = gathering steps pr rbs

  abbrev pub held_after : String → Bool → Checkpoint → Checked Incident → Checkpoint
  held_after decision execute' missing r = missing
  held_after decision execute' finished r = finished
  held_after decision execute' (awaiting inc) r = held decision execute' inc r
  held_after decision execute' (halted decided execute'' inc) r = held decided execute'' inc r
  held_after decision execute' (gathering steps pr rbs) r = held_gathered steps pr rbs r

  -- One call of `run_approval`, with what the checkpointer holds before and after it.
  unfoldable pub approval_call : String → Bool → Checkpoint × Disk W → Checkpoint × Disk W
  unfolding run_approval
  approval_call decision execute' (cp, disk) =
      let (r, disk') = run_approval cp decision execute' disk in
      (
        if str_eq decision "approve" || str_eq decision "reject"
            then held_after decision execute' cp r
            else cp,
        disk',
      )

  -- The calls of the operators, one after the other.
  unfoldable pub approval_calls : List (String × Bool) → Checkpoint × Disk W → Checkpoint × Disk W
  unfolding approval_call
  approval_calls [] s = s
  approval_calls ((decision, execute') ∷ cs) s =
      approval_calls cs (approval_call decision execute' s)
