-- ===== src/Dispatch/Graph/Safe.antt =====
-- What is run, and when (dispatch/dispatch/graph.py, `run_approval` and its `execute` step).
use package.text.Mathlib.Text.{◌==◌ as str_eq}
use package.text.Mathlib.TextEquality.{eq_iff}
use g_pcap.Prelude.{
  String, Bool, true, false, ◌≡◌, refl, sym, ap, ◌∙◌, ◌||◌, Option, none, some, List, [], ◌∷◌, ◌++◌,
  ◌⊎◌, if_cases, Bool-cases, inl, inr, arith, All,
}
use g_pcap.Dispatch.Executor.{
  Sandbox, Checked, ok, refused, no_proposal, unknown_decision, render, apply,
}
use g_pcap.Dispatch.Executor.Templates.{
  IsTemplate, AllTemplates, render-AllTemplates, apply-rendered,
}
use g_pcap.Dispatch.Record.{Proposal, Incident}
use g_pcap.Dispatch.Memory.{Episode}
use g_pcap.Dispatch.Runbook.{Runbook}
use g_pcap.Dispatch.Proposal.{Proposer}
use g_pcap.Dispatch.Graph.{
  Disk, Libraries, read_record_hash, write_record, episode_of, store_episode, write_to,
  write_episode, real_commands, dry_run_log, conclude, executed, approve, reject, same_hash, decide,
  execute_proposal, execute, Checkpoint, missing, finished, awaiting, halted, gathering, propose,
  propose_gathered, resume, run_approval,
}

module _ {W : Type 0} (lb : Libraries W) (sb : Sandbox) where
  store_episode-ran :
      (o : Option Episode) (file : Option String) (inc : Incident) (disk : Disk W)
      → (store_episode lb sb o file inc disk).1.ran ≡ disk.ran
  store_episode-ran none file inc disk = refl
  store_episode-ran (some e) file inc disk = refl

  write_to-ran :
      (decision : String) (inc : Incident) (disk : Disk W) (store : Option (Option String))
      → (write_to lb sb decision inc disk store).1.ran ≡ disk.ran
  write_to-ran decision inc disk none = refl
  write_to-ran decision inc disk (some file) =
      store_episode-ran (episode_of lb sb inc decision (lb.now disk.world)) file inc disk

  write_episode-ran :
      (decision : String) (inc : Incident) (disk : Disk W)
      → (write_episode lb sb decision inc disk).1.ran ≡ disk.ran
  unfolding write_episode
  write_episode-ran decision inc disk = write_to-ran decision inc disk disk.store

  pub conclude-ran :
      (decision : String) (lines : List String) (inc : Incident) (disk : Disk W)
      → (conclude lb sb decision lines inc disk).1.ran ≡ disk.ran
  unfolding write_record
  conclude-ran decision lines inc disk =
      let r = write_record lb sb decision lines inc disk in write_episode-ran decision r.0 r.1

  -- The commands that a step may run: those of the incident's proposal as the sandbox renders it,
  -- on an approval to be carried out, with the proposal's hash in the record.
  pub record IsAllowed (decision : String) (execute' : Bool) (inc : Incident) (disk : Disk W)
      (commands : List String) : Type 0 where
    pub proposal : Proposal
    pub recorded : inc.proposal ≡ some proposal
    pub approved : str_eq decision "reject" ≡ false
    pub to_execute : execute' ≡ true
    pub same : read_record_hash disk.record_text ≡ some proposal.hash
    pub rendered : render sb proposal.action proposal.args ≡ ok commands
    pub templates : All (IsTemplate sb) commands

  -- Nothing more was run, or what was run is allowed.
  abbrev pub RunsAllowed : String → Bool → Incident → Disk W → Checked Incident × Disk W → Type 0
  RunsAllowed decision execute' inc disk r =
      (r.1.ran ≡ disk.ran)
      ⊎ ((commands : List String) × IsAllowed decision execute' inc disk commands
          × (r.1.ran ≡ disk.ran ++ commands))

  templates_of :
      (cs : List String) (r : Checked (List String))
      → AllTemplates sb r
      → r ≡ ok cs
      → All (IsTemplate sb) cs
  templates_of cs (refused e) h q = cc
  templates_of cs (ok ds) h q = let same : ds ≡ cs = cc in rw (sym same) h

  module _ (decision : String) (execute' : Bool) (inc : Incident) (disk : Disk W) (p : Proposal)
      (recorded : inc.proposal ≡ some p) (approved : str_eq decision "reject" ≡ false)
      (same : read_record_hash disk.record_text ≡ some p.hash) where
    executed-RunsAllowed :
        (to_execute : execute' ≡ true) (log cs : List String) (r : Checked (List String))
        → apply sb p.action p.args cs ≡ r
        → RunsAllowed decision execute' inc disk (executed lb sb log inc disk r)
    executed-RunsAllowed to_execute log cs (refused e) q = inl refl
    executed-RunsAllowed to_execute log cs (ok out) q =
        let (same_out, r) = apply-rendered sb p.action p.args cs out q in
        inr (
          out,
          record {
            proposal = p;
            recorded = recorded;
            approved = approved;
            to_execute = to_execute;
            same = same;
            rendered = rw same_out r;
            templates = rw same_out (
                templates_of cs (render sb p.action p.args) (render-AllTemplates sb p.action p.args)
                  r);
          },
          conclude-ran "approved-executed" _ inc (record disk { ran = disk.ran ++ out }),
        )

    approve-RunsAllowed : RunsAllowed decision execute' inc disk (approve lb sb execute' p inc disk)
    unfolding approve
    approve-RunsAllowed =
        let commands = real_commands lb sb p.commands in
        let log = dry_run_log lb sb commands in
        if_cases (RunsAllowed decision execute' inc disk) execute'
          (executed lb sb log inc disk (apply sb p.action p.args commands))
          (conclude lb sb "approved-dry-run" log inc disk)
          (λ e. executed-RunsAllowed e log commands (apply sb p.action p.args commands) refl)
          (λ e. inl (conclude-ran "approved-dry-run" log inc disk))

  module _ (decision : String) (execute' : Bool) (inc : Incident) (disk : Disk W) where
    reject-RunsAllowed : RunsAllowed decision execute' inc disk (reject lb sb inc disk)
    reject-RunsAllowed =
        inl (conclude-ran "rejected" ("rejected: no commands applied" ∷ []) inc disk)

    same_hash-equal :
        (h : Option String) (p q : Proposal)
        → same_hash lb sb h p ≡ ok q
        → (q ≡ p) × (h ≡ some p.hash)
    same_hash-equal none p q e = cc
    same_hash-equal (some h) p q e = elim (Bool-cases (str_eq h p.hash)) [
      | inl c ↦
          let same : h ≡ p.hash = (eq_iff h p.hash).0 c in (ground (arith, c, e), ap some same)
      | inr c ↦ ground (arith, c, e)
    ]

    decide-RunsAllowed :
        (p : Proposal) (c : Checked Proposal)
        → inc.proposal ≡ some p
        → same_hash lb sb (read_record_hash disk.record_text) p ≡ c
        → RunsAllowed decision execute' inc disk (decide lb sb decision execute' inc disk c)
    decide-RunsAllowed p (refused r) recorded e = inl refl
    decide-RunsAllowed p (ok q) recorded e =
        let (qp, same) = same_hash-equal (read_record_hash disk.record_text) p q e in
        if_cases (RunsAllowed decision execute' inc disk) (str_eq decision "reject")
          (reject lb sb inc disk) (approve lb sb execute' q inc disk) (λ r. reject-RunsAllowed)
          (λ r.
            approve-RunsAllowed decision execute' inc disk q (recorded ∙ ap some (sym qp)) r
              (same ∙ ap (λ x. some x.hash) (sym qp)))

    execute_proposal-RunsAllowed :
        (o : Option Proposal)
        → inc.proposal ≡ o
        → RunsAllowed decision execute' inc disk
            (execute_proposal lb sb decision execute' inc disk o)
    execute_proposal-RunsAllowed none e =
        if_cases (RunsAllowed decision execute' inc disk) (str_eq decision "reject")
          (reject lb sb inc disk) (refused no_proposal, disk) (λ r. reject-RunsAllowed)
          (λ r. inl refl)
    execute_proposal-RunsAllowed (some p) e =
        decide-RunsAllowed p (same_hash lb sb (read_record_hash disk.record_text) p) e refl

    execute-RunsAllowed :
        RunsAllowed decision execute' inc disk (execute lb sb decision execute' inc disk)
    unfolding execute
    execute-RunsAllowed = execute_proposal-RunsAllowed inc.proposal refl

  propose_gathered-ran :
      (pr : Proposer W) (rbs : List Runbook) (o : Option Incident) (disk : Disk W)
      → (propose_gathered lb sb pr rbs o disk).1.ran ≡ disk.ran
  unfolding propose write_record
  propose_gathered-ran pr rbs none disk = refl
  propose_gathered-ran pr rbs (some inc) disk = refl

  -- The decision that a call carries out, and the incident that it is about: the one that it brings
  -- where approval is awaited, and the one that was taken before where `execute` raised.
  abbrev pub decided_by : Checkpoint lb sb → String → Bool → Option (String × Bool × Incident)
  decided_by missing decision execute' = none
  decided_by finished decision execute' = none
  decided_by (awaiting inc) decision execute' = some (decision, execute', inc)
  decided_by (halted decided execute'' inc) decision execute' = some (decided, execute'', inc)
  decided_by (gathering steps pr rbs) decision execute' = none

  -- Nothing more was run, or a decision was carried out and what was run is allowed by it.
  abbrev pub ResumesAllowed :
      Checkpoint lb sb → String → Bool → Disk W → Checked Incident × Disk W → Type 0
  ResumesAllowed cp decision execute' disk r =
      (r.1.ran ≡ disk.ran)
      ⊎ ((decided : String) × (execute'' : Bool) × (inc : Incident) × (commands : List String)
          × (decided_by cp decision execute' ≡ some (decided, execute'', inc))
          × IsAllowed decided execute'' inc disk commands
          × (r.1.ran ≡ disk.ran ++ commands))

  resume-ResumesAllowed :
      (cp : Checkpoint lb sb) (decision : String) (execute' : Bool) (disk : Disk W)
      → ResumesAllowed cp decision execute' disk (resume lb sb decision execute' disk cp)
  unfolding resume
  resume-ResumesAllowed missing decision execute' disk = inl refl
  resume-ResumesAllowed finished decision execute' disk = inl refl
  resume-ResumesAllowed (awaiting inc) decision execute' disk =
      elim (execute-RunsAllowed decision execute' inc disk) [
        | inl e ↦ inl e
        | inr (commands, allowed, e) ↦ inr (decision, execute', inc, commands, refl, allowed, e)
      ]
  resume-ResumesAllowed (halted decided execute'' inc) decision execute' disk =
      elim (execute-RunsAllowed decided execute'' inc disk) [
        | inl e ↦ inl e
        | inr (commands, allowed, e) ↦ inr (decided, execute'', inc, commands, refl, allowed, e)
      ]
  resume-ResumesAllowed (gathering steps pr rbs) decision execute' disk =
      let (gathered, world) = steps disk.world in
      inl (propose_gathered-ran pr rbs gathered (record disk { world = world }))

  -- Whatever the checkpoint, the new decision, the record and the sandbox are, a resumed incident
  -- runs nothing more, or a decision is carried out: the new one where approval is awaited, and the
  -- one taken before where `execute` had raised. It is not to reject and is to be executed, the
  -- record has the hash of the incident's proposal, and what is run are the commands that the
  -- sandbox renders for that proposal, each of them a template's.
  pub run_approval-ResumesAllowed :
      (cp : Checkpoint lb sb) (decision : String) (execute' : Bool) (disk : Disk W)
      → ResumesAllowed cp decision execute' disk (run_approval lb sb cp decision execute' disk)
  unfolding run_approval
  run_approval-ResumesAllowed cp decision execute' disk =
      if_cases (ResumesAllowed cp decision execute' disk)
        (str_eq decision "approve" || str_eq decision "reject")
        (resume lb sb decision execute' disk cp) (refused unknown_decision, disk)
        (λ e. resume-ResumesAllowed cp decision execute' disk) (λ e. inl refl)
