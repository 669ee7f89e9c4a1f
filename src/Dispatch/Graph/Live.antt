-- ===== src/Dispatch/Graph/Live.antt =====
-- What an approved proposal runs (dispatch/dispatch/graph.py, its `propose` and `execute` steps).
use Prim.Native.Char.{Char, code}
use Prim.Native.String
use Prim.Native.String.{◌++◌ as append}
use package.text.Mathlib.Text.{◌==◌ as str_eq}
use package.text.Mathlib.TextEquality.{eq_iff}
use g_pcap.Prelude.{
  ℕ, String, true, false, ◌≡◌, ◌≢◌, refl, sym, ap, ◌∙◌, Option, none, some, List, [], ◌∷◌, ◌++◌,
  map, Bool-cases, inl, inr, arith, All,
}
use g_pcap.Dispatch.Executor.{
  Sandbox, Checked, ok, refused, render, or_note, dry_run, same_texts, apply, observe_only_note,
  proposal_hash,
}
use g_pcap.Dispatch.Executor.Templates.{
  IsTemplate, restart, revert, reseed, rerun, AllTemplates, render-AllTemplates,
}
use g_pcap.Prelude.Dict.{Dict}
use g_pcap.Dispatch.Json.{Json}
use g_pcap.Dispatch.Proposal.{Selection}
use g_pcap.Dispatch.Record.{Proposal, Incident}
use g_pcap.Dispatch.Graph.{
  Disk, Libraries, read_record_hash, rendered, with_commands, real_commands, dry_run_log, executed,
  approve, same_hash, decide, execute_proposal, execute,
}
use g_pcap.Dispatch.Graph.Safe.{conclude-ran}

head : String → Option ℕ
head String.[] = none
head (String.◌∷◌ c s) = some (code c)

head-append : (c : Char) (s t : String) → head (append (String.◌∷◌ c s) t) ≡ some (code c)
unfolding head
head-append c s t = ap head (Prim.Native.String.append.cons c s t)

differ : (s t : String) → head s ≢ head t → str_eq s t ≡ false
differ s t n = elim (Bool-cases (str_eq s t)) [
  | inl e ↦ absurd (n (ap head ((eq_iff s t).0 e)))
  | inr e ↦ e
]

or_zero : Option ℕ → ℕ
or_zero none = 0
or_zero (some n) = n

-- A text that begins with another character than the note's is not the note.
not_note :
    (c : Char) (s t : String)
    → code c ≢ b'o'
    → str_eq (append (String.◌∷◌ c s) t) observe_only_note ≡ false
unfolding head or_zero
not_note c s t n =
    differ (append (String.◌∷◌ c s) t) observe_only_note
      (λ q. n (ap or_zero (sym (head-append c s t) ∙ q)))

-- No template's command is the note.
IsTemplate-note : (sb : Sandbox) (c : String) → IsTemplate sb c → str_eq c observe_only_note ≡ false
IsTemplate-note sb c (restart services nf e m) =
    not_note "d" "ocker compose --project-directory " (append sb.root (append "/core restart " nf))
      (omega arith)
IsTemplate-note sb c (revert path m) =
    not_note "g" "it -C " (append sb.root (append " checkout -- " (sb.path_text path)))
      (omega arith)
IsTemplate-note sb c (reseed imsi m) =
    not_note "d" "ocker compose --project-directory "
      (append sb.root (append "/core run --rm seed " imsi)) (omega arith)
IsTemplate-note sb c (rerun scenario m) =
    not_note "b" "ash " (append sb.root (append "/capture.sh --scenario " scenario)) (omega arith)

module _ {W : Type 0} (lb : Libraries W) (sb : Sandbox) where
  real_kept : (cs : List String) → All (IsTemplate sb) cs → real_commands lb sb cs ≡ cs
  real_kept [] h = refl
  real_kept (c ∷ cs) h =
      let rest = real_kept cs h.1 in rw (IsTemplate-note sb c h.0) (ap (λ ys. c ∷ ys) rest)

  -- The note stands for no command.
  noted :
      (cs : List String)
      → All (IsTemplate sb) cs
      → (ds : List String) × (or_note (ok cs) ≡ ok ds) × (real_commands lb sb ds ≡ cs)
  noted [] h = (observe_only_note ∷ [], refl, refl)
  noted (c ∷ cs) h = (c ∷ cs, refl, real_kept (c ∷ cs) h)

  same_texts_refl : (cs : List String) → same_texts cs cs ≡ true
  same_texts_refl [] = refl
  same_texts_refl (c ∷ cs) = rw ((eq_iff c c).1 refl, same_texts_refl cs) refl

  templates_of :
      (cs : List String) (r : Checked (List String))
      → AllTemplates sb r
      → r ≡ ok cs
      → All (IsTemplate sb) cs
  templates_of cs (refused e) h q = cc
  templates_of cs (ok ds) h q = let same : ds ≡ cs = cc in rw (sym same) h

  apply_ok :
      (action : String) (args : Dict String Json) (cs : List String)
      → render sb action args ≡ ok cs
      → apply sb action args cs ≡ ok cs
  unfolding apply
  apply_ok action args cs e = rw (e, same_texts_refl cs) refl

  module _ (inc : Incident) (disk : Disk W) (cs : List String) where
    executed-ran :
        (log : List String) (r : Checked (List String))
        → r ≡ ok cs
        → (executed lb sb log inc disk r).1.ran ≡ disk.ran ++ cs
    executed-ran log (refused e) q = cc
    executed-ran log (ok out) q =
        let same : out ≡ cs = cc in
        conclude-ran lb sb "approved-executed" (log ++ map (λ c. append "executed: " c) out) inc
          (record disk { ran = disk.ran ++ out })
        ∙ ap (λ xs. disk.ran ++ xs) same

    approve-ran :
        (p : Proposal)
        → real_commands lb sb p.commands ≡ cs
        → render sb p.action p.args ≡ ok cs
        → (approve lb sb true p inc disk).1.ran ≡ disk.ran ++ cs
    unfolding approve
    approve-ran p real e =
        executed-ran (dry_run_log lb sb (real_commands lb sb p.commands))
          (apply sb p.action p.args (real_commands lb sb p.commands))
          (ap (apply sb p.action p.args) real ∙ apply_ok p.action p.args cs e)

    decide-ran :
        (p : Proposal) (c : Checked Proposal)
        → c ≡ ok p
        → real_commands lb sb p.commands ≡ cs
        → render sb p.action p.args ≡ ok cs
        → (decide lb sb "approve" true inc disk c).1.ran ≡ disk.ran ++ cs
    decide-ran p (refused r) q real e = cc
    decide-ran p (ok p') q real e =
        let same : p' ≡ p = cc in
        ap (λ x. (approve lb sb true x inc disk).1.ran) same ∙ approve-ran p real e

    same_hash_ok : (h : Option String) (p : Proposal) → h ≡ some p.hash → same_hash lb sb h p ≡ ok p
    same_hash_ok none p q = cc
    same_hash_ok (some h) p q = let same : h ≡ p.hash = cc in rw ((eq_iff h p.hash).1 same) refl

    execute_proposal-ran :
        (p : Proposal) (o : Option Proposal)
        → o ≡ some p
        → read_record_hash disk.record_text ≡ some p.hash
        → real_commands lb sb p.commands ≡ cs
        → render sb p.action p.args ≡ ok cs
        → (execute_proposal lb sb "approve" true inc disk o).1.ran ≡ disk.ran ++ cs
    execute_proposal-ran p none q same real e = cc
    execute_proposal-ran p (some p') q same real e =
        let pp : p' ≡ p = cc in
        decide-ran p (same_hash lb sb (read_record_hash disk.record_text) p')
          (ap (same_hash lb sb (read_record_hash disk.record_text)) pp
            ∙ same_hash_ok (read_record_hash disk.record_text) p same)
          real e

  -- A selection whose commands the sandbox renders becomes a proposal. An incident that awaits
  -- approval with it, approved to be carried out in that sandbox, with the proposal's hash in the
  -- record, runs exactly those commands.
  pub execute-rendered :
      (s : Selection) (cs : List String) (inc : Incident) (disk : Disk W)
      → render sb s.action s.args ≡ ok cs
      → inc.proposal ≡ rendered lb sb (some s)
      → read_record_hash disk.record_text
        ≡ some (proposal_hash lb.digest s.action s.args s.justification)
      → (execute lb sb "approve" true inc disk).1.ran ≡ disk.ran ++ cs
  unfolding execute rendered dry_run
  execute-rendered s cs inc disk e proposed same =
      let h =
        templates_of cs (render sb s.action s.args) (render-AllTemplates sb s.action s.args) e in
      let (ds, noted_ds, real) = noted cs h in
      let p : Proposal = record {
        action = s.action;
        args = s.args;
        justification = s.justification;
        commands = ds;
        hash = proposal_hash lb.digest s.action s.args s.justification;
      } in
      let dry : dry_run sb s.action s.args ≡ ok ds = ap or_note e ∙ noted_ds in
      execute_proposal-ran inc disk cs p inc.proposal (proposed ∙ ap (with_commands lb sb s) dry)
        same real e
