-- ===== src/Dispatch/Graph/Rejected.antt =====
-- A rejection is final (dispatch/dispatch/graph.py, `run_approval` over several calls).
use package.text.Mathlib.Text.{◌==◌ as str_eq}
use package.text.Mathlib.TextEquality.{eq_iff}
use g_pcap.Prelude.{
  String, Bool, true, ◌||◌, ◌≡◌, refl, sym, ◌∙◌, if_cases, some, List, [], ◌∷◌, inl, inr,
}
use g_pcap.Dispatch.Executor.{Sandbox, Checked, ok, refused}
use g_pcap.Dispatch.Record.{Incident}
use g_pcap.Dispatch.Graph.{
  Disk, Libraries, Checkpoint, missing, finished, awaiting, halted, gathering, run_approval, held,
  held_after, approval_call, approval_calls,
}
use g_pcap.Dispatch.Graph.Safe.{decided_by, run_approval-ResumesAllowed}

module _ {W : Type 0} (lb : Libraries W) (sb : Sandbox) where
  -- The incident is closed, or a rejection of it is what is left to be carried out.
  abbrev IsRejected : Checkpoint lb sb → Type 0
  IsRejected missing = ⊥
  IsRejected finished = Unit
  IsRejected (awaiting inc) = ⊥
  IsRejected (halted decided execute' inc) = decided ≡ "reject"
  IsRejected (gathering steps pr rbs) = ⊥

  held-IsRejected :
      (execute' : Bool) (inc : Incident) (r : Checked Incident)
      → IsRejected (held lb sb "reject" execute' inc r)
  held-IsRejected execute' inc (ok inc') = tt
  held-IsRejected execute' inc (refused e) = refl

  held_after-IsRejected :
      (decision : String) (execute' : Bool) (cp : Checkpoint lb sb) (r : Checked Incident)
      → IsRejected cp
      → IsRejected (held_after lb sb decision execute' cp r)
  held_after-IsRejected decision execute' missing r h = h
  held_after-IsRejected decision execute' finished r h = h
  held_after-IsRejected decision execute' (awaiting inc) r h = absurd h
  held_after-IsRejected decision execute' (halted decided execute'' inc) r h =
      rw h (held-IsRejected execute'' inc r)
  held_after-IsRejected decision execute' (gathering steps pr rbs) r h = absurd h

  not_carried_out :
      (cp : Checkpoint lb sb) (decision decided : String) (execute' execute'' : Bool)
      (inc : Incident)
      → IsRejected cp
      → decided_by lb sb cp decision execute' ≡ some (decided, execute'', inc)
      → decided ≡ "reject"
  not_carried_out missing decision decided execute' execute'' inc h e = absurd h
  not_carried_out finished decision decided execute' execute'' inc h e = cc
  not_carried_out (awaiting inc') decision decided execute' execute'' inc h e = absurd h
  not_carried_out (halted d x inc') decision decided execute' execute'' inc h e =
      let same : d ≡ decided = cc in sym same ∙ h
  not_carried_out (gathering steps pr rbs) decision decided execute' execute'' inc h e = absurd h

  -- Nothing is run for a rejected incident.
  run_approval-ran :
      (cp : Checkpoint lb sb) (decision : String) (execute' : Bool) (disk : Disk W)
      → IsRejected cp
      → (run_approval lb sb cp decision execute' disk).1.ran ≡ disk.ran
  run_approval-ran cp decision execute' disk h =
      elim (run_approval-ResumesAllowed lb sb cp decision execute' disk) [
        | inl e ↦ e
        | inr (decided, execute'', inc, commands, by, allowed, e) ↦
            let rejected = not_carried_out cp decision decided execute' execute'' inc h by in
            let same : str_eq decided "reject" ≡ true = (eq_iff decided "reject").1 rejected in
            let differs = allowed.approved in cc
      ]

  approval_call-IsRejected :
      (decision : String) (execute' : Bool) (cp : Checkpoint lb sb) (disk : Disk W)
      → IsRejected cp
      → IsRejected (approval_call lb sb decision execute' (cp, disk)).0
  unfolding approval_call
  approval_call-IsRejected decision execute' cp disk h =
      let r = (run_approval lb sb cp decision execute' disk).0 in
      if_cases IsRejected (str_eq decision "approve" || str_eq decision "reject")
        (held_after lb sb decision execute' cp r) cp
        (λ e. held_after-IsRejected decision execute' cp r h) (λ e. h)

  approval_calls-ran :
      (calls : List (String × Bool)) (cp : Checkpoint lb sb) (disk : Disk W)
      → IsRejected cp
      → (approval_calls lb sb calls (cp, disk)).1.ran ≡ disk.ran
  unfolding approval_calls
  approval_calls-ran [] cp disk h = refl
  approval_calls-ran ((decision, execute') ∷ calls) cp disk h =
      let next = approval_call lb sb decision execute' (cp, disk) in
      approval_calls-ran calls next.0 next.1 (approval_call-IsRejected decision execute' cp disk h)
      ∙ (unfold approval_call in run_approval-ran cp decision execute' disk h)

  reject-ran :
      (execute' : Bool) (inc : Incident) (disk : Disk W)
      → (run_approval lb sb (awaiting inc) "reject" execute' disk).1.ran ≡ disk.ran
  reject-ran execute' inc disk =
      elim (run_approval-ResumesAllowed lb sb (awaiting inc) "reject" execute' disk) [
        | inl e ↦ e
        | inr (decided, execute'', inc', commands, by, allowed, e) ↦
            let rejected : "reject" ≡ decided = cc in
            let same : str_eq decided "reject" ≡ true =
              (eq_iff decided "reject").1 (sym rejected) in
            let differs = allowed.approved in cc
      ]

  -- Once an incident that awaits approval is rejected, nothing is run for it, whatever calls follow
  -- and whether the rejection was carried out or raised.
  pub approval_calls-rejected :
      (execute' : Bool) (calls : List (String × Bool)) (inc : Incident) (disk : Disk W)
      → (approval_calls lb sb (("reject", execute') ∷ calls) (awaiting inc, disk)).1.ran ≡ disk.ran
  unfolding approval_calls approval_call
  approval_calls-rejected execute' calls inc disk =
      let (r, disk') = run_approval lb sb (awaiting inc) "reject" execute' disk in
      approval_calls-ran calls (held lb sb "reject" execute' inc r) disk'
        (held-IsRejected execute' inc r)
      ∙ reject-ran execute' inc disk
