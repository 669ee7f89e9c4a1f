-- ===== src/Dispatch/Memory.antt =====
-- dispatch/dispatch/memory.py: the decided incidents, the outcome that is set at close, and the
-- context that past incidents give.
pub mod Outcome
use Prim.Native.String.{◌++◌ as append}
use package.text.Mathlib.Text.{◌==◌ as str_eq}
use g_pcap.Prelude.{
  ℕ, zero, suc, ◌+◌, ◌*◌, String, Bool, true, false, not, ◌&&◌, ◌||◌, if◌then◌else◌, ◌==◌, is_some,
  leb, ltb, keep, length, map, Option, none, some, List, [], ◌∷◌, ◌++◌,
}
use g_pcap.Prelude.Chars.{join_texts, is_empty_text}
use g_pcap.Prelude.Dict.{Dict}
use g_pcap.Prelude.Lines.{split_lines}
use g_pcap.Prelude.Order.{sort_with, take}
use g_pcap.Prelude.Sets.{mem, add}
use g_pcap.Prelude.Text.{String-discrete, truthy, show}
use g_pcap.Jsonl.{Codec, load}
use g_pcap.Dispatch.Json.{Json}
use g_pcap.Dispatch.Executor.{Sandbox, Checked, ok, refused, no_episode}
use g_pcap.Dispatch.Runbook.{
  Signature-discrete, signed, set_of, evidence_keys, shared, or_text, pair_text,
}
use g_pcap.Dispatch.Record.{AlarmEvent, EvidenceItem}

pub record Episode : Type 0 where
  pub incident_id : String
  pub procedure : Option String
  pub scenario : Option String
  pub evidence_keys : List (String × Json)
  pub causes : List String
  pub action : Option String
  pub args : Option (Dict String Json)
  pub narrative : String
  pub justification : Option String
  pub decision : String
  pub outcome : Option String
  pub outcome_evidence : Option String
  pub created_at : ℕ

module _ (cd : Codec Episode) where
  -- The line of an episode with the incident's id gets the outcome; any other stays.
  abbrev pub with_outcome : String → Option String → Episode → Episode
  with_outcome outcome evidence e = record e { outcome = some outcome; outcome_evidence = evidence }

  abbrev pub close_episode : String → String → Option String → String → Option Episode → String
  close_episode incident_id outcome evidence line none = line
  close_episode incident_id outcome evidence line (some e) =
      if str_eq e.incident_id incident_id then cd.dump (with_outcome outcome evidence e) else line

  unfoldable pub close_line : String → String → Option String → String → String
  close_line incident_id outcome evidence line =
      if is_empty_text line
      then line
      else close_episode incident_id outcome evidence line (cd.parse line)

  -- The last episode of the incident, in the lines' order.
  unfoldable pub last_of : String → Option Episode → List Episode → Option Episode
  last_of incident_id best [] = best
  last_of incident_id best (e ∷ es) =
      last_of incident_id (if str_eq e.incident_id incident_id then some e else best) es

  -- `set_outcome`, of the file's text, with the episode that it answers
  unfoldable pub set_outcome : String → String → Option String → String → Checked (Episode × String)
  unfolding close_line last_of load split_lines join_texts
  set_outcome incident_id outcome evidence file =
      elim (last_of incident_id none (load cd (some file))) [
        | none ↦ refused no_episode
        | some e ↦ ok (
          with_outcome outcome evidence e,
          join_texts "\n" (map (close_line incident_id outcome evidence) (split_lines file)),
        )
      ]

-- The causes of the evidence, as a set.
unfoldable pub causes_of : List EvidenceItem → List String
causes_of [] = []
causes_of (e ∷ es) =
    let rest = causes_of es in
    if truthy e.cause then add String-discrete (or_text "" e.cause) rest else rest

abbrev pub text_set : List String → List String → List String
text_set seen [] = seen
text_set seen (t ∷ ts) = text_set (add String-discrete t seen) ts

abbrev pub same_procedure : Option String → Option String → Bool
same_procedure none q = false
same_procedure (some p) none = false
same_procedure (some p) (some q) = str_eq q p

-- The score of an episode.
unfoldable pub relevance :
    Sandbox → Option String → List String → List (String × String) → Episode → ℕ
relevance sb procedure causes keys e =
    3 * length (keep (λ c. mem String-discrete c causes) (text_set [] e.causes))
    + length (shared (set_of [] (map (signed sb) e.evidence_keys)) keys)
    + (if same_procedure procedure e.procedure then 2 else 0)

unfoldable pub relevant :
    Sandbox
    → Option String
    → List String
    → List (String × String)
    → List Episode
    → List (ℕ × Episode)
unfolding relevance
relevant sb procedure causes keys [] = []
relevant sb procedure causes keys (e ∷ es) =
    let rest = relevant sb procedure causes keys es in
    if leb 2 (relevance sb procedure causes keys e)
    then (relevance sb procedure causes keys e, e) ∷ rest
    else rest

-- The highest score first, of equals the newest.
abbrev pub before : ℕ × Episode → ℕ × Episode → Bool
before p q = ltb q.0 p.0 || p.0 == q.0 && leb q.1.created_at p.1.created_at

abbrev pub detail_texts : Sandbox → Episode → List String
detail_texts sb e =
    (if length e.evidence_keys == 0
      then []
      else append "keys: " (join_texts ", " (map (λ k. pair_text (signed sb k)) e.evidence_keys))
        ∷ [])
    ++ (if length e.causes == 0 then [] else append "causes: " (join_texts ", " e.causes) ∷ [])
    ++ (if truthy e.action then append "action: " (or_text "" e.action) ∷ [] else [])

abbrev pub detail_part : List String → String
detail_part [] = ""
detail_part (d ∷ ds) = append " · " (join_texts "; " (d ∷ ds))

unfoldable pub episode_lines : Sandbox → (ℕ → String) → ℕ → List (ℕ × Episode) → List String
unfolding join_texts
episode_lines sb iso n [] = []
episode_lines sb iso n ((s, e) ∷ ps) =
    join_texts "" ("[" ∷ show n ∷ "] " ∷ e.incident_id ∷ "  " ∷ iso e.created_at ∷ [])
      ∷ (if truthy (some e.narrative) then append "    " e.narrative ∷ [] else [])
    ++ append "    decision: " (append e.decision (detail_part (detail_texts sb e)))
      ∷ episode_lines sb iso (suc n) ps

abbrev pub context_of : Sandbox → (ℕ → String) → ℕ → List (ℕ × Episode) → String
context_of sb iso total [] = ""
context_of sb iso total (p ∷ ps) = join_texts "\n" (
    join_texts "" (
      "Past similar incidents retrieved from episodic memory ("
      ∷ show (length (p ∷ ps))
      ∷ " of "
      ∷ show total
      ∷ " Episode(s)):"
      ∷ [])
    ∷ episode_lines sb iso 1 (take 3 (sort_with before (p ∷ ps))))

-- `memory_context`, of the episodes in the store
unfoldable pub memory_context :
    Sandbox → (ℕ → String) → List Episode → AlarmEvent → List EvidenceItem → String
unfolding relevant causes_of
memory_context sb iso [] event items = ""
memory_context sb iso (e ∷ es) event items = context_of sb iso (length (e ∷ es)) (
    relevant sb event.procedure (causes_of items) (evidence_keys sb (map (λ i. i.keys) items))
      (e ∷ es))
