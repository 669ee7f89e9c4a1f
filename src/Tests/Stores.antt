-- ===== src/Tests/Stores.antt =====
-- Runs of the stores: dispatch/dispatch/memory.py and triage/triage/memory.py, on files of one and
-- of two records.
use package.text.Mathlib.Text.{◌==◌ as str_eq}
use g_pcap.Prelude.{
  ◌≡◌, refl, sym, ◌∙◌, ap, String, Bool, true, false, is_some, if◌then◌else◌, if_cases, Option,
  none, some, [], ◌∷◌, ◌++◌, map, inr,
}
use g_pcap.Prelude.Lines.{split_lines}
use g_pcap.Prelude.Chars.{join_texts}
use g_pcap.Jsonl.{Codec, add_record, load, read_lines}
use g_pcap.Jsonl.RoundTrip.{IsPrinted, IsClosed, load-add_record}
use g_pcap.Triage.Memory.Once.{consolidate_once}
use g_pcap.Triage.Memory.{consolidate}
use g_pcap.Dispatch.Executor.{ok}
use g_pcap.Dispatch.Memory.{with_outcome, close_line, last_of, set_outcome}
use g_pcap.Dispatch.Memory.Outcome.{closed, load-set_outcome}
use g_pcap.Triage.Memory as Finalized
use g_pcap.Dispatch.Memory as Decided

abbrev letters : Codec Bool
letters = record {
  dump = λ b. if b then "t" else "f";
  parse = λ s. if str_eq s "t" then some true else if str_eq s "f" then some false else none;
}

load-add_record_example :
    (load letters (add_record letters true (some "f\nbroken\n"))
      ≡ load letters (some "f\nbroken\n") ++ true ∷ [])
    × IsClosed (add_record letters true (some "f\nbroken\n"))
load-add_record_example =
    load-add_record letters true (some "f\nbroken\n")
      (record { line = (refl, tt); nonempty = refl; back = refl }) (inr ("f\nbroken", refl))

store_read : load letters (some "f\nbroken\n\nt\n") ≡ false ∷ true ∷ []
unfolding load read_lines split_lines
store_read = refl

abbrev seen : Finalized.Episode
seen = record {
  incident_type = "auth_failure";
  narrative = "wrong key";
  cited_evidence = record { message = "Reject"; cause = some 3; ts = some 5 } ∷ [];
  created_at = 9;
}

abbrev one_episode : Codec Finalized.Episode
one_episode = record { dump = λ e. "e"; parse = λ s. if str_eq s "e" then some seen else none }

consolidate_once_example :
    ((consolidate one_episode seen (consolidate one_episode seen none).1).0.1 ≡ false)
    × ((consolidate one_episode seen (consolidate one_episode seen none).1).1
        ≡ (consolidate one_episode seen none).1)
consolidate_once_example =
    consolidate_once one_episode seen none
      (record { line = (refl, tt); nonempty = refl; back = refl }) tt

abbrev pub decided : Decided.Episode
decided = record {
  incident_id = "INC-1";
  procedure = none;
  scenario = none;
  evidence_keys = [];
  causes = [];
  action = some "observe_only";
  args = some [];
  narrative = "";
  justification = none;
  decision = "rejected";
  outcome = none;
  outcome_evidence = none;
  created_at = 1;
}

-- An open episode is one letter, and a closed one another.
abbrev open_or_closed : Codec Decided.Episode
open_or_closed = record {
  dump = λ e. if is_some e.outcome then "c" else "o";
  parse = λ s.
      if str_eq s "o"
      then some decided
      else if str_eq s "c"
      then some (record decided { outcome = some "resolved"; outcome_evidence = none })
      else none;
}

abbrev Prints : Option Decided.Episode → Type 0
Prints o =
    (x : Decided.Episode)
    → o ≡ some x
    → IsPrinted open_or_closed (with_outcome open_or_closed "resolved" none x)

decided_prints :
    (y x : Decided.Episode)
    → with_outcome open_or_closed "resolved" none y
      ≡ record decided { outcome = some "resolved"; outcome_evidence = none }
    → some y ≡ some x
    → IsPrinted open_or_closed (with_outcome open_or_closed "resolved" none x)
decided_prints y x e q =
    let same : y ≡ x = cc in
    let closed_x = sym (ap (with_outcome open_or_closed "resolved" none) same) ∙ e in
    record { line = (refl, tt); nonempty = refl; back = ap some (sym closed_x) }

all_print :
    (l : String) (x : Decided.Episode)
    → open_or_closed.parse l ≡ some x
    → IsPrinted open_or_closed (with_outcome open_or_closed "resolved" none x)
all_print l =
    if_cases Prints (str_eq l "o") (some decided)
      (if str_eq l "c"
        then some (record decided { outcome = some "resolved"; outcome_evidence = none })
        else none)
      (λ e x. decided_prints decided x refl)
      (λ e.
        if_cases Prints (str_eq l "c")
          (some (record decided { outcome = some "resolved"; outcome_evidence = none })) none
          (λ f x.
            decided_prints (record decided { outcome = some "resolved"; outcome_evidence = none }) x
              refl)
          (λ f x q. cc))

outcome_set :
    set_outcome open_or_closed "INC-1" "resolved" none "o\n"
    ≡ ok (record decided { outcome = some "resolved"; outcome_evidence = none }, "c\n")
unfolding set_outcome load read_lines split_lines close_line last_of join_texts
outcome_set = refl

load-set_outcome_example :
    load open_or_closed (some "c\n")
    ≡ map
        (closed open_or_closed "INC-1" "resolved" none all_print)
        (load open_or_closed (some "o\n"))
load-set_outcome_example =
    load-set_outcome open_or_closed "INC-1" "resolved" none all_print "o\n" "c\n"
      (record decided { outcome = some "resolved"; outcome_evidence = none }) outcome_set
