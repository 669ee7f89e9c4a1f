-- ===== src/Triage/Memory.antt =====
-- triage/triage/memory.py: the store of finalized episodes, their consolidation, and the query over
-- them. A time is a number of microseconds; its texts are parameters.
pub mod Once
use Prim.Native.String.{◌++◌ as append}
use package.text.Mathlib.Text.{◌==◌ as str_eq}
use g_pcap.Prelude.{
  ℕ, zero, suc, ◌-◌, String, Bool, true, false, not, ◌&&◌, ◌||◌, if◌then◌else◌, is, any, leb, ltb,
  keep, length, map, Option, none, some, List, [], ◌∷◌, ◌++◌, ℕ_discrete,
}
use g_pcap.Prelude.Chars.{join_texts}
use g_pcap.Prelude.Keys.{Option-discrete, pair_discrete}
use g_pcap.Prelude.Order.{sort_with, take}
use g_pcap.Prelude.Sets.{mem}
use g_pcap.Prelude.Text.{String-discrete, show}
use g_pcap.Jsonl.{Codec, add_record, load}

pub record CitedEvidence : Type 0 where
  pub message : String
  pub cause : Option ℕ
  pub ts : Option ℕ

pub record Episode : Type 0 where
  pub incident_type : String
  pub narrative : String
  pub cited_evidence : List CitedEvidence
  pub created_at : ℕ

-- `isoformat()` of a date, and a time with three decimals
pub record Clock : Type 0 where
  pub iso : ℕ → String
  pub seconds : ℕ → String

abbrev pub Cited-discrete : Discrete (String × Option ℕ)
Cited-discrete = pair_discrete String-discrete (Option-discrete ℕ_discrete)

abbrev pub cited_pairs : List CitedEvidence → List (String × Option ℕ)
cited_pairs [] = []
cited_pairs (ev ∷ evs) = (ev.message, ev.ts) ∷ cited_pairs evs

-- Each element of one list is in the other.
unfoldable pub all_in : List (String × Option ℕ) → List (String × Option ℕ) → Bool
all_in [] ys = true
all_in (x ∷ xs) ys = mem Cited-discrete x ys && all_in xs ys

-- Two episodes with equal `_consolidation_key`s: the type, and the set of cited pairs.
unfoldable pub same_key : Episode → Episode → Bool
unfolding all_in
same_key e f =
    str_eq e.incident_type f.incident_type
    && (all_in (cited_pairs e.cited_evidence) (cited_pairs f.cited_evidence)
        && all_in (cited_pairs f.cited_evidence) (cited_pairs e.cited_evidence))

-- The first stored episode with the key of another.
unfoldable pub find_same : Episode → List Episode → Option Episode
unfolding same_key
find_same e [] = none
find_same e (f ∷ fs) = if same_key f e then some f else find_same e fs

-- What a consolidation answers, and the store's file after it.
abbrev pub written :
    Codec Episode → Episode → Option String → Option Episode → (Episode × Bool) × Option String
written cd e file (some f) = ((f, false), file)
written cd e file none = ((e, true), add_record cd e file)

-- `consolidate`
unfoldable pub consolidate :
    Codec Episode → Episode → Option String → (Episode × Bool) × Option String
unfolding find_same load
consolidate cd e file = written cd e file (find_same e (load cd file))

-- `_matches`; a filter that is not given passes.
abbrev pub passes_text : Option String → String → Bool
passes_text none s = true
passes_text (some t) s = str_eq s t

abbrev pub passes_cause : Option ℕ → Option ℕ → Bool
passes_cause none c = true
passes_cause (some n) c = is (Option-discrete ℕ_discrete c (some n))

abbrev pub is_none : {A : Type 0} → Option A → Bool
is_none none = true
is_none (some a) = false

unfoldable pub matches : Episode → Option String → Option String → Option ℕ → Bool
matches e incident_type message cause =
    if not (passes_text incident_type e.incident_type)
    then false
    else if is_none message && is_none cause
    then true
    else any (λ ev. passes_text message ev.message && passes_cause cause ev.cause) e.cited_evidence

abbrev pub newer : Episode → Episode → Bool
newer e f = leb f.created_at e.created_at

abbrev pub cause_part : Option ℕ → String
cause_part none = ""
cause_part (some c) = append " cause=" (show c)

abbrev pub ts_part : Clock → Option ℕ → String
ts_part ck none = ""
ts_part ck (some t) = append " @" (append (ck.seconds t) "s")

abbrev pub cited_text : Clock → CitedEvidence → String
cited_text ck ev = append ev.message (append (cause_part ev.cause) (ts_part ck ev.ts))

unfoldable pub episode_lines : Clock → ℕ → List Episode → List String
unfolding join_texts
episode_lines ck i [] = []
episode_lines ck i (e ∷ es) =
    join_texts "" ("[" ∷ show i ∷ "] " ∷ e.incident_type ∷ "  " ∷ ck.iso e.created_at ∷ [])
    ∷ append "    " e.narrative
    ∷ append "    cited: " (join_texts "; " (map (cited_text ck) e.cited_evidence))
    ∷ episode_lines ck (suc i) es

abbrev pub more_line : ℕ → ℕ → List String
more_line limit n =
    if ltb limit n
    then join_texts "" ("    ... (" ∷ show (n - limit) ∷ " more match(es) not shown)" ∷ []) ∷ []
    else []

-- The text of the matches, of the number of episodes stored.
abbrev pub answer : Clock → ℕ → ℕ → List Episode → String
answer ck limit stored [] = join_texts "" (
    "Episodic memory: no Episode matches the filters (" ∷ show stored ∷ " Episode(s) stored)." ∷ [])
answer ck limit stored (e ∷ es) = join_texts "\n" (
    join_texts "" (
        "Episodic memory matches ("
        ∷ show (length (e ∷ es))
        ∷ " of "
        ∷ show stored
        ∷ " Episode(s)):"
        ∷ [])
      ∷ episode_lines ck 1 (take limit (e ∷ es))
    ++ more_line limit (length (e ∷ es)))

-- The episodes that a query shows, the newest first.
unfoldable pub found : Option String → Option String → Option ℕ → List Episode → List Episode
unfolding sort_with matches
found incident_type message cause es =
    sort_with newer (keep (λ e. matches e incident_type message cause) es)

-- `query_episodic_memory`
unfoldable pub query_episodic_memory :
    Codec Episode → Clock → Option String → Option String → Option String → Option ℕ → ℕ → String
unfolding load found
query_episodic_memory cd ck file incident_type message cause limit = elim (load cd file) [
  | [] ↦ "Episodic memory is empty (no Episodes stored)."
  | e ∷ es ↦ answer ck limit (length (e ∷ es)) (found incident_type message cause (e ∷ es))
]
