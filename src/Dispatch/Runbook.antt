-- ===== src/Dispatch/Runbook.antt =====
-- dispatch/dispatch/runbook.py: the runbooks, their match with an incident, the context that they
-- give, and the placeholders that are bound from the evidence.
pub mod Matches
pub mod Parse
use Prim.Native.Char.{code}
use Prim.Native.String
use Prim.Native.String.{◌++◌ as append}
use package.text.Mathlib.Text.{◌==◌ as str_eq}
use g_pcap.Prelude.{
  ℕ, zero, suc, ◌+◌, ◌*◌, String, Bool, true, false, not, ◌&&◌, ◌||◌, if◌then◌else◌, leb, ◌==◌,
  Option, none, some, List, [], ◌∷◌, ◌++◌, map, length, keep,
}
use g_pcap.Prelude.Dict.{Dict, get, put}
use g_pcap.Prelude.Keys.{pair_discrete}
use g_pcap.Prelude.Order.{sort_with, text_leb, take}
use g_pcap.Prelude.Sets.{mem, add}
use g_pcap.Prelude.Text.{String-discrete, truthy, show}
use g_pcap.Prelude.Chars.{join_texts, is_empty_text}
use g_pcap.Dispatch.Json.{Json, lookup, as_text, text}
use g_pcap.Dispatch.Executor.{Sandbox, Checked, ok, refused, unbound_placeholder, str_of}

-- One item's "keys".
abbrev pub Keys : Type 0
Keys = Dict String Json

pub record Resolution : Type 0 where
  pub action : String
  pub args : Dict String String

-- `added` by the date's ordinal, which is positive
pub record Runbook : Type 0 where
  pub slug : String
  pub title : String
  pub procedure : Option String
  pub added : Option ℕ
  pub symptoms : List (String × Json)
  pub steps : List String
  pub resolution : Resolution

abbrev pub or_text : String → Option String → String
or_text other o = if truthy o then elim o [ none ↦ other | some s ↦ s ] else other

abbrev pub added_or_min : Option ℕ → ℕ
added_or_min none = 1
added_or_min (some d) = d

unfoldable pub Signature-discrete : Discrete (String × String)
unfolding pair_discrete String-discrete
Signature-discrete = pair_discrete String-discrete String-discrete

abbrev pub signed : Sandbox → String × Json → String × String
signed sb (k, v) = (k, str_of sb v)

-- A set of the pairs of a list.
abbrev pub set_of : List (String × String) → List (String × String) → List (String × String)
set_of seen [] = seen
set_of seen (p ∷ ps) = set_of (add Signature-discrete p seen) ps

-- `_evidence_keys`
unfoldable pub evidence_keys : Sandbox → List Keys → List (String × String)
evidence_keys sb [] = []
evidence_keys sb (ks ∷ items) = set_of (set_of [] (map (signed sb) ks)) (evidence_keys sb items)

-- The elements of one set that are in the other.
abbrev pub shared : List (String × String) → List (String × String) → List (String × String)
shared keys symptoms = keep (λ p. mem Signature-discrete p symptoms) keys

-- The score of one runbook.
unfoldable pub score : Sandbox → String → List (String × String) → Runbook → ℕ
score sb procedure keys rb =
    3 * length (shared keys (set_of [] (map (signed sb) rb.symptoms)))
    + (if str_eq (or_text "" rb.procedure) procedure then 2 else 0)

-- The runbooks with a score of two or more.
unfoldable pub scored :
    Sandbox → String → List (String × String) → List Runbook → List (ℕ × Runbook)
unfolding score
scored sb procedure keys [] = []
scored sb procedure keys (rb ∷ rbs) =
    let rest = scored sb procedure keys rbs in
    if leb 2 (score sb procedure keys rb) then (score sb procedure keys rb, rb) ∷ rest else rest

-- The three orders, of which the last decides first.
abbrev pub by_slug : ℕ × Runbook → ℕ × Runbook → Bool
by_slug p q = text_leb p.1.slug q.1.slug

abbrev pub newest_first : ℕ × Runbook → ℕ × Runbook → Bool
newest_first p q = leb (added_or_min q.1.added) (added_or_min p.1.added)

abbrev pub highest_first : ℕ × Runbook → ℕ × Runbook → Bool
highest_first p q = leb q.0 p.0

unfoldable pub ranked : List (ℕ × Runbook) → List (ℕ × Runbook)
unfolding sort_with
ranked ps = sort_with highest_first (sort_with newest_first (sort_with by_slug ps))

-- `match_runbooks`, of the event's procedure
unfoldable pub match_runbooks : Sandbox → List Runbook → Option String → List Keys → List Runbook
unfolding scored ranked evidence_keys
match_runbooks sb rbs procedure items =
    map (λ p. p.1) (take 3 (ranked (scored sb (or_text "" procedure) (evidence_keys sb items) rbs)))

-- `runbook_context`, with `json.dumps` of a resolution's arguments as a parameter
abbrev pub pair_text : String × String → String
pair_text (k, v) = append k (append "=" v)

abbrev pub or_none_text : String → String
or_none_text s = if is_empty_text s then "(none)" else s

abbrev pub step_lines : ℕ → List String → List String
step_lines n [] = []
step_lines n (s ∷ ss) = append "      " (append (show n) (append ". " s)) ∷ step_lines (suc n) ss

abbrev pub steps_part : List String → List String
steps_part [] = []
steps_part (s ∷ ss) = "    steps:" ∷ step_lines 1 (s ∷ ss)

unfoldable pub runbook_lines :
    Sandbox → (Dict String String → String) → ℕ → List Runbook → List String
unfolding join_texts
runbook_lines sb dumps n [] = []
runbook_lines sb dumps n (rb ∷ rbs) =
    (join_texts "" ("[" ∷ show n ∷ "] Runbook " ∷ rb.slug ∷ " — " ∷ rb.title ∷ []))
      ∷ (join_texts "" (
          "    procedure: "
          ∷ or_text "(none)" rb.procedure
          ∷ " · symptoms: "
          ∷ or_none_text (join_texts ", " (map (λ s. pair_text (signed sb s)) rb.symptoms))
          ∷ []))
      ∷ steps_part rb.steps
    ++ (join_texts ""
        ("    resolution: " ∷ rb.resolution.action ∷ " " ∷ dumps rb.resolution.args ∷ []))
      ∷ runbook_lines sb dumps (suc n) rbs

abbrev pub pair_leb : String × String → String × String → Bool
pair_leb (k, v) (j, w) = if str_eq k j then text_leb v w else text_leb k j

unfoldable pub runbook_context :
    Sandbox → (Dict String String → String) → List Runbook → List Keys → ℕ → String
unfolding runbook_lines join_texts evidence_keys sort_with
runbook_context sb dumps matches items total = join_texts "\n" (
    join_texts "" (
        "Runbooks retrieved from procedural memory ("
        ∷ show (length matches)
        ∷ " of "
        ∷ show total
        ∷ " Runbook(s)):"
        ∷ [])
      ∷ runbook_lines sb dumps 1 matches
    ++ append "Evidence keys: " (
        or_none_text
          (join_texts ", " (map pair_text (sort_with pair_leb (evidence_keys sb items)))))
      ∷ "Bind any {placeholder} resolution args from these keys."
      ∷ [])

-- The rest of a placeholder after its brace: its name up to the closing brace, at the end of the
-- text or before a last newline.
abbrev pub ends_here : String → Bool
ends_here s = is_empty_text s || str_eq s "\n"

unfoldable pub name_of : (ℕ → Bool) → String → Option String
name_of is_word String.[] = none
name_of is_word (String.◌∷◌ c s) =
    let rest = name_of is_word s in
    if code c == b'}' && ends_here s
    then some String.[]
    else if is_word (code c)
    then elim rest [ none ↦ none | some t ↦ some (String.◌∷◌ c t) ]
    else none

-- `_PLACEHOLDER_RE.match(value)` and its group; `is_word` is `\w`.
unfoldable pub placeholder : (ℕ → Bool) → String → Option String
unfolding name_of
placeholder is_word String.[] = none
placeholder is_word (String.◌∷◌ c s) =
    if code c == b'{'
    then elim (name_of is_word s) [
      | none ↦ none
      | some t ↦ if is_empty_text t then none else some t
    ]
    else none

-- The value of the first item that has the key.
abbrev pub first_value : String → List Keys → Option Json
first_value name [] = none
first_value name (ks ∷ items) = elim (get String-discrete name ks) [
  | none ↦ first_value name items
  | some v ↦ some v
]

abbrev pub or_unbound : Option Json → Checked Json
or_unbound none = refused unbound_placeholder
or_unbound (some v) = ok v

unfoldable pub bind_value : (ℕ → Bool) → List Keys → Json → Checked Json
unfolding placeholder
bind_value is_word items v = elim (as_text v) [
  | none ↦ ok v
  | some s ↦ elim (placeholder is_word s) [
    | none ↦ ok v
    | some name ↦ or_unbound (first_value name items)
  ]
]

abbrev pub add_bound :
    String → Checked Json → Checked (Dict String Json) → Checked (Dict String Json)
add_bound k (refused r) rest = refused r
add_bound k (ok v) (refused r) = refused r
add_bound k (ok v) (ok rest) = ok ((k, v) ∷ rest)

-- `bind_placeholders`; the keys of a dict differ, so each assignment adds one at the end.
unfoldable pub bind_placeholders :
    (ℕ → Bool) → List Keys → Dict String Json → Checked (Dict String Json)
unfolding bind_value
bind_placeholders is_word items [] = ok []
bind_placeholders is_word items ((k, v) ∷ args) =
    add_bound k (bind_value is_word items v) (bind_placeholders is_word items args)
