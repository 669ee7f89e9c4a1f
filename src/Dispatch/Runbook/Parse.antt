-- ===== src/Dispatch/Runbook/Parse.antt =====
-- dispatch/dispatch/runbook.py: `parse_runbook` and `load_runbooks`. YAML's reader is a parameter,
-- which gives nothing where it raises, and so is the directory's content.
pub mod Valid
use package.text.Mathlib.Text.{◌==◌ as str_eq}
use g_pcap.Prelude.{
  bind, ℕ, String, Bool, true, false, not, ◌||◌, if◌then◌else◌, Option, none, some, List, [], ◌∷◌,
}
use g_pcap.Prelude.Chars.{is_empty_text, after, before}
use g_pcap.Prelude.Dict.{Dict}
use g_pcap.Prelude.Sets.{mem}
use g_pcap.Prelude.Text.{String-discrete}
use g_pcap.Dispatch.Json.{
  Json, null, flag, number, text, day, list, dict, Items, nil, cons, Members, end, member, lookup,
  as_text, as_dict, as_list,
}
use g_pcap.Dispatch.Executor.{Sandbox, actions, str_of}
use g_pcap.Dispatch.Runbook.{Resolution, Runbook}

-- `_split_frontmatter`, of which the body is not read
unfoldable pub frontmatter : String → Option String
unfolding after before
frontmatter t = bind (after "---\n" t) (before "\n---")

abbrev pub frontmatter_keys : List String
frontmatter_keys =
    "slug" ∷ "title" ∷ "procedure" ∷ "added" ∷ "symptoms" ∷ "steps" ∷ "resolution" ∷ []

unfoldable pub all_known : Dict String Json → Bool
all_known [] = true
all_known ((k, v) ∷ d) = if mem String-discrete k frontmatter_keys then all_known d else false

-- A text that is not empty.
abbrev pub full_text : Option String → Option String
full_text none = none
full_text (some s) = if is_empty_text s then none else some s

abbrev pub optional_text : Json → Option (Option String)
optional_text null = some none
optional_text (text s) = some (some s)
optional_text _ = none

abbrev pub optional_day : Json → Option (Option ℕ)
optional_day null = some none
optional_day (day d) = some (some d)
optional_day _ = none

-- `value or {}`, which must be a dict
abbrev pub dict_or_empty : Json → Option (Dict String Json)
dict_or_empty null = some []
dict_or_empty (flag b) = if b then none else some []
dict_or_empty (number n) =
    if str_eq n "0" || (str_eq n "0.0" || str_eq n "-0.0") then some [] else none
dict_or_empty (text s) = if is_empty_text s then some [] else none
dict_or_empty (day d) = none
dict_or_empty (list nil) = some []
dict_or_empty (list (cons v vs)) = none
dict_or_empty (dict ms) = as_dict (dict ms)

-- `_scalar`
abbrev pub scalar : Json → Option Json
scalar (text s) = some (text s)
scalar (number n) = some (number n)
scalar _ = none

unfoldable pub scalars : Dict String Json → Option (List (String × Json))
scalars [] = some []
scalars ((k, v) ∷ d) = bind (scalar v) (λ x. bind (scalars d) (λ xs. some ((k, x) ∷ xs)))

abbrev pub texts_of : Sandbox → List (String × Json) → Dict String String
texts_of sb [] = []
texts_of sb ((k, v) ∷ xs) = (k, str_of sb v) ∷ texts_of sb xs

unfoldable pub prose : List Json → Option (List String)
prose [] = some []
prose (v ∷ vs) = bind (full_text (as_text v)) (λ s. bind (prose vs) (λ ss. some (s ∷ ss)))

-- The steps are a list that is not empty, of texts that are not empty.
abbrev pub not_empty : List String → Option (List String)
not_empty [] = none
not_empty (s ∷ ss) = some (s ∷ ss)

unfoldable pub steps_of : Json → Option (List String)
unfolding prose
steps_of v = bind (as_list v) (λ vs. bind (prose vs) not_empty)

abbrev pub known_action : String → Option String
known_action a = if mem String-discrete a actions then some a else none

unfoldable pub resolution_of : Sandbox → Json → Option Resolution
unfolding scalars
resolution_of sb v = bind (as_dict v) (λ d.
    bind (bind (as_text (lookup "action" d)) known_action) (λ action.
      bind (bind (dict_or_empty (lookup "args" d)) scalars)
        (λ args. some (record { action = action; args = texts_of sb args }))))

-- The fields of the frontmatter.
unfoldable pub runbook_of : Sandbox → Dict String Json → Option Runbook
unfolding resolution_of steps_of scalars
runbook_of sb d = bind (full_text (as_text (lookup "slug" d))) (λ slug.
    bind (full_text (as_text (lookup "title" d))) (λ title.
      bind (optional_text (lookup "procedure" d)) (λ procedure.
        bind (optional_day (lookup "added" d)) (λ added.
          bind (bind (dict_or_empty (lookup "symptoms" d)) scalars) (λ symptoms.
            bind (steps_of (lookup "steps" d)) (λ steps.
              bind (resolution_of sb (lookup "resolution" d)) (λ resolution. some (record {
                slug = slug;
                title = title;
                procedure = procedure;
                added = added;
                symptoms = symptoms;
                steps = steps;
                resolution = resolution;
              }))))))))

abbrev pub if_known : Sandbox → Dict String Json → Option Runbook
if_known sb d = if all_known d then runbook_of sb d else none

-- `parse_runbook`, of the file's text
unfoldable pub parse_runbook : Sandbox → (String → Option Json) → String → Option Runbook
unfolding frontmatter all_known runbook_of
parse_runbook sb yaml t =
    bind (frontmatter t) (λ fm. bind (yaml fm) (λ v. bind (as_dict v) (if_known sb)))

abbrev pub or_skip : Option Runbook → List Runbook → List Runbook
or_skip none rbs = rbs
or_skip (some rb) rbs = rb ∷ rbs

-- `load_runbooks`, of the texts of the directory's .md files in the order of their paths, without
-- those that cannot be read; a directory that is missing has none
unfoldable pub load_runbooks : Sandbox → (String → Option Json) → List String → List Runbook
unfolding parse_runbook
load_runbooks sb yaml [] = []
load_runbooks sb yaml (t ∷ ts) = or_skip (parse_runbook sb yaml t) (load_runbooks sb yaml ts)
