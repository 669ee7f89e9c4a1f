-- ===== src/Dispatch/Runbook/Parse/Valid.antt =====
-- A runbook that is loaded is valid (dispatch/dispatch/runbook.py, `parse_runbook`).
use g_pcap.Prelude.{
  bind-some, bind, ◌<◌, String, true, false, ◌≡◌, refl, subst, if_cases, length, Option, none, some,
  List, [], ◌∷◌, All, arith,
}
use g_pcap.Prelude.Chars.{is_empty_text}
use g_pcap.Prelude.Dict.{Dict}
use g_pcap.Prelude.Sets.{mem}
use g_pcap.Prelude.Text.{String-discrete}
use g_pcap.Dispatch.Json.{Json, lookup, as_text, as_list, as_dict}
use g_pcap.Dispatch.Executor.{Sandbox, actions}
use g_pcap.Dispatch.Runbook.{Resolution, Runbook}
use g_pcap.Dispatch.Runbook.Parse.{
  frontmatter, all_known, full_text, optional_text, optional_day, dict_or_empty, scalars, prose,
  not_empty, steps_of, known_action, texts_of, resolution_of, runbook_of, if_known, or_skip,
  parse_runbook, load_runbooks,
}

-- A slug and a title, steps of prose, and a resolution of the executor's vocabulary.
pub record IsValid (rb : Runbook) : Type 0 where
  pub with_slug : is_empty_text rb.slug ≡ false
  pub with_title : is_empty_text rb.title ≡ false
  pub stepped : 0 < length rb.steps
  pub worded : All (λ s. is_empty_text s ≡ false) rb.steps
  pub resolved : mem String-discrete rb.resolution.action actions ≡ true

full_text-some : (o : Option String) (s : String) → full_text o ≡ some s → is_empty_text s ≡ false
full_text-some none s e = cc
full_text-some (some t) s e =
    if_cases (λ o. o ≡ some s → is_empty_text s ≡ false) (is_empty_text t) none (some t) (λ h q. cc)
      (λ h q. let same : t ≡ s = cc in subst (λ x. is_empty_text x ≡ false) same h) e

prose-All :
    (vs : List Json) (ss : List String) → prose vs ≡ some ss → All (λ s. is_empty_text s ≡ false) ss
unfolding prose
prose-All [] ss e = let same : [] ≡ ss = cc in subst (All (λ s. is_empty_text s ≡ false)) same tt
prose-All (v ∷ vs) ss e =
    let (s, h, r) =
      bind-some (full_text (as_text v)) (λ s. bind (prose vs) (λ ts. some (s ∷ ts))) ss e in
    let (ts, p, q) = bind-some (prose vs) (λ ts. some (s ∷ ts)) ss r in
    let same : s ∷ ts ≡ ss = cc in
    subst (All (λ t. is_empty_text t ≡ false)) same
      (full_text-some (as_text v) s h, prose-All vs ts p)

not_empty-some : (ss ts : List String) → not_empty ss ≡ some ts → (0 < length ts) × (ss ≡ ts)
not_empty-some [] ts e = cc
not_empty-some (s ∷ ss) ts e =
    let same : s ∷ ss ≡ ts = cc in (subst (λ x. 0 < length x) same (omega arith), same)

steps_of-some :
    (v : Json) (ss : List String)
    → steps_of v ≡ some ss
    → (0 < length ss) × All (λ s. is_empty_text s ≡ false) ss
unfolding steps_of
steps_of-some v ss e =
    let (vs, a, r) = bind-some (as_list v) (λ vs. bind (prose vs) not_empty) ss e in
    let (ts, p, q) = bind-some (prose vs) not_empty ss r in
    let (long, same) = not_empty-some ts ss q in
    (long, subst (All (λ s. is_empty_text s ≡ false)) same (prose-All vs ts p))

known_action-some : (a b : String) → known_action a ≡ some b → mem String-discrete b actions ≡ true
known_action-some a b e =
    if_cases (λ o. o ≡ some b → mem String-discrete b actions ≡ true)
      (mem String-discrete a actions) (some a) none
      (λ h q. let same : a ≡ b = cc in subst (λ x. mem String-discrete x actions ≡ true) same h)
      (λ h q. cc) e

resolution_of-some :
    (sb : Sandbox) (v : Json) (r : Resolution)
    → resolution_of sb v ≡ some r
    → mem String-discrete r.action actions ≡ true
unfolding resolution_of
resolution_of-some sb v r e =
    let (d, e1, q1) = bind-some (as_dict v) _ r e in
    let (action, e2, q2) = bind-some (bind (as_text (lookup "action" d)) known_action) _ r q1 in
    let (args, e3, q3) = bind-some (bind (dict_or_empty (lookup "args" d)) scalars) _ r q2 in
    let (a, e4, q4) = bind-some (as_text (lookup "action" d)) known_action action e2 in
    let same : record { action = action; args = texts_of sb args } ≡ r = cc in
    subst (λ x. mem String-discrete x.action actions ≡ true) same (known_action-some a action q4)

runbook_of-IsValid :
    (sb : Sandbox) (d : Dict String Json) (rb : Runbook) → runbook_of sb d ≡ some rb → IsValid rb
unfolding runbook_of
runbook_of-IsValid sb d rb e =
    let (slug, e1, q1) = bind-some (full_text (as_text (lookup "slug" d))) _ rb e in
    let (title, e2, q2) = bind-some (full_text (as_text (lookup "title" d))) _ rb q1 in
    let (procedure, e3, q3) = bind-some (optional_text (lookup "procedure" d)) _ rb q2 in
    let (added, e4, q4) = bind-some (optional_day (lookup "added" d)) _ rb q3 in
    let (symptoms, e5, q5) =
      bind-some (bind (dict_or_empty (lookup "symptoms" d)) scalars) _ rb q4 in
    let (steps, e6, q6) = bind-some (steps_of (lookup "steps" d)) _ rb q5 in
    let (resolution, e7, q7) = bind-some (resolution_of sb (lookup "resolution" d)) _ rb q6 in
    let (long, worded) = steps_of-some (lookup "steps" d) steps e6 in
    let same : record {
      slug = slug;
      title = title;
      procedure = procedure;
      added = added;
      symptoms = symptoms;
      steps = steps;
      resolution = resolution;
    }
        ≡ rb =
      cc in
    subst IsValid same (record {
      with_slug = full_text-some (as_text (lookup "slug" d)) slug e1;
      with_title = full_text-some (as_text (lookup "title" d)) title e2;
      stepped = long;
      worded = worded;
      resolved = resolution_of-some sb (lookup "resolution" d) resolution e7;
    })

parse_runbook-IsValid :
    (sb : Sandbox) (yaml : String → Option Json) (t : String) (rb : Runbook)
    → parse_runbook sb yaml t ≡ some rb
    → IsValid rb
unfolding parse_runbook
parse_runbook-IsValid sb yaml t rb e =
    let (fm, e1, q1) =
      bind-some (frontmatter t) (λ fm. bind (yaml fm) (λ v. bind (as_dict v) (if_known sb))) rb e in
    let (v, e2, q2) = bind-some (yaml fm) (λ v. bind (as_dict v) (if_known sb)) rb q1 in
    let (d, e3, q3) = bind-some (as_dict v) (if_known sb) rb q2 in
    if_cases (λ o. o ≡ some rb → IsValid rb) (all_known d) (runbook_of sb d) none
      (λ h q. runbook_of-IsValid sb d rb q) (λ h q. cc) q3

or_skip-All :
    (o : Option Runbook) (rbs : List Runbook)
    → ((rb : Runbook) → o ≡ some rb → IsValid rb)
    → All IsValid rbs
    → All IsValid (or_skip o rbs)
or_skip-All none rbs h rest = rest
or_skip-All (some rb) rbs h rest = (h rb refl, rest)

-- Whatever the files hold and however YAML reads them, each runbook that is loaded has a slug, a
-- title and steps that are not empty, and resolves to an action of the executor's vocabulary.
pub load_runbooks-IsValid :
    (sb : Sandbox) (yaml : String → Option Json) (ts : List String)
    → All IsValid (load_runbooks sb yaml ts)
unfolding load_runbooks
load_runbooks-IsValid sb yaml [] = tt
load_runbooks-IsValid sb yaml (t ∷ ts) =
    or_skip-All (parse_runbook sb yaml t) (load_runbooks sb yaml ts)
      (parse_runbook-IsValid sb yaml t) (load_runbooks-IsValid sb yaml ts)
