-- ===== src/Dispatch/Executor.antt =====
-- dispatch/dispatch/executor.py: the commands of a remediation, rendered from templates, and the
-- executor that runs them. What Python's `re`, `pathlib`, `hashlib`, `json` and the file system
-- answer is a parameter.
pub mod Templates
use Prim.Native.Char.{code}
use Prim.Native.String
use Prim.Native.String.{◌++◌}
use package.text.Mathlib.Text.{◌==◌ as str_eq}
use g_pcap.Prelude.{
  ℕ, zero, suc, String, Bool, true, false, not, ◌&&◌, ◌||◌, if◌then◌else◌, Option, none, some, List,
  [], ◌∷◌,
}
use g_pcap.Prelude.Dict.{Dict, get}
use g_pcap.Prelude.Sets.{mem}
use g_pcap.Prelude.Text.{String-discrete}
use g_pcap.Prelude.Chars.{starts_with}
use g_pcap.Dispatch.Json.{Json, lookup, as_text, text}

-- What can go wrong: the source raises ValueError with a message for each.
pub data Refusal : Type 0 where
  unknown_action no_compose_file unknown_service outside_sandbox bad_imsi unknown_scenario
        command_mismatch no_proposal no_hash hash_mismatch unbound_placeholder no_episode
        invalid_episode unknown_decision no_checkpoint not_awaiting step_failed :
      Refusal

pub data Checked (A : Type 0) : Type 0 where
  ok : A → Checked A
  refused : Refusal → Checked A

-- The sandbox as it is at one time, and the libraries' answers about it.
pub record Sandbox : Type 0 where
  -- `str(Path(sandbox_root))`
  pub root : String
  -- the text of core/docker-compose.yml, where the file is
  pub compose_text : Option String
  -- the first group of `re.search` for the block below "services:", and `_SERVICES_RE.findall`
  pub services_block : String → Option String
  pub service_names : String → List String
  -- `str(Path(s))`, `str((root / Path(s)).resolve())`, `str(root.resolve())` and `os.sep`
  pub path_text : String → String
  pub resolve_below : String → String
  pub resolved_root : String
  pub separator : String
  -- the characters of `\d`, and `str(v)` of a value that is not a text
  pub is_decimal : ℕ → Bool
  pub show_value : Json → String

abbrev pub actions : List String
actions =
    "restart_nf" ∷ "revert_config" ∷ "reseed_subscriber" ∷ "rerun_capture" ∷ "observe_only" ∷ []

abbrev pub scenarios : List String
scenarios =
    "auth_failure" ∷ "registration_reject" ∷ "registration_timeout" ∷ "pdu_session_reject_slice"
    ∷ "pdu_session_reject_other" ∷ "pdu_session_timeout" ∷ "pdu_session_rsp_timeout"
    ∷ "sbi_udm_timeout" ∷ "sbi_nssf_reject" ∷ "n4_upf_timeout" ∷ []

abbrev pub observe_only_note : String
observe_only_note = "observe only — no commands"

-- `str(v)`
abbrev pub str_of : Sandbox → Json → String
str_of sb v = elim (as_text v) [ none ↦ sb.show_value v | some s ↦ s ]

-- `str(args.get(key, ""))`
abbrev pub arg_text : Sandbox → String → Dict String Json → String
arg_text sb key args = elim (get String-discrete key args) [ none ↦ "" | some v ↦ str_of sb v ]

-- `core_services`
unfoldable pub core_services : Sandbox → Checked (List String)
core_services sb = elim sb.compose_text [
  | none ↦ refused no_compose_file
  | some t ↦ elim (sb.services_block t) [
    | none ↦ ok (sb.service_names "")
    | some block ↦ ok (sb.service_names block)
  ]
]

-- `v in xs` for a list of texts: no other value equals a text.
abbrev pub value_in : Json → List String → Bool
value_in v xs = elim (as_text v) [ none ↦ false | some s ↦ mem String-discrete s xs ]

-- `_IMSI_RE.fullmatch`: fourteen or fifteen digits.
unfoldable pub all_chars : (ℕ → Bool) → String → Bool
all_chars p String.[] = true
all_chars p (String.◌∷◌ c s) = p (code c) && all_chars p s

abbrev pub text_length : String → ℕ
text_length String.[] = 0
text_length (String.◌∷◌ c s) = suc (text_length s)

unfoldable pub is_imsi : Sandbox → String → Bool
unfolding all_chars
is_imsi sb s =
    all_chars sb.is_decimal s
    && (g_pcap.Prelude.◌==◌ (text_length s) 14 || g_pcap.Prelude.◌==◌ (text_length s) 15)

-- The four branches of `render` that give a command.
unfoldable pub render_restart : Sandbox → Json → Checked (List String) → Checked (List String)
render_restart sb nf (refused r) = refused r
render_restart sb nf (ok services) =
    if value_in nf services
    then ok (
        ("docker compose --project-directory " ++ sb.root ++ "/core restart " ++ str_of sb nf) ∷ [])
    else refused unknown_service

-- A config path lies below the root when its resolved text begins with the root's.
abbrev pub is_below : Sandbox → String → Bool
is_below sb path = starts_with (sb.resolved_root ++ sb.separator) (sb.resolve_below path)

unfoldable pub render_revert : Sandbox → String → Checked (List String)
render_revert sb path =
    if is_below sb path
    then ok (("git -C " ++ sb.root ++ " checkout -- " ++ sb.path_text path) ∷ [])
    else refused outside_sandbox

unfoldable pub render_reseed : Sandbox → String → Checked (List String)
unfolding is_imsi
render_reseed sb imsi =
    if is_imsi sb imsi
    then ok
        (("docker compose --project-directory " ++ sb.root ++ "/core run --rm seed " ++ imsi) ∷ [])
    else refused bad_imsi

unfoldable pub render_rerun : Sandbox → Json → Checked (List String)
render_rerun sb scenario =
    if value_in scenario scenarios
    then ok (("bash " ++ sb.root ++ "/capture.sh --scenario " ++ str_of sb scenario) ∷ [])
    else refused unknown_scenario

-- `render`
unfoldable pub render : Sandbox → String → Dict String Json → Checked (List String)
unfolding core_services render_restart render_revert render_reseed render_rerun
render sb action args =
    if not (mem String-discrete action actions)
    then refused unknown_action
    else if str_eq action "restart_nf"
    then render_restart sb (lookup "nf" args) (core_services sb)
    else if str_eq action "revert_config"
    then render_revert sb (arg_text sb "path" args)
    else if str_eq action "reseed_subscriber"
    then render_reseed sb (arg_text sb "imsi" args)
    else if str_eq action "rerun_capture"
    then render_rerun sb (lookup "scenario" args)
    else ok []

-- `Executor.dry_run`
abbrev pub or_note : Checked (List String) → Checked (List String)
or_note (refused r) = refused r
or_note (ok []) = ok (observe_only_note ∷ [])
or_note (ok (c ∷ cs)) = ok (c ∷ cs)

unfoldable pub dry_run : Sandbox → String → Dict String Json → Checked (List String)
unfolding render
dry_run sb action args = or_note (render sb action args)

-- `commands != expected`
abbrev pub same_texts : List String → List String → Bool
same_texts [] [] = true
same_texts [] (y ∷ ys) = false
same_texts (x ∷ xs) [] = false
same_texts (x ∷ xs) (y ∷ ys) = str_eq x y && same_texts xs ys

-- `Executor.apply`: the commands that the runner gets, in their order.
abbrev pub expect : List String → Checked (List String) → Checked (List String)
expect commands (refused r) = refused r
expect commands (ok expected) =
    if same_texts commands expected then ok commands else refused command_mismatch

unfoldable pub apply : Sandbox → String → Dict String Json → List String → Checked (List String)
unfolding render
apply sb action args commands = expect commands (render sb action args)

-- `proposal_hash`, of `json.dumps` with sorted keys and of sha256's hex digest
pub record Digest : Type 0 where
  pub dumps : String → Dict String Json → String → String
  pub sha256_hex : String → String

unfoldable pub proposal_hash : Digest → String → Dict String Json → String → String
proposal_hash dg action args justification = dg.sha256_hex (dg.dumps action args justification)
