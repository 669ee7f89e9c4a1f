-- ===== src/Dispatch/Executor/Templates.antt =====
-- The commands are the templates' (dispatch/dispatch/executor.py, `render`, `apply`).
use Prim.Native.String.{◌++◌}
use g_pcap.Prelude.{
  String, Bool, true, false, not, if◌then◌else◌, ◌≡◌, refl, List, [], ◌∷◌, All, Bool-cases, inl,
  inr, arith,
}
use package.text.Mathlib.Text.{◌==◌ as str_eq}
use package.text.Mathlib.TextEquality.{eq_iff}
use g_pcap.Prelude.Dict.{Dict}
use g_pcap.Prelude.Sets.{mem}
use g_pcap.Prelude.Text.{String-discrete}
use g_pcap.Dispatch.Json.{Json, lookup, text, null, flag, number, day, list, dict}
use g_pcap.Dispatch.Executor.{
  Sandbox, Checked, ok, refused, actions, scenarios, core_services, is_imsi, is_below, arg_text,
  render_restart, render_revert, render_reseed, render_rerun, render, same_texts, expect, apply,
}

-- The command lines that a sandbox allows.
pub data IsTemplate (sb : Sandbox) : String → Type 0 where
  restart :
      (services : List String) (nf : String)
      → core_services sb ≡ ok services
      → mem String-discrete nf services ≡ true
      → IsTemplate sb ("docker compose --project-directory " ++ sb.root ++ "/core restart " ++ nf)
  revert :
      (path : String)
      → is_below sb path ≡ true
      → IsTemplate sb ("git -C " ++ sb.root ++ " checkout -- " ++ sb.path_text path)
  reseed :
      (imsi : String)
      → is_imsi sb imsi ≡ true
      → IsTemplate sb
          ("docker compose --project-directory " ++ sb.root ++ "/core run --rm seed " ++ imsi)
  rerun :
      (scenario : String)
      → mem String-discrete scenario scenarios ≡ true
      → IsTemplate sb ("bash " ++ sb.root ++ "/capture.sh --scenario " ++ scenario)

-- At most one command, which is a template's.
abbrev pub AllTemplates : Sandbox → Checked (List String) → Type 0
AllTemplates sb (refused r) = Unit
AllTemplates sb (ok cs) = All (IsTemplate sb) cs

choose :
    (sb : Sandbox) (b : Bool) (r s : Checked (List String))
    → (b ≡ true → AllTemplates sb r)
    → AllTemplates sb s
    → AllTemplates sb (if b then r else s)
choose sb true r s h g = h refl
choose sb false r s h g = g

restart-AllTemplates :
    (sb : Sandbox) (nf : Json) (services : Checked (List String))
    → core_services sb ≡ services
    → AllTemplates sb (render_restart sb nf services)
unfolding render_restart
restart-AllTemplates sb nf (refused r) e = tt
restart-AllTemplates sb (text nf) (ok services) e =
    choose sb (mem String-discrete nf services) _ _ (λ m. (restart services nf e m, tt)) tt
restart-AllTemplates sb null (ok services) e = tt
restart-AllTemplates sb (flag b) (ok services) e = tt
restart-AllTemplates sb (number n) (ok services) e = tt
restart-AllTemplates sb (day d) (ok services) e = tt
restart-AllTemplates sb (list vs) (ok services) e = tt
restart-AllTemplates sb (dict ms) (ok services) e = tt

rerun-AllTemplates : (sb : Sandbox) (v : Json) → AllTemplates sb (render_rerun sb v)
unfolding render_rerun
rerun-AllTemplates sb (text s) =
    choose sb (mem String-discrete s scenarios) _ _ (λ m. (rerun s m, tt)) tt
rerun-AllTemplates sb null = tt
rerun-AllTemplates sb (flag b) = tt
rerun-AllTemplates sb (number n) = tt
rerun-AllTemplates sb (day d) = tt
rerun-AllTemplates sb (list vs) = tt
rerun-AllTemplates sb (dict ms) = tt

revert-AllTemplates : (sb : Sandbox) (path : String) → AllTemplates sb (render_revert sb path)
unfolding render_revert
revert-AllTemplates sb path = choose sb (is_below sb path) _ _ (λ m. (revert path m, tt)) tt

reseed-AllTemplates : (sb : Sandbox) (imsi : String) → AllTemplates sb (render_reseed sb imsi)
unfolding render_reseed
reseed-AllTemplates sb imsi = choose sb (is_imsi sb imsi) _ _ (λ m. (reseed imsi m, tt)) tt

-- Whatever the action and the arguments are, each command that is rendered is one of the four
-- templates, and what was put into it passed that template's check.
pub render-AllTemplates :
    (sb : Sandbox) (action : String) (args : Dict String Json)
    → AllTemplates sb (render sb action args)
unfolding render
render-AllTemplates sb action args =
    choose sb (not (mem String-discrete action actions)) _ _ (λ e. tt)
      (choose sb (str_eq action "restart_nf") _ _
        (λ e. restart-AllTemplates sb (lookup "nf" args) (core_services sb) refl)
        (choose sb (str_eq action "revert_config") _ _
          (λ e. revert-AllTemplates sb (arg_text sb "path" args))
          (choose sb (str_eq action "reseed_subscriber") _ _
            (λ e. reseed-AllTemplates sb (arg_text sb "imsi" args))
            (choose sb (str_eq action "rerun_capture") _ _
              (λ e. rerun-AllTemplates sb (lookup "scenario" args)) tt))))

pub same_texts-equal : (xs ys : List String) → same_texts xs ys ≡ true → xs ≡ ys
same_texts-equal [] [] e = refl
same_texts-equal [] (y ∷ ys) e = cc
same_texts-equal (x ∷ xs) [] e = cc
same_texts-equal (x ∷ xs) (y ∷ ys) e =
    let first : x ≡ y = (eq_iff x y).0 (ground arith) in
    let rest : xs ≡ ys = same_texts-equal xs ys (ground arith) in cc

expect-equal :
    (cs out : List String) (r : Checked (List String))
    → expect cs r ≡ ok out
    → (out ≡ cs) × (r ≡ ok cs)
expect-equal cs out (refused e) h = cc
expect-equal cs out (ok expected) h = elim (Bool-cases (same_texts cs expected)) [
  | inl e ↦ let q = same_texts-equal cs expected e in (ground arith, cc)
  | inr e ↦ ground arith
]

-- The runner gets commands only where they are the ones that this proposal renders.
pub apply-rendered :
    (sb : Sandbox) (action : String) (args : Dict String Json) (cs out : List String)
    → apply sb action args cs ≡ ok out
    → (out ≡ cs) × (render sb action args ≡ ok cs)
unfolding apply
apply-rendered sb action args cs out h = expect-equal cs out (render sb action args) h
