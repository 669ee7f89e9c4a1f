-- ===== src/Triage/Search/Action.antt =====
-- triage/triage/search.py: `parse_action`, which dispatch/dispatch/root_cause.py uses too. Python's
-- `lower` is a parameter.
use g_pcap.Prelude.{ℕ, String, Bool, ◌&&◌, ◌||◌, ◌==◌, if◌then◌else◌, ◌≡◌, refl}
use g_pcap.Prelude.Chars.{strip, strip_by, rstrip_by, is_empty_text, partition, starts_in, ends_in}

-- `s[:-1]` and `s[1:-1]`
abbrev pub but_last : String → String
but_last String.[] = String.[]
but_last (String.◌∷◌ c s) = if is_empty_text s then String.[] else String.◌∷◌ c (but_last s)

abbrev pub inner : String → String
inner String.[] = String.[]
inner (String.◌∷◌ c s) = but_last s

abbrev pub is_quote : ℕ → Bool
is_quote c = c == b'"' || c == b'\''

-- The argument without its quotes, and without brackets around it.
unfoldable pub clean_argument : String → String
unfolding strip strip_by starts_in ends_in
clean_argument argument =
    let bare = strip (strip_by is_quote (strip argument)) in
    if starts_in b'[' bare && ends_in b']' bare then strip (inner bare) else bare

-- The text cut at its first space, or at its first colon where it has no space.
abbrev pub cut : String → String × Bool × String
cut t =
    let (tool, found, argument) = partition b' ' t in
    if found then (tool, found, argument) else partition b':' t

-- `parse_action`
unfoldable pub parse_action : (String → String) → String → String × String
unfolding strip rstrip_by clean_argument
parse_action lower text =
    let t = strip text in
    let (tool, found, argument) = cut t in
    if is_empty_text t
    then ("", "")
    else (lower (rstrip_by (λ c. c == b':') tool), clean_argument argument)

finalize_action : parse_action (λ s. s) " finalize: \"x\" " ≡ ("finalize", "x")
unfolding parse_action partition
finalize_action = refl

inspect_action : parse_action (λ s. s) "inspect:[flows]" ≡ ("inspect", "flows")
unfolding parse_action partition
inspect_action = refl
