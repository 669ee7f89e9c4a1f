-- ===== src/Analyzer/Nas.antt =====
-- 5gcap/fivegcap/nas.py: NAS-5G decoding. pycrate's parser and its cause dictionaries are the
-- parameter `NasLibrary`; a message that it parses is a tree of named elements, `NasTree`.
pub mod Fate
pub mod Decoded
use package.text.Mathlib.Text.{starts_with, find?, ◌==◌ as str_eq}
use Prim.Native.String.{◌++◌ as append}
use g_pcap.Prelude.{
  ℕ, zero, suc, ◌+◌, ◌*◌, ◌/◌, ◌%◌, String, Bool, true, false, ◌&&◌, ◌||◌, ◌==◌, ltb, if◌then◌else◌,
  is_some, length, Option, none, some, List, [], ◌∷◌,
}
use g_pcap.Prelude.Text.{truthy, show}
use g_pcap.Analyzer.Value.{
  Val, Vals, null, int, bool, bytes, text, list, dict, nil, cons, size, item, equals, as_int,
}

pub record NasMsg : Type 0 where
  pub name : Option String
  pub protected : Bool
  pub inner : Option String
  pub cause : Option ℕ
  pub cause_name : Option String
  pub ciph_algo : Option ℕ
  pub integ_algo : Option ℕ
  pub supi : Option String
  pub guti : Option (String × Vals)
  pub unparsed : Option String

mutual
  -- A parsed message: its `_name`, the name of its type, and its elements; or one whose
  -- `_content` cannot be read.
  pub data NasTree : Type 0 where
    message : Option String → String → Elements → NasTree
    opaque : Option String → String → NasTree

  -- An element has a name and a value. One whose `_content[1]` is there holds a nested message.
  pub data Elements : Type 0 where
    end : Elements
    plain : Option String → Val → Elements → Elements
    holder : Option String → Val → NasTree → Elements → Elements

-- `parse_NAS5G`: it raises, with the exception's text, or returns an error code or a message.
pub data ParseResult : Type 0 where
  raised : String → ParseResult
  refused : ℕ → ParseResult
  parsed : NasTree → ParseResult

pub record NasLibrary : Type 0 where
  pub parse : List ℕ → ParseResult
  pub mm_cause : ℕ → Option String
  pub sm_cause : ℕ → Option String

abbrev pub blank : NasMsg
blank = record {
  name = none;
  protected = false;
  inner = none;
  cause = none;
  cause_name = none;
  ciph_algo = none;
  integ_algo = none;
  supi = none;
  guti = none;
  unparsed = none;
}

-- `getattr(parsed, "_name", None) or type(parsed).__name__`
name_or : Option String → String → String
name_or none ty = ty
name_or (some n) ty = if truthy (some n) then n else ty

unfoldable pub name_of : NasTree → String
unfolding name_or
name_of (message n ty es) = name_or n ty
name_of (opaque n ty) = name_or n ty

-- The two nibbles of a byte, least-significant first, each 0xF dropped.
unfoldable pub nibble : ℕ → String
nibble n = if n == 15 then "" else show n

unfoldable pub bcd_digits : List ℕ → String
unfolding nibble
bcd_digits [] = ""
bcd_digits (b ∷ bs) = append (append (nibble (b % 16)) (nibble (b / 16))) (bcd_digits bs)

-- What iterating over a value yields as numbers; `none` where that raises.
abbrev numbers : Vals → Option (List ℕ)
numbers nil = some []
numbers (cons v vs) = elim (as_int v) [
  | none ↦ none
  | some n ↦ elim (numbers vs) [ none ↦ none | some ns ↦ some (n ∷ ns) ]
]

unfoldable pub bcd_of : Val → Option String
unfolding bcd_digits
bcd_of (bytes bs) = some (bcd_digits bs)
bcd_of (list vs) = elim (numbers vs) [ none ↦ none | some ns ↦ some (bcd_digits ns) ]
bcd_of (text s) = if str_eq s "" then some "" else none
bcd_of _ = none

-- `msg.supi` from a null-scheme SUCI (ProtSchemeID 0).
unfoldable pub suci_supi : Val → Option String
unfolding bcd_of
suci_supi (list suci) =
    if ltb 5 (size suci) && equals (item suci 3) 0
    then elim (bcd_of (item suci 0)) [
      | none ↦ none
      | some plmn ↦ elim (bcd_of (item suci 5)) [
        | none ↦ none
        | some msin ↦ some (append plmn msin)
      ]
    ]
    else none
suci_supi _ = none

abbrev last_four : Vals → Vals
last_four vs = cons (item vs 4) (cons (item vs 5) (cons (item vs 6) (cons (item vs 7) nil)))

-- A 5G-GUTI: the digits of its PLMN, and the region, the set id, the pointer and the TMSI.
unfoldable pub identity : Vals → NasMsg → NasMsg
unfolding suci_supi bcd_of
identity content msg =
    if size content == 5 && equals (item content 3) 1
    then elim (suci_supi (item content 4)) [ none ↦ msg | some s ↦ record msg { supi = some s } ]
    else if size content == 8 && equals (item content 2) 2
    then elim (bcd_of (item content 3)) [
      | none ↦ msg
      | some plmn ↦ record msg { guti = some (plmn, last_four content) }
    ]
    else msg

abbrev identity_in : Val → NasMsg → NasMsg
identity_in (list content) msg = identity content msg
identity_in _ msg = msg

-- `_extract_5gsid`: the content is the second item of a list that has one.
unfoldable pub extract_5gsid : Val → NasMsg → NasMsg
unfolding identity
extract_5gsid (list vs) msg =
    if ltb 1 (size vs) then identity_in (item vs 1) msg else identity vs msg
extract_5gsid _ msg = msg

-- The algorithms that a SecurityModeCommand selects: the value's first item, if it is a pair.
abbrev selected : Val → NasMsg → NasMsg
selected (list (cons c (cons i nil))) msg = record msg {
  ciph_algo = as_int c;
  integ_algo = as_int i;
}
selected _ msg = msg

-- Of a value that is no list nothing is taken; the source raises at its index.
unfoldable pub security : Val → NasMsg → NasMsg
security (list (cons v vs)) msg = selected v msg
security _ msg = msg

-- `int.from_bytes(v, "big")`
abbrev pub from_bytes : ℕ → List ℕ → ℕ
from_bytes acc [] = acc
from_bytes acc (b ∷ bs) = from_bytes (acc * 256 + b) bs

abbrev last_item : Val → Vals → Val
last_item v nil = v
last_item v (cons w vs) = last_item w vs

-- The number of a cause value, which comes as [value] or [tag, value].
unfoldable pub cause_number : Val → Option ℕ
cause_number (list (cons v vs)) = elim (last_item v vs) [
  | bytes (b ∷ bs) ↦ some (from_bytes 0 (b ∷ bs))
  | int n ↦ some n
  | bool b ↦ as_int (bool b)
  | _ ↦ none
]
cause_number _ = none

unfoldable pub cause_of : (ℕ → Option String) → Val → NasMsg → NasMsg
unfolding cause_number
cause_of names v msg = elim (cause_number v) [
  | none ↦ msg
  | some n ↦ record msg { cause = some n; cause_name = names n }
]

-- The elements other than a payload container, by name.
unfoldable pub fill_element : NasLibrary → Option String → Val → NasMsg → NasMsg
unfolding security cause_of extract_5gsid
fill_element py none v msg = msg
fill_element py (some n) v msg =
    if str_eq n "NASSecAlgo"
    then security v msg
    else if str_eq n "5GMMCause"
    then cause_of py.mm_cause v msg
    else if str_eq n "5GSMCause"
    then cause_of py.sm_cause v msg
    else if str_eq n "5GSID"
    then extract_5gsid v msg
    else msg

abbrev is_container : Option String → Bool
is_container none = false
is_container (some n) = str_eq n "PayloadContainer"

-- A payload container that was seen: its name, and how its own elements fill the message. It is
-- taken up after the other elements, and a later one replaces it.
abbrev Deferred : Type 0
Deferred = Option (String × (NasMsg → NasMsg))

abbrev finish : Deferred → NasMsg → NasMsg
finish none msg = msg
finish (some (n, fill)) msg = fill (record msg { inner = some n })

abbrev defer : Option String → (NasMsg → NasMsg) → Deferred → Deferred
defer none fill d = d
defer (some n) fill d = if starts_with n "5GSM" then some (n, fill) else d

abbrev label : NasTree → Option String
label (message n ty es) = n
label (opaque n ty) = n

unfoldable mutual
  unfolding fill_element

  -- `_fill_from`
  pub fill_from : NasLibrary → NasTree → NasMsg → NasMsg
  fill_from py (message n ty es) msg = fill_elements py es none msg
  fill_from py (opaque n ty) msg = msg

  fill_elements : NasLibrary → Elements → Deferred → NasMsg → NasMsg
  fill_elements py end d msg = finish d msg
  fill_elements py (plain n v es) d msg = fill_elements py es d (fill_element py n v msg)
  fill_elements py (holder n v sub es) d msg =
      fill_elements py es (if is_container n then defer (label sub) (fill_from py sub) d else d)
        (fill_element py n v msg)

-- `_parse_inner`: the inner message, or the note of its refusal.
pub data InnerResult : Type 0 where
  unread : String → InnerResult
  read : NasTree → InnerResult

unfoldable pub inner_result : ParseResult → InnerResult
inner_result (raised e) = unread (append "inner NAS parse failed: " e)
inner_result (refused err) =
    unread (append (append "inner NAS parse failed (pycrate err " (show err)) ")")
inner_result (parsed t) = read t

unfoldable pub parse_inner : NasLibrary → List ℕ → InnerResult
unfolding inner_result
parse_inner py inner_data = inner_result (py.parse inner_data)

unfoldable pub refuse : Bool → String → NasMsg
refuse p note = record blank { protected = p; unparsed = some note }

-- "Commit only on full success".
unfoldable pub commit : NasLibrary → Bool → NasTree → NasMsg
commit py p t = fill_from py t (record blank { protected = p; name = some (name_of t) })

unfoldable pub commit_inner : NasLibrary → NasTree → NasTree → NasMsg
unfolding commit
commit_inner py t inner_msg =
    fill_from py inner_msg (record (commit py true t) { inner = some (name_of inner_msg) })

unfoldable pub use_inner : NasLibrary → NasTree → InnerResult → NasMsg
unfolding refuse commit_inner
use_inner py t (unread note) = refuse true note
use_inner py t (read inner_msg) = commit_inner py t inner_msg

unfoldable pub take_inner : NasLibrary → NasTree → List ℕ → NasMsg
unfolding parse_inner use_inner
take_inner py t inner_data = use_inner py t (parse_inner py inner_data)

-- A protected message with a readable header: EPD 0x7E, the security header, a four-byte MAC and
-- a sequence number, then the payload.
unfoldable pub open_protected : NasLibrary → NasTree → Option ℕ → ℕ → List ℕ → NasMsg
unfolding take_inner
open_protected py t ciph_algo shdr inner_data =
    if shdr == 1 || shdr == 3 then take_inner py t inner_data else elim ciph_algo [
      | none ↦ refuse true "security-protected (ciphering unknown: no SMC in capture)"
      | some algo ↦
          if algo == 0
          then take_inner py t inner_data
          else refuse true
              (append (append "security-protected (ciphering 5G-EA" (show algo)) " not supported)")
    ]

-- The header is stripped from a payload of more than seven bytes that begins with 0x7E.
unfoldable pub decode_protected : NasLibrary → NasTree → Option ℕ → List ℕ → NasMsg
unfolding open_protected
decode_protected py t ciph_algo (epd ∷ shdr ∷ m0 ∷ m1 ∷ m2 ∷ m3 ∷ sq ∷ b ∷ rest) =
    if epd == 0x7e
    then open_protected py t ciph_algo (shdr % 16) (b ∷ rest)
    else refuse true "security-protected (payload unreadable)"
decode_protected py t ciph_algo _ = refuse true "security-protected (payload unreadable)"

unfoldable pub is_protected : String → Bool
is_protected name = is_some (find? name "SecProt")

unfoldable pub decode_parsed : NasLibrary → List ℕ → Option ℕ → ParseResult → NasMsg
unfolding is_protected decode_protected refuse commit
decode_parsed py payload ciph_algo (raised e) = refuse false (append "NAS parse failed: " e)
decode_parsed py payload ciph_algo (refused err) =
    refuse false (append (append "NAS parse failed (pycrate err " (show err)) ")")
decode_parsed py payload ciph_algo (parsed t) =
    if is_protected (name_of t) then decode_protected py t ciph_algo payload else commit py false t

unfoldable pub decode : NasLibrary → List ℕ → Option ℕ → NasMsg
unfolding decode_parsed
decode py payload ciph_algo = decode_parsed py payload ciph_algo (py.parse payload)
