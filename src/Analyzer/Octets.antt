-- ===== src/Analyzer/Octets.antt =====
-- 5gcap/fivegcap/ngap.py: `_to_bytes` and `_ip_str`, which the decoders share. Python's reader of
-- literals is a parameter, which gives nothing where it raises or reads no bytes.
use Prim.Native.Char.{code}
use Prim.Native.String.{◌++◌ as append}
use package.text.Mathlib.Text.{◌==◌ as str_eq}
use g_pcap.Prelude.{
  ℕ, ◌/◌, ◌%◌, String, Bool, ◌&&◌, ◌||◌, ◌==◌, leb, if◌then◌else◌, length, Option, none, some, List,
  [], ◌∷◌, get_elem?,
}
use g_pcap.Prelude.Chars.{is_empty_text, after}
use g_pcap.Analyzer.Value.{Val, bytes, text, Ip, v4, v6}

abbrev pub hex_digits : List String
hex_digits =
    "0" ∷ "1" ∷ "2" ∷ "3" ∷ "4" ∷ "5" ∷ "6" ∷ "7" ∷ "8" ∷ "9" ∷ "a" ∷ "b" ∷ "c" ∷ "d" ∷ "e" ∷ "f"
    ∷ []

abbrev pub hex_digit : ℕ → String
hex_digit n = elim (get_elem? hex_digits n) [ none ↦ "" | some d ↦ d ]

-- A control byte or one above the ASCII range, as `re.sub`'s class has them.
abbrev pub is_unprintable : ℕ → Bool
is_unprintable c = leb c 0x1f || leb 0x7f c && leb c 0xff

-- The text with these characters as `\xNN`.
unfoldable pub reescape : String → String
reescape String.[] = String.[]
reescape (String.◌∷◌ c s) =
    if is_unprintable (code c)
    then append "\\x"
        (append (hex_digit (code c / 16)) (append (hex_digit (code c % 16)) (reescape s)))
    else String.◌∷◌ c (reescape s)

-- What stands before the last quote, at the end of the text or before a last newline.
unfoldable pub body : String → Option String
body String.[] = none
body (String.◌∷◌ c s) = elim (body s) [
  | some t ↦ some (String.◌∷◌ c t)
  | none ↦ if code c == b'\'' && (is_empty_text s || str_eq s "\n") then some String.[] else none
]

abbrev pub literal_of : (String → Option (List ℕ)) → Option String → Option (List ℕ)
literal_of literal_eval none = none
literal_of literal_eval (some inner) = literal_eval (append "b'" (append (reescape inner) "'"))

abbrev pub quoted_body : Option String → Option String
quoted_body none = none
quoted_body (some s) = body s

-- `_to_bytes`
unfoldable pub to_bytes : (String → Option (List ℕ)) → Val → Option (List ℕ)
unfolding reescape body after
to_bytes literal_eval (bytes bs) = some bs
to_bytes literal_eval (text s) = literal_of literal_eval (quoted_body (after "b'" s))
to_bytes literal_eval _ = none

-- What `_ip_str(_to_bytes(v))` does: it raises where there are no bytes.
pub data Address : Type 0 where
  raised absent : Address
  found : Ip → Address

-- `_ip_str`
unfoldable pub ip_str : Option (List ℕ) → Address
ip_str none = raised
ip_str (some bs) =
    if length bs == 4 then found (v4 bs) else if length bs == 16 then found (v6 bs) else absent

unfoldable pub address_of : (String → Option (List ℕ)) → Val → Address
unfolding to_bytes ip_str
address_of literal_eval v = ip_str (to_bytes literal_eval v)
