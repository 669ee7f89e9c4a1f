-- ===== src/Tests/Nas.antt =====
-- Tests of 5gcap/fivegcap/nas.py, with a parser that knows two messages: a protected envelope and
-- a registration reject with its cause.
use g_pcap.Prelude.{
  ℕ, String, ◌≡◌, refl, Option, none, some, List, [], ◌∷◌, ◌==◌, true, arith, if◌then◌else◌,
}
use g_pcap.Analyzer.Value.{list, bytes, nil, cons}
use g_pcap.Analyzer.Nas.{
  NasTree, NasLibrary, ParseResult, message, end, plain, parsed, refused, refuse, name_of,
  is_protected, decode, decode_parsed, decode_protected, open_protected, take_inner, parse_inner,
  inner_result, use_inner, commit_inner, commit, fill_from, fill_element, cause_of, cause_number,
}
use g_pcap.Analyzer.Nas.Decoded.{IsDecodedXorRefused, decode-IsDecodedXorRefused, decode_opaque}

abbrev envelope : NasTree
envelope = message (some "5GMMSecProtNASMessage") "FGMMSecProtNASMessage" end

abbrev reject : NasTree
reject =
    message (some "5GMMRegistrationReject") "FGMMRegistrationReject"
      (plain (some "5GMMCause") (list (cons (bytes (7 ∷ [])) nil)) end)

-- A payload whose second byte is 0 is the reject; any other is the envelope.
abbrev parse : List ℕ → ParseResult
parse (epd ∷ shdr ∷ rest) = if shdr == 0 then parsed reject else parsed envelope
parse _ = refused 3

abbrev mm_cause : ℕ → Option String
mm_cause n = if n == 7 then some "5GS services not allowed" else none

abbrev pub library : NasLibrary
library = record { parse = parse; mm_cause = mm_cause; sm_cause = λ n. none }

abbrev pub ciphered : List ℕ
ciphered = 126 ∷ 2 ∷ 0 ∷ 0 ∷ 0 ∷ 0 ∷ 1 ∷ 126 ∷ 0 ∷ 68 ∷ 7 ∷ []

program : Unit {0}
unfolding decode decode_parsed decode_protected open_protected take_inner parse_inner inner_result
    use_inner commit_inner commit fill_from fill_element cause_of cause_number refuse name_of
    is_protected
program = tt

ciphered-cause : (decode library ciphered (some 0)).cause_name ≡ some "5GS services not allowed"
unfolding program
ciphered-cause = refl

envelope-is_protected : is_protected (name_of envelope) ≡ true
unfolding program
envelope-is_protected = refl

decode-IsDecodedXorRefused_example : IsDecodedXorRefused (decode library ciphered (some 0))
decode-IsDecodedXorRefused_example = decode-IsDecodedXorRefused library ciphered (some 0)

decode_opaque_example : (note : String) × (decode library ciphered none ≡ refuse true note)
decode_opaque_example =
    decode_opaque library ciphered none envelope 2 refl envelope-is_protected (λ e. cc) refl
      (λ e. ground arith) (λ e. ground arith)
