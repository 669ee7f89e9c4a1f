-- ===== src/Analyzer/Pfcp/Decode/Refused.antt =====
-- A PFCP message is decoded or refused (5gcap/fivegcap/pfcp.py, `decode`).
use g_pcap.Prelude.{
  ℕ, String, true, ◌≡◌, refl, ap, ◌∙◌, ◌==◌, if◌then◌else◌, if_cases, is_some, Option, none, some,
  List, [], ◌∷◌, ℕ_discrete,
}
use g_pcap.Prelude.Dict.{Dict, put}
use g_pcap.Analyzer.Value.{Val, Tunnel, as_int}
use g_pcap.Analyzer.Pfcp.{PfcpMsg}
use g_pcap.Analyzer.Pfcp.Decode.{
  Parsed, ParseResult, parsed, failed, PfcpLibrary, created_pdr_key, update_far_key, ue_ip_of,
  user_id_of, add_key, take_element, take_elements, cause_text, named, blank, fill, decode_pfcp,
}

-- The values of the elements by type, the last of a type counting.
abbrev pub put_all : List (ℕ × Val) → Dict ℕ Val → Dict ℕ Val
put_all [] d = d
put_all ((t, v) ∷ es) d = put_all es (put ℕ_discrete t v d)

-- The type, the numbers and the session of the parsed header, a name, no note, and the elements.
pub record IsDecoded (p : Parsed) (m : PfcpMsg) : Type 0 where
  pub no_note : m.unparsed ≡ none
  pub typed : m.msg_type ≡ some p.msg_type
  pub with_name : is_some m.name ≡ true
  pub numbered : m.seq ≡ some p.seq
  pub session : m.seid ≡ (if p.has_seid then some p.seid else none)
  pub elements : m.ies ≡ put_all p.elements []

-- A note, and nothing from the bytes.
pub record IsRefused (m : PfcpMsg) : Type 0 where
  pub note : is_some m.unparsed ≡ true
  pub no_type : m.msg_type ≡ none
  pub no_name : m.name ≡ none
  pub no_number : m.seq ≡ none
  pub no_session : m.seid ≡ none
  pub no_elements : m.ies ≡ []
  pub no_keys : m.f_teids ≡ []
  pub no_cause : m.cause ≡ none
  pub no_cause_name : m.cause_name ≡ none
  pub no_ue_ip : m.ue_ip ≡ none
  pub no_user_id : m.user_id ≡ none

module _ (py : PfcpLibrary) where
  -- The two agree but for the cause, the keys and the identities.
  record IsSame (x m : PfcpMsg) : Type 0 where
    note : x.unparsed ≡ m.unparsed
    kind : x.msg_type ≡ m.msg_type
    label : x.name ≡ m.name
    number : x.seq ≡ m.seq
    session : x.seid ≡ m.seid
    elements : x.ies ≡ m.ies

  add_key-IsSame : (k : Option Tunnel) (m : PfcpMsg) → IsSame (add_key py k m) m
  add_key-IsSame none m = record {
    note = refl;
    kind = refl;
    label = refl;
    number = refl;
    session = refl;
    elements = refl;
  }
  add_key-IsSame (some t) m = record {
    note = refl;
    kind = refl;
    label = refl;
    number = refl;
    session = refl;
    elements = refl;
  }

  abbrev with_element : ℕ → Val → PfcpMsg → PfcpMsg
  with_element t v m = record m { ies = put ℕ_discrete t v m.ies }

  take_element-IsSame :
      (t : ℕ) (v : Val) (m : PfcpMsg) → IsSame (take_element py t v m) (with_element t v m)
  unfolding take_element
  take_element-IsSame t v m =
      let m' = with_element t v m in
      let P : PfcpMsg → Type 0 = λ x. IsSame x m' in
      if_cases P (t == 19) (record m' { cause = as_int v; cause_name = cause_text py v }) _
        (λ e. record {
          note = refl;
          kind = refl;
          label = refl;
          number = refl;
          session = refl;
          elements = refl;
        })
        (λ e.
          if_cases P (t == 8) (add_key py (created_pdr_key py v) m') _
            (λ f. add_key-IsSame (created_pdr_key py v) m')
            (λ f.
              if_cases P (t == 10) (add_key py (update_far_key py v) m') _
                (λ g. add_key-IsSame (update_far_key py v) m')
                (λ g.
                  if_cases P (t == 93) (record m' { ue_ip = ue_ip_of py v }) _
                    (λ k. record {
                      note = refl;
                      kind = refl;
                      label = refl;
                      number = refl;
                      session = refl;
                      elements = refl;
                    })
                    (λ k.
                      if_cases P (t == 141) (record m' { user_id = user_id_of py v }) m'
                        (λ l. record {
                          note = refl;
                          kind = refl;
                          label = refl;
                          number = refl;
                          session = refl;
                          elements = refl;
                        })
                        (λ l. record {
                          note = refl;
                          kind = refl;
                          label = refl;
                          number = refl;
                          session = refl;
                          elements = refl;
                        })))))

  take_elements-IsSame :
      (es : List (ℕ × Val)) (m : PfcpMsg)
      → IsSame (take_elements py es m) (record m { ies = put_all es m.ies })
  unfolding take_elements
  take_elements-IsSame [] m = record {
    note = refl;
    kind = refl;
    label = refl;
    number = refl;
    session = refl;
    elements = refl;
  }
  take_elements-IsSame ((t, v) ∷ es) m =
      let first = take_element-IsSame t v m in
      let rest = take_elements-IsSame es (take_element py t v m) in
      record {
        note = rest.note ∙ first.note;
        kind = rest.kind ∙ first.kind;
        label = rest.label ∙ first.label;
        number = rest.number ∙ first.number;
        session = rest.session ∙ first.session;
        elements = rest.elements ∙ ap (put_all es) first.elements;
      }

  -- What the parser answered decides.
  abbrev pub Fate : ParseResult → PfcpMsg → Type 0
  Fate (parsed p) m = IsDecoded p m
  Fate (failed note) m = IsRefused m

  module _ (ts : ℕ) (data' : List ℕ) (src_ip dst_ip : Option String)
      (src_port dst_port : Option ℕ) where
    fill-Fate :
        (r : ParseResult) → Fate r (fill py (blank py ts data' src_ip dst_ip src_port dst_port) r)
    unfolding fill
    fill-Fate (failed note) = record {
      note = refl;
      no_type = refl;
      no_name = refl;
      no_number = refl;
      no_session = refl;
      no_elements = refl;
      no_keys = refl;
      no_cause = refl;
      no_cause_name = refl;
      no_ue_ip = refl;
      no_user_id = refl;
    }
    fill-Fate (parsed p) =
        let m : PfcpMsg = record (blank py ts data' src_ip dst_ip src_port dst_port) {
          msg_type = some p.msg_type;
          name = some (named py "type " (py.type_name p.msg_type) p.msg_type);
          seq = some p.seq;
          seid = if p.has_seid then some p.seid else none;
        } in
        let same = take_elements-IsSame p.elements m in
        record {
          no_note = same.note;
          typed = same.kind;
          with_name = ap is_some same.label;
          numbered = same.number;
          session = same.session;
          elements = same.elements;
        }

  -- Whatever the bytes are, a message that is parsed is decoded, with a name, the type, the sequence
  -- number and the session of its header, its elements by type, and no note; one that is not parsed
  -- is refused, with a note and nothing taken from the bytes.
  pub decode_pfcp-IsDecodedXorRefused :
      (ts : ℕ) (data' : List ℕ) (src_ip dst_ip : Option String) (src_port dst_port : Option ℕ)
      → Fate (py.parse data') (decode_pfcp py ts data' src_ip dst_ip src_port dst_port)
  unfolding decode_pfcp
  decode_pfcp-IsDecodedXorRefused ts data' src_ip dst_ip src_port dst_port =
      fill-Fate ts data' src_ip dst_ip src_port dst_port (py.parse data')
