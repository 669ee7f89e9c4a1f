-- ===== src/Tests/PfcpDecode.antt =====
-- A run of 5gcap/fivegcap/pfcp.py's decode: an establishment response with one Created PDR.
use g_pcap.Prelude.{◌≡◌, refl, true, none, some, [], ◌∷◌}
use g_pcap.Prelude.Dict.{put}
use g_pcap.Analyzer.Value.{Val, int, bytes, list, nil, cons, v4}
use g_pcap.Analyzer.Octets.{to_bytes, ip_str, address_of}
use g_pcap.Analyzer.Pfcp.Decode.{
  parsed, PfcpLibrary, fteid_key, first_record, first_of_items, created_pdr_key, take_element,
  take_elements, fill, decode_pfcp,
}
use g_pcap.Analyzer.Pfcp.Decode.Addressed.{IsAddressed, decode_pfcp-IsAddressed}
use g_pcap.Analyzer.Pfcp.Decode.Refused.{Fate, decode_pfcp-IsDecodedXorRefused}

-- The F-TEID 7 at 10.0.0.1, in a group of one record.
abbrev fteid : Val
fteid = list (
    cons (int 0) (
      cons (int 0) (
        cons (int 0)
          (cons (int 0) (cons (int 1) (cons (int 7) (cons (bytes (10 ∷ 0 ∷ 0 ∷ 1 ∷ [])) nil)))))))

abbrev group : Val
group = list (cons (list (cons (int 21) (cons (int 9) (cons (int 0) (cons fteid nil))))) nil)

abbrev library : PfcpLibrary
library = record {
  parse = λ bs. parsed (record {
    msg_type = 51;
    seq = 3;
    seid = 4;
    has_seid = true;
    elements = (19, int 1) ∷ (8, group) ∷ [];
  });
  type_name = λ t. some "PFCP Session Establishment Response";
  cause_name_of = λ c. none;
  literal_eval = λ s. none;
}

keys_read :
    (decode_pfcp library 0 [] none none none none).f_teids ≡ (7, v4 (10 ∷ 0 ∷ 0 ∷ 1 ∷ [])) ∷ []
unfolding decode_pfcp fill take_elements take_element created_pdr_key first_of_items first_record
    fteid_key address_of to_bytes ip_str put
keys_read = refl

decode_pfcp-IsAddressed_example : IsAddressed library (decode_pfcp library 0 [] none none none none)
decode_pfcp-IsAddressed_example = decode_pfcp-IsAddressed library 0 [] none none none none

decode_pfcp-IsDecodedXorRefused_example :
    Fate library (library.parse []) (decode_pfcp library 0 [] none none none none)
decode_pfcp-IsDecodedXorRefused_example =
    decode_pfcp-IsDecodedXorRefused library 0 [] none none none none
