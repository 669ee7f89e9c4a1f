-- ===== src/Tests/NgapDecode.antt =====
-- A run of 5gcap/fivegcap/ngap.py's decode: a setup request with one session.
use g_pcap.Prelude.{◌≡◌, refl, String, none, [], ◌∷◌, ◌⊎◌, ℕ_discrete}
use g_pcap.Prelude.Chars.{starts_with}
use g_pcap.Prelude.Dict.{get, put}
use g_pcap.Prelude.Keys.{pair_discrete}
use g_pcap.Prelude.Sets.{add, mem}
use g_pcap.Prelude.Text.{String-discrete}
use g_pcap.Analyzer.Value.{
  Val, int, bytes, text, list, dict, nil, cons, end, field, v4, Tunnel-discrete,
}
use g_pcap.Analyzer.Octets.{to_bytes, ip_str}
use g_pcap.Analyzer.Ngap.Decode.{
  value, NgapLibrary, from_big, big_digits, to_big, address_bytes, tunnel_of, element_tunnels,
  request_tunnels, response_tunnels, downlinks, tunnels_of, session_tunnels, response_counts,
  pdu_sessions_of, elements_of, extract_fields, extract, decode_ngap,
}
use g_pcap.Analyzer.Ngap.Decode.Refused.{IsDecoded, IsRefused, decode_ngap-IsDecodedXorRefused}

-- The UPF's tunnel 7 at 10.0.0.1.
abbrev tunnel : Val
tunnel = list (
    cons (text "gTPTunnel") (
      cons
        (dict (
          field "transportLayerAddress" (list (cons (int 167772161) (cons (int 32) nil)))
            (field "gTP-TEID" (bytes (0 ∷ 0 ∷ 0 ∷ 7 ∷ [])) end)))
        nil))

abbrev up_information : Val
up_information = dict (
    field "id" (int 139)
      (field "value" (list (cons (text "UPTransportLayerInformation") (cons tunnel nil))) end))

abbrev session : Val
session = dict (
    field "pDUSessionID" (int 1) (
      field "pDUSessionResourceSetupRequestTransfer"
        (list (
          cons (text "transfer")
            (cons (dict (field "protocolIEs" (list (cons up_information nil)) end)) nil)))
        end))

abbrev element : String → Val → Val
element name v = dict (field "value" (list (cons (text name) (cons v nil))) end)

abbrev message : Val
message = list (
    cons (text "initiatingMessage") (
      cons
        (dict (
          field "procedureCode" (int 29) (
            field "value"
              (list (
                cons (text "PDUSessionResourceSetupRequest") (
                  cons
                    (dict (
                      field "protocolIEs"
                        (list (
                          cons (element "RAN-UE-NGAP-ID" (int 5)) (
                            cons
                              (element "PDUSessionResourceSetupListSUReq" (list (cons session nil)))
                              nil)))
                        end))
                    nil)))
              end)))
        nil))

abbrev library : NgapLibrary
library = record {
  from_aper = λ bs. value message;
  literal_eval = λ s. none;
  extraction_error = λ v. "error";
}

tunnels_read :
    (decode_ngap library 0 (1, 2) 0 [] none none).f_teids ≡ (7, v4 (10 ∷ 0 ∷ 0 ∷ 1 ∷ [])) ∷ []
unfolding decode_ngap extract extract_fields elements_of tunnels_of request_tunnels element_tunnels
    tunnel_of address_bytes to_big big_digits from_big to_bytes ip_str pdu_sessions_of
    session_tunnels response_counts response_tunnels downlinks get put add mem String-discrete
    Tunnel-discrete pair_discrete ℕ_discrete starts_with
tunnels_read = refl

decode_ngap-IsDecodedXorRefused_example :
    IsDecoded library [] (decode_ngap library 0 (1, 2) 0 [] none none)
    ⊎ IsRefused (decode_ngap library 0 (1, 2) 0 [] none none)
decode_ngap-IsDecodedXorRefused_example =
    decode_ngap-IsDecodedXorRefused library 0 (1, 2) 0 [] none none
