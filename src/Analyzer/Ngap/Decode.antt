-- ===== src/Analyzer/Ngap/Decode.antt =====
-- 5gcap/fivegcap/ngap.py: `decode`, with the tunnels and the sessions that it takes from the
-- elements. pycrate's decoder is the parameter NgapLibrary. What raises gives nothing: `_tunnel_of`
-- catches it, and the others leave it to `decode`, which refuses the message.
pub mod Refused
pub mod Sessions
use Prim.Native.String
use Prim.Native.String.{◌++◌ as append}
use package.text.Mathlib.Text.{◌==◌ as str_eq}
use g_pcap.Prelude.{
  ℕ, zero, suc, ◌+◌, ◌*◌, ◌/◌, ◌%◌, ◌^◌, String, Bool, true, false, ◌&&◌, ◌==◌, ltb, bind,
  if◌then◌else◌, Option, none, some, List, [], ◌∷◌, ◌++◌, ℕ_discrete,
}
use g_pcap.Prelude.Chars.{starts_with, is_empty_text}
use g_pcap.Prelude.Dict.{Dict, get, put}
use g_pcap.Prelude.Sets.{add}
use g_pcap.Prelude.Text.{String-discrete}
use g_pcap.Analyzer.Capture.{Assoc}
use g_pcap.Analyzer.Octets.{Address, raised, absent, found, to_bytes, ip_str}
use g_pcap.Analyzer.Value.{
  Val, null, int, bool, bytes, text, list, dict, Vals, nil, cons, Fields, end, field, Tunnel,
  Tunnel-discrete, size, item, equals, as_int,
}
use g_pcap.Analyzer.Ngap.{NgapMsg}

-- `NGAP_PDU.from_aper` and `get_val`, or the exception's text, and Python's reader of literals.
pub data NgapResult : Type 0 where
  value : Val → NgapResult
  failed : String → NgapResult

pub record NgapLibrary : Type 0 where
  pub from_aper : List ℕ → NgapResult
  pub literal_eval : String → Option (List ℕ)
  -- the text of what is raised after the parse
  pub extraction_error : Val → String

abbrev pub field_or : Val → String → Fields → Val
field_or other key end = other
field_or other key (field k v fs) = if str_eq k key then v else field_or other key fs

-- `v.get(key, other)`, of a dict only
abbrev pub get_or : Val → String → Val → Option Val
get_or other key (dict fs) = some (field_or other key fs)
get_or other key _ = none

-- `v[0]` and `v[1]`
abbrev pub second_char : String → Option Val
second_char String.[] = none
second_char (String.◌∷◌ c String.[]) = none
second_char (String.◌∷◌ c (String.◌∷◌ d s)) = some (text (String.◌∷◌ d String.[]))

abbrev pub index_one : Val → Option Val
index_one (list (cons v (cons w vs))) = some w
index_one (bytes (a ∷ b ∷ bs)) = some (int b)
index_one (text s) = second_char s
index_one _ = none

abbrev pub index_zero : Val → Option Val
index_zero (list (cons v vs)) = some v
index_zero (bytes (a ∷ bs)) = some (int a)
index_zero (text (String.◌∷◌ c s)) = some (text (String.◌∷◌ c String.[]))
index_zero _ = none

-- What a loop runs over; the characters and keys of others have no `get`, so that only none of them
-- passes.
abbrev pub iterated : Val → Option Vals
iterated (list vs) = some vs
iterated (dict end) = some nil
iterated (bytes []) = some nil
iterated (text s) = if is_empty_text s then some nil else none
iterated _ = none

-- `int.from_bytes(…, "big")` and `n.to_bytes(count, "big")`, which raises where the number is larger
unfoldable pub from_big : ℕ → List ℕ → ℕ
from_big n [] = n
from_big n (b ∷ bs) = from_big (n * 256 + b) bs

unfoldable pub big_digits : ℕ → ℕ → List ℕ
big_digits zero n = []
big_digits (suc count) n = big_digits count (n / 256) ++ (n % 256) ∷ []

unfoldable pub to_big : ℕ → ℕ → Option (List ℕ)
unfolding big_digits
to_big count n = if ltb n (256 ^ count) then some (big_digits count n) else none

module _ (py : NgapLibrary) where
  -- The bytes of the address: a bit string's, or an octet string's.
  abbrev pub bit_string : Option ℕ → Option ℕ → Val → Option (List ℕ)
  bit_string (some n) (some bits) v = to_big ((bits + 7) / 8) n
  bit_string (some n) none v = none
  bit_string none bits v = to_bytes py.literal_eval v

  unfoldable pub address_bytes : Val → Option (List ℕ)
  unfolding to_big to_bytes
  address_bytes (list (cons v (cons w vs))) =
      bit_string (as_int v) (as_int w) (list (cons v (cons w vs)))
  address_bytes v = to_bytes py.literal_eval v

  abbrev pub filled : Option (List ℕ) → Option (List ℕ)
  filled none = none
  filled (some []) = none
  filled (some (b ∷ bs)) = some (b ∷ bs)

  abbrev pub tunnel_at : List ℕ → Address → Option Tunnel
  tunnel_at teid raised = none
  tunnel_at teid absent = none
  tunnel_at teid (found ip) = some (from_big 0 teid, ip)

  -- `_tunnel_of`
  abbrev pub tunnel_fields : Val → Option Tunnel
  tunnel_fields fields = bind (get_or null "gTP-TEID" fields) (λ t.
      bind (filled (to_bytes py.literal_eval t)) (λ teid.
        bind (get_or null "transportLayerAddress" fields)
          (λ a. bind (filled (address_bytes a)) (λ raw. tunnel_at teid (ip_str (some raw))))))

  abbrev pub is_text : String → Val → Bool
  is_text s (text t) = str_eq t s
  is_text s _ = false

  unfoldable pub tunnel_of : Val → Option Tunnel
  unfolding address_bytes to_bytes ip_str from_big
  tunnel_of (list (cons kind (cons fields vs))) =
      if is_text "gTPTunnel" kind then tunnel_fields fields else none
  tunnel_of _ = none

  abbrev pub with_tunnel : Option Tunnel → List Tunnel → List Tunnel
  with_tunnel none ts = ts
  with_tunnel (some t) ts = t ∷ ts

  -- The tunnel of one element of a transfer: element 139 is the UP transport layer information.
  abbrev pub element_tunnel : Val → Option (Option Tunnel)
  element_tunnel pie = bind (get_or null "id" pie) (λ i.
      if equals i 139
      then bind (get_or (list (cons null nil)) "value" pie)
          (λ v. bind (index_one v) (λ w. some (tunnel_of w)))
      else some none)

  unfoldable pub element_tunnels : Vals → Option (List Tunnel)
  unfolding tunnel_of
  element_tunnels nil = some []
  element_tunnels (cons pie pies) =
      bind (element_tunnel pie) (λ t. bind (element_tunnels pies) (λ ts. some (with_tunnel t ts)))

  -- The second part of a transfer, where it is a dict.
  abbrev pub transfer : Val → Option Fields
  transfer (list (cons v (cons (dict fs) vs))) = some fs
  transfer _ = none

  abbrev pub transfer_tunnels : Option Fields → Option (List Tunnel)
  transfer_tunnels none = some []
  transfer_tunnels (some fs) =
      bind (iterated (field_or (list nil) "protocolIEs" fs)) element_tunnels

  abbrev pub request_item : Val → Option (List Tunnel)
  request_item (dict fs) =
      transfer_tunnels (transfer (field_or null "pDUSessionResourceSetupRequestTransfer" fs))
  request_item _ = some []

  unfoldable pub request_tunnels : Vals → Option (List Tunnel)
  unfolding element_tunnels
  request_tunnels nil = some []
  request_tunnels (cons i is') =
      bind (request_item i) (λ ts. bind (request_tunnels is') (λ us. some (ts ++ us)))

  -- The downlink tunnels of one item of a response.
  abbrev pub downlink : Val → Option Tunnel
  downlink (dict fs) = tunnel_of (field_or null "uPTransportLayerInformation" fs)
  downlink _ = none

  unfoldable pub downlinks : Vals → List Tunnel
  unfolding tunnel_of
  downlinks nil = []
  downlinks (cons v vs) = with_tunnel (downlink v) (downlinks vs)

  abbrev pub or_single : Val → Vals
  or_single (list vs) = vs
  or_single v = cons v nil

  abbrev pub response_transfer : Option Fields → List Tunnel
  response_transfer none = []
  response_transfer (some fs) =
      downlinks (or_single (field_or null "dLQosFlowPerTNLInformation" fs))

  abbrev pub response_item : Val → List Tunnel
  response_item (dict fs) =
      response_transfer (transfer (field_or null "pDUSessionResourceSetupResponseTransfer" fs))
  response_item _ = []

  unfoldable pub response_tunnels : Vals → List Tunnel
  unfolding downlinks
  response_tunnels nil = []
  response_tunnels (cons i is') = response_item i ++ response_tunnels is'

  abbrev pub items_of : Val → Vals
  items_of (list vs) = vs
  items_of _ = nil

  abbrev pub entry_tunnels : String → Val → Option (List Tunnel)
  entry_tunnels name v =
      if str_eq name "PDUSessionResourceSetupListSUReq"
      then request_tunnels (items_of v)
      else if str_eq name "PDUSessionResourceSetupListSURes"
      then some (response_tunnels (items_of v))
      else some []

  -- `_tunnels_of`
  unfoldable pub tunnels_of : Dict String Val → Option (List Tunnel)
  unfolding request_tunnels response_tunnels
  tunnels_of [] = some []
  tunnels_of ((name, v) ∷ ies) =
      bind (entry_tunnels name v) (λ ts. bind (tunnels_of ies) (λ us. some (ts ++ us)))

  -- A session's id is a number, and True and False are none.
  abbrev pub session_id : Fields → Option ℕ
  session_id fs = elim (field_or null "pDUSessionID" fs) [ int n ↦ some n | _ ↦ none ]

  abbrev pub Sessions : Type 0
  Sessions = Dict ℕ (List Tunnel)

  abbrev pub or_empty_set : Option (List Tunnel) → List Tunnel
  or_empty_set none = []
  or_empty_set (some ts) = ts

  abbrev pub add_all : List Tunnel → List Tunnel → List Tunnel
  add_all [] seen = seen
  add_all (t ∷ ts) seen = add_all ts (add Tunnel-discrete t seen)

  -- The tunnels of one item join the set of its session.
  abbrev pub join_session : Option ℕ → Option Fields → Sessions → Option Sessions
  join_session none fs d = some d
  join_session (some sid) none d = some d
  join_session (some sid) (some fs) d =
      bind (transfer_tunnels (some fs))
        (λ ts. some (put ℕ_discrete sid (add_all ts (or_empty_set (get ℕ_discrete sid d))) d))

  abbrev pub session_item : Val → Sessions → Option Sessions
  session_item (dict fs) d =
      join_session (session_id fs)
        (transfer (field_or null "pDUSessionResourceSetupRequestTransfer" fs)) d
  session_item _ d = some d

  unfoldable pub session_tunnels : Vals → Sessions → Option Sessions
  unfolding element_tunnels
  session_tunnels nil d = some d
  session_tunnels (cons i is') d = bind (session_item i d) (session_tunnels is')

  abbrev pub count_or_zero : Option ℕ → ℕ
  count_or_zero none = 0
  count_or_zero (some n) = n

  abbrev pub count_item : Option ℕ → Dict ℕ ℕ → Dict ℕ ℕ
  count_item none d = d
  count_item (some sid) d = put ℕ_discrete sid (suc (count_or_zero (get ℕ_discrete sid d))) d

  abbrev pub item_id : Val → Option ℕ
  item_id (dict fs) = session_id fs
  item_id _ = none

  unfoldable pub response_counts : Vals → Dict ℕ ℕ → Dict ℕ ℕ
  response_counts nil d = d
  response_counts (cons i is') d = response_counts is' (count_item (item_id i) d)

  -- `_pdu_sessions_of`
  unfoldable pub pdu_sessions_of :
      Dict String Val → Sessions → Dict ℕ ℕ → Option (Sessions × Dict ℕ ℕ)
  unfolding session_tunnels response_counts
  pdu_sessions_of [] req rsp = some (req, rsp)
  pdu_sessions_of ((name, v) ∷ ies) req rsp =
      if str_eq name "PDUSessionResourceSetupListSUReq"
      then bind (session_tunnels (items_of v) req) (λ req'. pdu_sessions_of ies req' rsp)
      else if str_eq name "PDUSessionResourceSetupListSURes"
      then pdu_sessions_of ies req (response_counts (items_of v) rsp)
      else pdu_sessions_of ies req rsp

  -- The elements of a message by name, the last of a name counting.
  abbrev pub name_text : Val → Option String
  name_text (text s) = some s
  name_text _ = none

  abbrev pub named_element : Val → Option (String × Val)
  named_element ie =
      bind (get_or (list (cons null nil)) "value" ie) (λ v.
        bind (bind (index_zero v) name_text) (λ name. bind (index_one v) (λ w. some (name, w))))

  unfoldable pub elements_of : Vals → Dict String Val → Option (Dict String Val)
  unfolding String-discrete
  elements_of nil d = some d
  elements_of (cons ie ies) d =
      bind (named_element ie) (λ (name, v). elements_of ies (put String-discrete name v d))

  -- What is committed on full success.
  pub record Extracted : Type 0 where
    pub kind : Val
    pub proc_code : Val
    pub name : Option String
    pub elements : Dict String Val
    pub tunnels : List Tunnel
    pub sessions : Sessions
    pub counts : Dict ℕ ℕ

  pub data Extraction : Type 0 where
    stopped : Extraction
    unknown_procedure : String → Extraction
    done : Extracted → Extraction

  -- `value or {}`, whose `get` raises unless it is a dict
  abbrev pub fields_or_empty : Val → Option Fields
  fields_or_empty (dict fs) = some fs
  fields_or_empty null = some end
  fields_or_empty (list nil) = some end
  fields_or_empty (bool false) = some end
  fields_or_empty (int zero) = some end
  fields_or_empty (bytes []) = some end
  fields_or_empty (text s) = if is_empty_text s then some end else none
  fields_or_empty _ = none

  abbrev pub or_stopped : Option Extracted → Extraction
  or_stopped none = stopped
  or_stopped (some x) = done x

  unfoldable pub extract_fields : Val → Val → Option String → Option Extracted
  unfolding elements_of tunnels_of pdu_sessions_of
  extract_fields kind body name = bind (get_or null "procedureCode" body) (λ code.
      bind (get_or (list (cons null (cons (dict end) nil))) "value" body) (λ v.
        bind (bind (index_one v) fields_or_empty) (λ fs.
          bind (iterated (field_or (list nil) "protocolIEs" fs)) (λ ies.
            bind (elements_of ies []) (λ d. bind (tunnels_of d) (λ ts.
              bind (pdu_sessions_of d [] []) (λ (req, rsp). some (record {
                kind = kind;
                proc_code = code;
                name = name;
                elements = d;
                tunnels = ts;
                sessions = req;
                counts = rsp;
              }))))))))

  -- The name decides: a placeholder for a procedure that pycrate does not know is no decode.
  abbrev pub extract_named : Val → Val → Val → Extraction
  extract_named kind body null = or_stopped (extract_fields kind body none)
  extract_named kind body (text s) =
      if starts_with "_unk_" s
      then unknown_procedure s
      else or_stopped (extract_fields kind body (some s))
  extract_named kind body _ = stopped

  abbrev pub or_extract : Val → Val → Option Val → Extraction
  or_extract kind body none = stopped
  or_extract kind body (some name) = extract_named kind body name

  abbrev pub extract_body : Val → Option Val → Extraction
  extract_body kind none = stopped
  extract_body kind (some body) =
      or_extract kind body (bind (get_or (list (cons null nil)) "value" body) index_zero)

  abbrev pub extract_kind : Val → Option Val → Extraction
  extract_kind v none = stopped
  extract_kind v (some kind) = extract_body kind (index_one v)

  unfoldable pub extract : Val → Extraction
  unfolding extract_fields starts_with
  extract v = extract_kind v (index_zero v)

  abbrev pub text_of : Val → Option String
  text_of (text s) = some s
  text_of _ = none

  -- A number or bytes, by the name of an element.
  abbrev pub number_of : String → Dict String Val → Option ℕ
  number_of name d = bind (get String-discrete name d) as_int

  abbrev pub commit : Extracted → NgapMsg → NgapMsg
  commit x m = record m {
    kind = text_of x.kind;
    proc_code = as_int x.proc_code;
    name = x.name;
    ran_ue_id = number_of "RAN-UE-NGAP-ID" x.elements;
    amf_ue_id = number_of "AMF-UE-NGAP-ID" x.elements;
    nas_pdu = bind (get String-discrete "NAS-PDU" x.elements) (to_bytes py.literal_eval);
    ies = x.elements;
    f_teids = x.tunnels;
    req_session_tunnels = x.sessions;
    rsp_session_counts = x.counts;
  }

  abbrev pub decode_note : String → String
  decode_note e = append "NGAP decode failed: " e

  abbrev pub commit_or_refuse : Val → Extraction → NgapMsg → NgapMsg
  commit_or_refuse v stopped m = record m { unparsed = some (decode_note (py.extraction_error v)) }
  commit_or_refuse v (unknown_procedure s) m = record m {
    unparsed = some (append "NGAP unknown procedure: " s);
  }
  commit_or_refuse v (done x) m = commit x m

  abbrev pub decode_result : NgapResult → NgapMsg → NgapMsg
  decode_result (failed e) m = record m { unparsed = some (decode_note e) }
  decode_result (value v) m = commit_or_refuse v (extract v) m

  -- What a message is before it is parsed.
  abbrev pub unread : ℕ → Assoc → ℕ → List ℕ → Option String → Option String → NgapMsg
  unread ts assoc stream data' src_ip dst_ip = record {
    ts = ts;
    assoc = assoc;
    stream = stream;
    raw = data';
    name = none;
    kind = none;
    proc_code = none;
    ran_ue_id = none;
    amf_ue_id = none;
    nas_pdu = none;
    ies = [];
    f_teids = [];
    req_session_tunnels = [];
    rsp_session_counts = [];
    unparsed = none;
    src_ip = src_ip;
    dst_ip = dst_ip;
  }

  -- `decode`
  unfoldable pub decode_ngap : ℕ → Assoc → ℕ → List ℕ → Option String → Option String → NgapMsg
  unfolding extract to_bytes String-discrete
  decode_ngap ts assoc stream data' src_ip dst_ip =
      decode_result (py.from_aper data') (unread ts assoc stream data' src_ip dst_ip)
