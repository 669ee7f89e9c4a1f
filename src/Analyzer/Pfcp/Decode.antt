-- ===== src/Analyzer/Pfcp/Decode.antt =====
-- 5gcap/fivegcap/pfcp.py: `decode` and the keys that it takes from the information elements.
-- pycrate's parser and its tables are the parameter PfcpLibrary. A function whose body raises and
-- catches gives nothing there.
pub mod Addressed
pub mod Refused
use Prim.Native.String.{◌++◌ as append}
use g_pcap.Prelude.{
  ℕ, zero, suc, String, Bool, true, false, ◌&&◌, ◌==◌, ltb, if◌then◌else◌, Option, none, some, List,
  [], ◌∷◌, ◌++◌, ℕ_discrete,
}
use g_pcap.Prelude.Dict.{Dict, put}
use g_pcap.Prelude.Text.{show}
use g_pcap.Analyzer.Value.{
  Val, null, int, bool, bytes, text, list, dict, Vals, nil, cons, Ip, Tunnel, size, item, equals,
  as_int,
}
use g_pcap.Analyzer.Octets.{Address, raised, absent, found, to_bytes, address_of}
use g_pcap.Analyzer.Nas.{bcd_digits}
use g_pcap.Analyzer.Pfcp.{PfcpMsg}

-- A parsed message: its header, and the type and value of each element in order; None is null.
pub record Parsed : Type 0 where
  pub msg_type : ℕ
  pub seq : ℕ
  pub seid : ℕ
  pub has_seid : Bool
  pub elements : List (ℕ × Val)

pub data ParseResult : Type 0 where
  parsed : Parsed → ParseResult
  failed : String → ParseResult

pub record PfcpLibrary : Type 0 where
  -- `parse_PFCP`, with the note for an error or an exception
  pub parse : List ℕ → ParseResult
  pub type_name : ℕ → Option String
  pub cause_name_of : ℕ → Option String
  pub literal_eval : String → Option (List ℕ)

module _ (py : PfcpLibrary) where
  abbrev pub key_at : ℕ → Address → Option Tunnel
  key_at teid raised = none
  key_at teid absent = none
  key_at teid (found ip) = some (teid, ip)

  -- The second address is read where the first is absent, but not where reading it raises.
  abbrev pub key_of_two : ℕ → Address → Option Val → Option Tunnel
  key_of_two teid raised second = none
  key_of_two teid (found ip) second = some (teid, ip)
  key_of_two teid absent none = none
  key_of_two teid absent (some v) = key_at teid (address_of py.literal_eval v)

  abbrev pub value_at : ℕ → Vals → Option Val
  value_at i vs = if ltb i (size vs) then some (item vs i) else none

  abbrev pub first_address : Option Val → Address
  first_address none = absent
  first_address (some v) = address_of py.literal_eval v

  -- `_fteid_key`
  abbrev pub fteid_of : Option ℕ → Vals → Option Tunnel
  fteid_of none vs = none
  fteid_of (some teid) vs = key_of_two teid (first_address (value_at 6 vs)) (value_at 7 vs)

  unfoldable pub fteid_key : Val → Option Tunnel
  unfolding address_of
  fteid_key (list vs) = if ltb (size vs) 6 then none else fteid_of (as_int (item vs 5)) vs
  fteid_key _ = none

  -- `_ohc_key`; an address that lies beyond the value's end raises, as null does
  abbrev pub ohc_of : Option ℕ → Vals → Option Tunnel
  ohc_of none vs = none
  ohc_of (some teid) vs =
      if equals (item vs 7) 1
      then key_at teid (address_of py.literal_eval (item vs 12))
      else if equals (item vs 6) 1
      then key_at teid (address_of py.literal_eval (item vs 13))
      else none

  unfoldable pub ohc_key : Val → Option Tunnel
  unfolding address_of
  ohc_key (list vs) = if ltb (size vs) 13 then none else ohc_of (as_int (item vs 11)) vs
  ohc_key _ = none

  -- `item if (isinstance(item, list) and item and isinstance(item[0], list)) else [item]`
  abbrev pub records_of : Val → Vals
  records_of (list (cons (list vs) rest)) = cons (list vs) rest
  records_of v = cons v nil

  -- The value of a record of a type, `rec[3]`.
  abbrev pub value_of : ℕ → Val → Option Val
  value_of kind (list vs) =
      if ltb 3 (size vs) && equals (item vs 0) kind then some (item vs 3) else none
  value_of kind _ = none

  unfoldable pub first_record : ℕ → Vals → Option Val
  first_record kind nil = none
  first_record kind (cons r rs) = elim (value_of kind r) [
    | some v ↦ some v
    | none ↦ first_record kind rs
  ]

  unfoldable pub first_of_items : ℕ → Vals → Option Val
  unfolding first_record
  first_of_items kind nil = none
  first_of_items kind (cons i is') = elim (first_record kind (records_of i)) [
    | some v ↦ some v
    | none ↦ first_of_items kind is'
  ]

  abbrev pub key_of_value : Option Val → Option Tunnel
  key_of_value none = none
  key_of_value (some v) = fteid_key v

  -- `_created_pdr_key`: the first F-TEID decides.
  unfoldable pub created_pdr_key : Val → Option Tunnel
  unfolding first_of_items fteid_key
  created_pdr_key (list vs) = key_of_value (first_of_items 21 vs)
  created_pdr_key _ = none

  abbrev pub or_later : Option Tunnel → Option Tunnel → Option Tunnel
  or_later none k = k
  or_later (some t) k = some t

  abbrev pub header_key : Option Val → Option Tunnel
  header_key none = none
  header_key (some v) = ohc_key v

  -- The Outer Header Creations of one Update Forwarding Parameters: the first that gives a key.
  unfoldable pub key_in : Vals → Option Tunnel
  unfolding ohc_key
  key_in nil = none
  key_in (cons fp fps) = or_later (header_key (value_of 84 fp)) (key_in fps)

  abbrev pub parameters_of : Option Val → Vals
  parameters_of none = nil
  parameters_of (some (list vs)) = records_of (list vs)
  parameters_of (some v) = nil

  unfoldable pub key_in_records : Vals → Option Tunnel
  unfolding key_in
  key_in_records nil = none
  key_in_records (cons r rs) = or_later (key_in (parameters_of (value_of 11 r))) (key_in_records rs)

  unfoldable pub key_in_items : Vals → Option Tunnel
  unfolding key_in_records
  key_in_items nil = none
  key_in_items (cons i is') = or_later (key_in_records (records_of i)) (key_in_items is')

  -- `_update_far_key`
  unfoldable pub update_far_key : Val → Option Tunnel
  unfolding key_in_items
  update_far_key (list vs) = key_in_items vs
  update_far_key _ = none

  abbrev pub address_ip : Address → Option Ip
  address_ip raised = none
  address_ip absent = none
  address_ip (found ip) = some ip

  abbrev pub or_v6 : Address → Vals → Option Ip
  or_v6 raised vs = none
  or_v6 (found ip) vs = some ip
  or_v6 absent vs =
      if equals (item vs 7) 1 then address_ip (address_of py.literal_eval (item vs 9)) else none

  -- `_ue_ip`
  unfoldable pub ue_ip_of : Val → Option Ip
  unfolding address_of
  ue_ip_of (list vs) =
      if ltb (size vs) 9
      then none
      else or_v6 (if equals (item vs 6) 1 then address_of py.literal_eval (item vs 8) else absent)
          vs
  ue_ip_of _ = none

  abbrev pub digits_of : Option (List ℕ) → Option String
  digits_of none = none
  digits_of (some []) = none
  digits_of (some (b ∷ bs)) = some (bcd_digits (b ∷ bs))

  abbrev pub imsi_of : Val → Option String
  imsi_of (list vs) =
      if size vs == 2 && equals (item vs 0) 8
      then digits_of (to_bytes py.literal_eval (item vs 1))
      else none
  imsi_of _ = none

  -- `_user_id`
  unfoldable pub user_id_of : Val → Option String
  unfolding to_bytes bcd_digits
  user_id_of (list vs) = if ltb (size vs) 6 then none else imsi_of (item vs 5)
  user_id_of _ = none

  abbrev pub named : String → Option String → ℕ → String
  named other none n = append other (show n)
  named other (some s) n = s

  abbrev pub add_key : Option Tunnel → PfcpMsg → PfcpMsg
  add_key none m = m
  add_key (some t) m = record m { f_teids = m.f_teids ++ t ∷ [] }

  -- pycrate gives a Cause as a number, or as None where the element has no value. Of any other value
  -- nothing is taken, where the source keeps it, and raises if it is a list.
  abbrev pub number_text : Option ℕ → Option String
  number_text none = none
  number_text (some c) = some (named "cause " (py.cause_name_of c) c)

  abbrev pub cause_text : Val → Option String
  cause_text null = some "cause None"
  cause_text v = number_text (as_int v)

  -- One element, by its type.
  unfoldable pub take_element : ℕ → Val → PfcpMsg → PfcpMsg
  unfolding created_pdr_key update_far_key ue_ip_of user_id_of
  take_element t v m =
      let m' = record m { ies = put ℕ_discrete t v m.ies } in
      if t == 19
      then record m' { cause = as_int v; cause_name = cause_text v }
      else if t == 8
      then add_key (created_pdr_key v) m'
      else if t == 10
      then add_key (update_far_key v) m'
      else if t == 93
      then record m' { ue_ip = ue_ip_of v }
      else if t == 141
      then record m' { user_id = user_id_of v }
      else m'

  unfoldable pub take_elements : List (ℕ × Val) → PfcpMsg → PfcpMsg
  unfolding take_element
  take_elements [] m = m
  take_elements ((t, v) ∷ es) m = take_elements es (take_element t v m)

  -- What a message is before it is parsed.
  abbrev pub blank : ℕ → List ℕ → Option String → Option String → Option ℕ → Option ℕ → PfcpMsg
  blank ts data' src_ip dst_ip src_port dst_port = record {
    ts = ts;
    raw = data';
    msg_type = none;
    name = none;
    seq = none;
    seid = none;
    cause = none;
    cause_name = none;
    ies = [];
    f_teids = [];
    ue_ip = none;
    user_id = none;
    unparsed = none;
    src_ip = src_ip;
    dst_ip = dst_ip;
    src_port = src_port;
    dst_port = dst_port;
  }

  unfoldable pub fill : PfcpMsg → ParseResult → PfcpMsg
  unfolding take_elements
  fill m (failed note) = record m { unparsed = some (append "PFCP decode failed: " note) }
  fill m (parsed p) = take_elements p.elements (record m {
    msg_type = some p.msg_type;
    name = some (named "type " (py.type_name p.msg_type) p.msg_type);
    seq = some p.seq;
    seid = if p.has_seid then some p.seid else none;
  })

  -- `decode`
  unfoldable pub decode_pfcp :
      ℕ → List ℕ → Option String → Option String → Option ℕ → Option ℕ → PfcpMsg
  unfolding fill
  decode_pfcp ts data' src_ip dst_ip src_port dst_port =
      fill (blank ts data' src_ip dst_ip src_port dst_port) (py.parse data')
