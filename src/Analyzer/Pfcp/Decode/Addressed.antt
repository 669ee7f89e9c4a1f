-- ===== src/Analyzer/Pfcp/Decode/Addressed.antt =====
-- What a decoded PFCP message holds (5gcap/fivegcap/pfcp.py, `decode`).
use g_pcap.Prelude.{
  ℕ, String, ◌≡◌, ◌==◌, ltb, if◌then◌else◌, if_cases, length, Option, none, some, List, [], ◌∷◌,
  All, All-append, ==_iff, ℕ_discrete,
}
use g_pcap.Prelude.Dict.{put}
use g_pcap.Analyzer.Value.{
  Val, Vals, nil, cons, list, null, int, bool, bytes, text, dict, Ip, v4, v6, Tunnel, size, item,
  equals, as_int,
}
use g_pcap.Analyzer.Octets.{Address, raised, absent, found, to_bytes, ip_str, address_of}
use g_pcap.Analyzer.Pfcp.{PfcpMsg}
use g_pcap.Analyzer.Pfcp.Decode.{
  ParseResult, parsed, failed, PfcpLibrary, key_at, key_of_two, value_at, first_address, fteid_of,
  fteid_key, ohc_of, ohc_key, records_of, value_of, first_of_items, key_of_value, created_pdr_key,
  or_later, header_key, key_in, parameters_of, key_in_records, key_in_items, update_far_key,
  address_ip, or_v6, ue_ip_of, user_id_of, add_key, take_element, take_elements, blank, fill,
  decode_pfcp,
}

-- Four or sixteen bytes.
abbrev pub IsAddress : Ip → Type 0
IsAddress (v4 bs) = length bs ≡ 4
IsAddress (v6 bs) = length bs ≡ 16

abbrev IsGoodAddress : Address → Type 0
IsGoodAddress raised = Unit
IsGoodAddress absent = Unit
IsGoodAddress (found ip) = IsAddress ip

abbrev pub IsKey : Option Tunnel → Type 0
IsKey none = Unit
IsKey (some (teid, ip)) = IsAddress ip

abbrev pub IsIp : Option Ip → Type 0
IsIp none = Unit
IsIp (some ip) = IsAddress ip

ip_str-IsGoodAddress : (o : Option (List ℕ)) → IsGoodAddress (ip_str o)
unfolding ip_str
ip_str-IsGoodAddress none = tt
ip_str-IsGoodAddress (some bs) =
    if_cases IsGoodAddress (length bs == 4) (found (v4 bs))
      (if length bs == 16 then found (v6 bs) else absent) (λ e. (==_iff (length bs) 4).0 e)
      (λ e.
        if_cases IsGoodAddress (length bs == 16) (found (v6 bs)) absent
          (λ f. (==_iff (length bs) 16).0 f) (λ f. tt))

address_of-IsGoodAddress :
    (literal_eval : String → Option (List ℕ)) (v : Val) → IsGoodAddress (address_of literal_eval v)
unfolding address_of
address_of-IsGoodAddress literal_eval v = ip_str-IsGoodAddress (to_bytes literal_eval v)

module _ (py : PfcpLibrary) where
  key_at-IsKey : (teid : ℕ) (a : Address) → IsGoodAddress a → IsKey (key_at py teid a)
  key_at-IsKey teid raised h = tt
  key_at-IsKey teid absent h = tt
  key_at-IsKey teid (found ip) h = h

  key_of_two-IsKey :
      (teid : ℕ) (a : Address) (o : Option Val) → IsGoodAddress a → IsKey (key_of_two py teid a o)
  key_of_two-IsKey teid raised o h = tt
  key_of_two-IsKey teid (found ip) o h = h
  key_of_two-IsKey teid absent none h = tt
  key_of_two-IsKey teid absent (some v) h =
      key_at-IsKey teid (address_of py.literal_eval v) (address_of-IsGoodAddress py.literal_eval v)

  first_address-IsGoodAddress : (o : Option Val) → IsGoodAddress (first_address py o)
  first_address-IsGoodAddress none = tt
  first_address-IsGoodAddress (some v) = address_of-IsGoodAddress py.literal_eval v

  fteid_of-IsKey : (o : Option ℕ) (vs : Vals) → IsKey (fteid_of py o vs)
  fteid_of-IsKey none vs = tt
  fteid_of-IsKey (some teid) vs =
      key_of_two-IsKey teid (first_address py (value_at py 6 vs)) (value_at py 7 vs)
        (first_address-IsGoodAddress (value_at py 6 vs))

  fteid_key-IsKey : (v : Val) → IsKey (fteid_key py v)
  unfolding fteid_key
  fteid_key-IsKey (list vs) =
      if_cases IsKey (ltb (size vs) 6) none (fteid_of py (as_int (item vs 5)) vs) (λ e. tt)
        (λ e. fteid_of-IsKey (as_int (item vs 5)) vs)
  fteid_key-IsKey null = tt
  fteid_key-IsKey (int n) = tt
  fteid_key-IsKey (bool b) = tt
  fteid_key-IsKey (bytes bs) = tt
  fteid_key-IsKey (text s) = tt
  fteid_key-IsKey (dict fs) = tt

  ohc_of-IsKey : (o : Option ℕ) (vs : Vals) → IsKey (ohc_of py o vs)
  ohc_of-IsKey none vs = tt
  ohc_of-IsKey (some teid) vs =
      let key : (i : ℕ) → IsKey (key_at py teid (address_of py.literal_eval (item vs i))) = λ i.
        key_at-IsKey teid (address_of py.literal_eval (item vs i))
          (address_of-IsGoodAddress py.literal_eval (item vs i)) in
      if_cases IsKey (equals (item vs 7) 1)
        (key_at py teid (address_of py.literal_eval (item vs 12)))
        (if equals (item vs 6) 1
          then key_at py teid (address_of py.literal_eval (item vs 13))
          else none)
        (λ e. key 12)
        (λ e.
          if_cases IsKey (equals (item vs 6) 1)
            (key_at py teid (address_of py.literal_eval (item vs 13))) none (λ f. key 13) (λ f. tt))

  ohc_key-IsKey : (v : Val) → IsKey (ohc_key py v)
  unfolding ohc_key
  ohc_key-IsKey (list vs) =
      if_cases IsKey (ltb (size vs) 13) none (ohc_of py (as_int (item vs 11)) vs) (λ e. tt)
        (λ e. ohc_of-IsKey (as_int (item vs 11)) vs)
  ohc_key-IsKey null = tt
  ohc_key-IsKey (int n) = tt
  ohc_key-IsKey (bool b) = tt
  ohc_key-IsKey (bytes bs) = tt
  ohc_key-IsKey (text s) = tt
  ohc_key-IsKey (dict fs) = tt

  key_of_value-IsKey : (o : Option Val) → IsKey (key_of_value py o)
  key_of_value-IsKey none = tt
  key_of_value-IsKey (some v) = fteid_key-IsKey v

  created_pdr_key-IsKey : (v : Val) → IsKey (created_pdr_key py v)
  unfolding created_pdr_key
  created_pdr_key-IsKey (list vs) = key_of_value-IsKey (first_of_items py 21 vs)
  created_pdr_key-IsKey null = tt
  created_pdr_key-IsKey (int n) = tt
  created_pdr_key-IsKey (bool b) = tt
  created_pdr_key-IsKey (bytes bs) = tt
  created_pdr_key-IsKey (text s) = tt
  created_pdr_key-IsKey (dict fs) = tt

  or_later-IsKey : (k l : Option Tunnel) → IsKey k → IsKey l → IsKey (or_later py k l)
  or_later-IsKey none l h g = g
  or_later-IsKey (some t) l h g = h

  header_key-IsKey : (o : Option Val) → IsKey (header_key py o)
  header_key-IsKey none = tt
  header_key-IsKey (some v) = ohc_key-IsKey v

  key_in-IsKey : (vs : Vals) → IsKey (key_in py vs)
  unfolding key_in
  key_in-IsKey nil = tt
  key_in-IsKey (cons v vs) =
      or_later-IsKey (header_key py (value_of py 84 v)) (key_in py vs)
        (header_key-IsKey (value_of py 84 v)) (key_in-IsKey vs)

  key_in_records-IsKey : (vs : Vals) → IsKey (key_in_records py vs)
  unfolding key_in_records
  key_in_records-IsKey nil = tt
  key_in_records-IsKey (cons v vs) =
      let inner = parameters_of py (value_of py 11 v) in
      or_later-IsKey (key_in py inner) (key_in_records py vs) (key_in-IsKey inner)
        (key_in_records-IsKey vs)

  key_in_items-IsKey : (vs : Vals) → IsKey (key_in_items py vs)
  unfolding key_in_items
  key_in_items-IsKey nil = tt
  key_in_items-IsKey (cons v vs) =
      or_later-IsKey (key_in_records py (records_of py v)) (key_in_items py vs)
        (key_in_records-IsKey (records_of py v)) (key_in_items-IsKey vs)

  update_far_key-IsKey : (v : Val) → IsKey (update_far_key py v)
  unfolding update_far_key
  update_far_key-IsKey (list vs) = key_in_items-IsKey vs
  update_far_key-IsKey null = tt
  update_far_key-IsKey (int n) = tt
  update_far_key-IsKey (bool b) = tt
  update_far_key-IsKey (bytes bs) = tt
  update_far_key-IsKey (text s) = tt
  update_far_key-IsKey (dict fs) = tt

  address_ip-IsIp : (a : Address) → IsGoodAddress a → IsIp (address_ip py a)
  address_ip-IsIp raised h = tt
  address_ip-IsIp absent h = tt
  address_ip-IsIp (found ip) h = h

  or_v6-IsIp : (a : Address) (vs : Vals) → IsGoodAddress a → IsIp (or_v6 py a vs)
  or_v6-IsIp raised vs h = tt
  or_v6-IsIp (found ip) vs h = h
  or_v6-IsIp absent vs h =
      if_cases IsIp (equals (item vs 7) 1) (address_ip py (address_of py.literal_eval (item vs 9)))
        none
        (λ e.
          address_ip-IsIp (address_of py.literal_eval (item vs 9))
            (address_of-IsGoodAddress py.literal_eval (item vs 9)))
        (λ e. tt)

  ue_ip_of-IsIp : (v : Val) → IsIp (ue_ip_of py v)
  unfolding ue_ip_of
  ue_ip_of-IsIp (list vs) =
      let first = if equals (item vs 6) 1 then address_of py.literal_eval (item vs 8) else absent in
      let good =
        if_cases IsGoodAddress (equals (item vs 6) 1) (address_of py.literal_eval (item vs 8))
          absent (λ e. address_of-IsGoodAddress py.literal_eval (item vs 8)) (λ e. tt) in
      if_cases IsIp (ltb (size vs) 9) none (or_v6 py first vs) (λ e. tt)
        (λ e. or_v6-IsIp first vs good)
  ue_ip_of-IsIp null = tt
  ue_ip_of-IsIp (int n) = tt
  ue_ip_of-IsIp (bool b) = tt
  ue_ip_of-IsIp (bytes bs) = tt
  ue_ip_of-IsIp (text s) = tt
  ue_ip_of-IsIp (dict fs) = tt

  -- Each tunnel key and the UE's address have four or sixteen bytes.
  abbrev pub IsAddressed : PfcpMsg → Type 0
  IsAddressed m = All (λ t. IsAddress t.1) m.f_teids × IsIp m.ue_ip

  add_key-IsAddressed :
      (k : Option Tunnel) (m : PfcpMsg) → IsKey k → IsAddressed m → IsAddressed (add_key py k m)
  add_key-IsAddressed none m h g = g
  add_key-IsAddressed (some t) m h g =
      (All-append (λ t'. IsAddress t'.1) m.f_teids (t ∷ []) g.0 (h, tt), g.1)

  take_element-IsAddressed :
      (t : ℕ) (v : Val) (m : PfcpMsg) → IsAddressed m → IsAddressed (take_element py t v m)
  unfolding take_element
  take_element-IsAddressed t v m h =
      let m' = record m { ies = put ℕ_discrete t v m.ies } in
      if_cases IsAddressed (t == 19) _ _ (λ e. h)
        (λ e.
          if_cases IsAddressed (t == 8) (add_key py (created_pdr_key py v) m') _
            (λ f. add_key-IsAddressed (created_pdr_key py v) m' (created_pdr_key-IsKey v) h)
            (λ f.
              if_cases IsAddressed (t == 10) (add_key py (update_far_key py v) m') _
                (λ g. add_key-IsAddressed (update_far_key py v) m' (update_far_key-IsKey v) h)
                (λ g.
                  if_cases IsAddressed (t == 93) (record m' { ue_ip = ue_ip_of py v }) _
                    (λ k. (h.0, ue_ip_of-IsIp v))
                    (λ k.
                      if_cases IsAddressed (t == 141) (record m' { user_id = user_id_of py v }) m'
                        (λ l. h) (λ l. h)))))

  take_elements-IsAddressed :
      (es : List (ℕ × Val)) (m : PfcpMsg) → IsAddressed m → IsAddressed (take_elements py es m)
  unfolding take_elements
  take_elements-IsAddressed [] m h = h
  take_elements-IsAddressed ((t, v) ∷ es) m h =
      take_elements-IsAddressed es (take_element py t v m) (take_element-IsAddressed t v m h)

  fill-IsAddressed : (m : PfcpMsg) (r : ParseResult) → IsAddressed m → IsAddressed (fill py m r)
  unfolding fill
  fill-IsAddressed m (failed note) h = h
  fill-IsAddressed m (parsed p) h = take_elements-IsAddressed p.elements _ h

  -- Whatever the bytes are, each tunnel key and the UE's address of the decoded message have four or
  -- sixteen bytes.
  pub decode_pfcp-IsAddressed :
      (ts : ℕ) (data' : List ℕ) (src_ip dst_ip : Option String) (src_port dst_port : Option ℕ)
      → IsAddressed (decode_pfcp py ts data' src_ip dst_ip src_port dst_port)
  unfolding decode_pfcp
  decode_pfcp-IsAddressed ts data' src_ip dst_ip src_port dst_port =
      fill-IsAddressed (blank py ts data' src_ip dst_ip src_port dst_port) (py.parse data') (tt, tt)
