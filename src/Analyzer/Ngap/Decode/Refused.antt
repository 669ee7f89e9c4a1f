-- ===== src/Analyzer/Ngap/Decode/Refused.antt =====
-- An NGAP message is decoded or refused (5gcap/fivegcap/ngap.py, `decode`).
use g_pcap.Prelude.{
  ℕ, String, true, ◌≡◌, refl, subst, bind, bind-some, if_cases, is_some, Option, none, some, List,
  [], ◌∷◌, ◌⊎◌, inl, inr, Bool, false, All, All-imp, In,
}
use g_pcap.Analyzer.Capture.{Assoc}
use g_pcap.Prelude.Chars.{starts_with}
use g_pcap.Prelude.Dict.{Dict, get}
use g_pcap.Prelude.Text.{String-discrete}
use g_pcap.Analyzer.Octets.{to_bytes}
use g_pcap.Analyzer.Value.{
  Val, null, int, bool, bytes, text, list, dict, nil, cons, end, Tunnel, Vals, Fields, as_int,
}
use g_pcap.Analyzer.Ngap.{NgapMsg}
use g_pcap.Analyzer.Ngap.Decode.Sessions.{pdu_sessions_of-All}
use g_pcap.Analyzer.Ngap.Decode.{
  NgapResult, value, failed, NgapLibrary, Extraction, stopped, unknown_procedure, done, extract,
  tunnels_of, pdu_sessions_of, commit_or_refuse, decode_result, unread, decode_ngap, extract_fields,
  Extracted, get_or, field_or, index_one, index_zero, iterated, fields_or_empty, elements_of,
  or_stopped, extract_named, or_extract, extract_body, extract_kind, text_of,
}

-- A note, and nothing from the bytes.
pub record IsRefused (m : NgapMsg) : Type 0 where
  pub note : is_some m.unparsed ≡ true
  pub no_kind : m.kind ≡ none
  pub no_code : m.proc_code ≡ none
  pub no_name : m.name ≡ none
  pub no_ran : m.ran_ue_id ≡ none
  pub no_amf : m.amf_ue_id ≡ none
  pub no_nas : m.nas_pdu ≡ none
  pub no_elements : m.ies ≡ []
  pub no_keys : m.f_teids ≡ []
  pub no_sessions : m.req_session_tunnels ≡ []
  pub no_counts : m.rsp_session_counts ≡ []

-- A name that stands for a procedure that pycrate does not know.
abbrev pub is_placeholder : Option String → Bool
is_placeholder none = false
is_placeholder (some s) = starts_with "_unk_" s

of_some : {A : Type 0} {x y : A} → some x ≡ some y → x ≡ y
of_some e = cc

All-weaken :
    (t : Tunnel) (ts us : List Tunnel) → All (λ u. In u ts) us → All (λ u. In u (t ∷ ts)) us
All-weaken t ts us h = All-imp us (λ u i. inr i) h

All-self : (ts : List Tunnel) → All (λ t. In t ts) ts
All-self [] = tt
All-self (t ∷ ts) = (inl refl, All-weaken t ts ts (All-self ts))

module _ (py : NgapLibrary) where
  -- The elements are those of the parsed value's second part, below its kind.
  pub record IsRead (v kind code : Val) (elements : Dict String Val) : Type 0 where
    pub first : index_zero v ≡ some kind
    pub body : Val
    pub second : index_one v ≡ some body
    pub coded : get_or null "procedureCode" body ≡ some code
    pub content : Val
    pub valued : get_or (list (cons null (cons (dict end) nil))) "value" body ≡ some content
    pub fields : Fields
    pub inside : bind (index_one content) (fields_or_empty py) ≡ some fields
    pub ies : Vals
    pub listed : iterated (field_or (list nil) "protocolIEs" fields) ≡ some ies
    pub collected : elements_of py ies [] ≡ some elements

  -- The bytes were parsed to a value from whose protocolIEs the elements come, and from these the
  -- ids, the NAS part and the keys; the name stands for no unknown procedure, there is no note, and
  -- each tunnel of each session is one of the keys.
  pub record IsDecoded (data' : List ℕ) (m : NgapMsg) : Type 0 where
    pub parsed : Val
    pub kind : Val
    pub code : Val
    pub answered : py.from_aper data' ≡ value parsed
    pub read : IsRead parsed kind code m.ies
    pub kind_text : m.kind ≡ text_of py kind
    pub number : m.proc_code ≡ as_int code
    pub no_note : m.unparsed ≡ none
    pub known : is_placeholder m.name ≡ false
    pub ran : m.ran_ue_id ≡ bind (get String-discrete "RAN-UE-NGAP-ID" m.ies) as_int
    pub amf : m.amf_ue_id ≡ bind (get String-discrete "AMF-UE-NGAP-ID" m.ies) as_int
    pub nas : m.nas_pdu ≡ bind (get String-discrete "NAS-PDU" m.ies) (to_bytes py.literal_eval)
    pub keys : tunnels_of py m.ies ≡ some m.f_teids
    pub sessions : All (λ s. All (λ t. In t m.f_teids) s.1) m.req_session_tunnels

  record IsOwn (v : Val) (x : Extracted py) : Type 0 where
    read : IsRead v x.kind x.proc_code x.elements
    known : is_placeholder x.name ≡ false
    keys : tunnels_of py x.elements ≡ some x.tunnels
    sessions : All (λ s. All (λ t. In t x.tunnels) s.1) x.sessions

  abbrev Consistent : Val → Extraction py → Type 0
  Consistent v stopped = Unit
  Consistent v (unknown_procedure s) = Unit
  Consistent v (done x) = IsOwn v x

  module _ (v kind body : Val) (first : index_zero v ≡ some kind)
      (second : index_one v ≡ some body) where
    extract_fields-IsOwn :
        (name : Option String) (x : Extracted py)
        → is_placeholder name ≡ false
        → extract_fields py kind body name ≡ some x
        → IsOwn v x
    unfolding extract_fields
    extract_fields-IsOwn name x known e =
        let (code, e1, q1) = bind-some (get_or null "procedureCode" body) _ x e in
        let (w, e2, q2) =
          bind-some (get_or (list (cons null (cons (dict end) nil))) "value" body) _ x q1 in
        let (fs, e3, q3) = bind-some (bind (index_one w) (fields_or_empty py)) _ x q2 in
        let (ies, e4, q4) = bind-some (iterated (field_or (list nil) "protocolIEs" fs)) _ x q3 in
        let (d, e5, q5) = bind-some (elements_of py ies []) _ x q4 in
        let (ts, e6, q6) = bind-some (tunnels_of py d) _ x q5 in
        let (rs, e7, q7) = bind-some (pdu_sessions_of py d [] []) _ x q6 in
        let same : record {
          kind = kind;
          proc_code = code;
          name = name;
          elements = d;
          tunnels = ts;
          sessions = rs.0;
          counts = rs.1;
        }
            ≡ x =
          of_some q7 in
        subst (IsOwn v) same (record {
          read = record {
            first = first;
            body = body;
            second = second;
            coded = e1;
            content = w;
            valued = e2;
            fields = fs;
            inside = e3;
            ies = ies;
            listed = e4;
            collected = e5;
          };
          known = known;
          keys = e6;
          sessions = pdu_sessions_of-All py (λ t. In t ts) d [] [] ts rs e6 (All-self ts) tt e7;
        })

    or_stopped-Consistent :
        (o : Option (Extracted py))
        → ((x : Extracted py) → o ≡ some x → IsOwn v x)
        → Consistent v (or_stopped py o)
    or_stopped-Consistent none h = tt
    or_stopped-Consistent (some x) h = h x refl

    extract_named-Consistent : (name : Val) → Consistent v (extract_named py kind body name)
    extract_named-Consistent null =
        or_stopped-Consistent (extract_fields py kind body none)
          (λ x. extract_fields-IsOwn none x refl)
    extract_named-Consistent (text s) =
        if_cases (Consistent v) (starts_with "_unk_" s) (unknown_procedure s)
          (or_stopped py (extract_fields py kind body (some s))) (λ e. tt)
          (λ e.
            or_stopped-Consistent (extract_fields py kind body (some s))
              (λ x. extract_fields-IsOwn (some s) x e))
    extract_named-Consistent (int n) = tt
    extract_named-Consistent (bool b) = tt
    extract_named-Consistent (bytes bs) = tt
    extract_named-Consistent (list vs) = tt
    extract_named-Consistent (dict fs) = tt

    or_extract-Consistent : (o : Option Val) → Consistent v (or_extract py kind body o)
    or_extract-Consistent none = tt
    or_extract-Consistent (some name) = extract_named-Consistent name

  extract_body-Consistent :
      (v kind : Val) (o : Option Val)
      → index_zero v ≡ some kind
      → index_one v ≡ o
      → Consistent v (extract_body py kind o)
  extract_body-Consistent v kind none first second = tt
  extract_body-Consistent v kind (some body) first second =
      or_extract-Consistent v kind body first second
        (bind (get_or (list (cons null nil)) "value" body) index_zero)

  extract_kind-Consistent :
      (v : Val) (o : Option Val) → index_zero v ≡ o → Consistent v (extract_kind py v o)
  extract_kind-Consistent v none first = tt
  extract_kind-Consistent v (some kind) first =
      extract_body-Consistent v kind (index_one v) first refl

  extract-Consistent : (v : Val) → Consistent v (extract py v)
  unfolding extract
  extract-Consistent v = extract_kind-Consistent v (index_zero v) refl

  module _ (ts : ℕ) (assoc : Assoc) (stream : ℕ) (data' : List ℕ)
      (src_ip dst_ip : Option String) where
    abbrev Fate : NgapMsg → Type 0
    Fate m = IsDecoded data' m ⊎ IsRefused m

    refused :
        (note : String)
        → IsRefused
            (record (unread py ts assoc stream data' src_ip dst_ip) { unparsed = some note })
    refused note = record {
      note = refl;
      no_kind = refl;
      no_code = refl;
      no_name = refl;
      no_ran = refl;
      no_amf = refl;
      no_nas = refl;
      no_elements = refl;
      no_keys = refl;
      no_sessions = refl;
      no_counts = refl;
    }

    commit_or_refuse-Fate :
        (v : Val) (x : Extraction py)
        → py.from_aper data' ≡ value v
        → Consistent v x
        → Fate (commit_or_refuse py v x (unread py ts assoc stream data' src_ip dst_ip))
    commit_or_refuse-Fate v stopped p h = inr (refused _)
    commit_or_refuse-Fate v (unknown_procedure s) p h = inr (refused _)
    commit_or_refuse-Fate v (done x) p h = inl (record {
      parsed = v;
      kind = x.kind;
      code = x.proc_code;
      answered = p;
      read = h.read;
      kind_text = refl;
      number = refl;
      no_note = refl;
      known = h.known;
      ran = refl;
      amf = refl;
      nas = refl;
      keys = h.keys;
      sessions = h.sessions;
    })

    decode_result-Fate :
        (r : NgapResult)
        → py.from_aper data' ≡ r
        → Fate (decode_result py r (unread py ts assoc stream data' src_ip dst_ip))
    decode_result-Fate (failed e) p = inr (refused _)
    decode_result-Fate (value v) p = commit_or_refuse-Fate v (extract py v) p (extract-Consistent v)

    -- Whatever the bytes are, the message is decoded or refused. If it is decoded, the bytes were
    -- parsed, its kind, code and elements are those of the parsed value, its ids, NAS part and keys
    -- those of its elements, its name is no placeholder for an unknown procedure, it has no note, and
    -- each tunnel of each of its sessions is one of its keys. If it is refused, it has a note and
    -- nothing taken from the bytes.
    pub decode_ngap-IsDecodedXorRefused :
        IsDecoded data' (decode_ngap py ts assoc stream data' src_ip dst_ip)
        ⊎ IsRefused (decode_ngap py ts assoc stream data' src_ip dst_ip)
    unfolding decode_ngap
    decode_ngap-IsDecodedXorRefused = decode_result-Fate (py.from_aper data') refl
