-- ===== src/Analyzer/Correlate.antt =====
-- 5gcap/fivegcap/correlate.py: messages of the SBI and N4 planes joined to flows by equal keys.
-- A flow id that a key maps to is a member of a set, here a list in which each id stands once.
pub mod Streams
pub mod Claims
pub mod Mirror
pub mod N4
pub mod Sbi
use g_pcap.Prelude.{
  ℕ, suc, String, Bool, true, false, ◌&&◌, not, if◌then◌else◌, Option, none, some, List, [], ◌∷◌,
  ◌++◌, map, ℕ_discrete, is_some,
}
use g_pcap.Prelude.Dict.{Dict, get, put}
use g_pcap.Prelude.Keys.{pair_discrete, Option-discrete}
use g_pcap.Prelude.Sets.{add, sole}
use g_pcap.Prelude.Sort.{sort_by}
use g_pcap.Prelude.Text.{String-discrete, truthy}
use g_pcap.Analyzer.Value.{Tunnel, Tunnel-discrete}
use g_pcap.Analyzer.Nas.{NasMsg}
use g_pcap.Analyzer.Ngap.{NgapMsg}
use g_pcap.Analyzer.Flow.{Flow}
use g_pcap.Analyzer.Pfcp.{PfcpMsg}
use g_pcap.Analyzer.Sbi.{SbiMsg, Conn, Conn-discrete, Direction, request, response}

-- key -> the flow ids that declared it
abbrev pub Claims : Type 0 → Type 0
Claims K = Dict K (List ℕ)

abbrev pub list_at : Option (List ℕ) → List ℕ
list_at none = []
list_at (some ids) = ids

module _ {K : Type 0} (dec : Discrete K) where
  -- `claims.setdefault(k, set()).add(flow_id)` for each of the keys
  unfoldable pub claim_all : ℕ → List K → Claims K → Claims K
  claim_all id [] claims = claims
  claim_all id (k ∷ ks) claims =
      claim_all id ks (put dec k (add ℕ_discrete id (list_at (get dec k claims))) claims)

  -- The loop over the flows, with the keys that each declares.
  unfoldable pub claims_from : (Flow → List K) → List Flow → Claims K → Claims K
  claims_from keys [] claims = claims
  claims_from keys (f ∷ fs) claims = claims_from keys fs (claim_all f.flow_id (keys f) claims)

  -- `unambiguous.get(k)`: the flow, if just one claims the key.
  unfoldable pub owner : Claims K → K → Option ℕ
  owner claims k = sole (list_at (get dec k claims))

-- `nas is not None and nas.supi`
abbrev pub nas_supi : Option NasMsg → Option String
nas_supi none = none
nas_supi (some nas) = nas.supi

abbrev pub if_truthy : Option String → List String
if_truthy none = []
if_truthy (some s) = if truthy (some s) then s ∷ [] else []

-- The SUPIs that the NAS parts of a flow's messages declare, in order.
unfoldable pub supis_of : List (NgapMsg × Option NasMsg) → List String
supis_of [] = []
supis_of ((ng, nas) ∷ ms) = if_truthy (nas_supi nas) ++ supis_of ms

-- The tunnels that the NGAP parts of a flow's messages declare, in order.
unfoldable pub tunnels_of : List (NgapMsg × Option NasMsg) → List Tunnel
tunnels_of [] = []
tunnels_of ((ng, nas) ∷ ms) = ng.f_teids ++ tunnels_of ms

abbrev pub supi_keys : Flow → List String
supi_keys f = supis_of f.messages

abbrev pub tunnel_keys : Flow → List Tunnel
tunnel_keys f = tunnels_of f.messages

unfoldable pub flow_supis : List Flow → Claims String
unfolding claims_from
flow_supis flows = claims_from String-discrete supi_keys flows []

unfoldable pub flow_tunnels : List Flow → Claims Tunnel
unfolding claims_from
flow_tunnels flows = claims_from Tunnel-discrete tunnel_keys flows []

-- The links of one plane: message index -> flow id, and flow id -> message indexes.
pub record Links : Type 0 where
  pub flow_of : Dict ℕ (Option ℕ)
  pub refs : Dict ℕ (List ℕ)

abbrev pub no_links : Links
no_links = record { flow_of = []; refs = [] }

unfoldable pub set_flow : ℕ → Option ℕ → Links → Links
set_flow i fid l = record l { flow_of = put ℕ_discrete i fid l.flow_of }

-- The message is linked to the flow: `setdefault(fid, []).append(i)`.
unfoldable pub link : ℕ → ℕ → Links → Links
link i fid l = record {
  flow_of = put ℕ_discrete i (some fid) l.flow_of;
  refs = put ℕ_discrete fid (list_at (get ℕ_discrete fid l.refs) ++ i ∷ []) l.refs;
}

unfoldable pub link_if : ℕ → Option ℕ → Links → Links
unfolding link
link_if i none l = l
link_if i (some fid) l = link i fid l

-- `for refs in ….values(): refs.sort()`
unfoldable pub sort_refs : Links → Links
sort_refs l = record l { refs = map (λ e. (e.0, sort_by (λ i. i) e.1)) l.refs }

-- The flows that own the tunnels: `{unambiguous[t] for t in m.f_teids if t in unambiguous}`.
abbrev add_if : Option ℕ → List ℕ → List ℕ
add_if none ids = ids
add_if (some id) ids = add ℕ_discrete id ids

unfoldable pub owners : Claims Tunnel → List Tunnel → List ℕ → List ℕ
unfolding owner
owners claims [] ids = ids
owners claims (t ∷ ts) ids = owners claims ts (add_if (owner Tunnel-discrete claims t) ids)

-- The flow of an N4 message: a refused message has none, and neither has one of several flows.
unfoldable pub n4_flow : Claims Tunnel → PfcpMsg → Option ℕ
unfolding owners
n4_flow claims m = if is_some m.unparsed then none else sole (owners claims m.f_teids [])

unfoldable pub n4_links : Claims Tunnel → ℕ → List PfcpMsg → Links → Links
unfolding set_flow link_if n4_flow
n4_links claims i [] l = l
n4_links claims i (m ∷ ms) l =
    n4_links claims (suc i) ms (link_if i (n4_flow claims m) (set_flow i none l))

unfoldable pub join_n4 : List PfcpMsg → Claims Tunnel → Links
unfolding n4_links sort_refs
join_n4 msgs claims = sort_refs (n4_links claims 0 msgs no_links)

-- The stream of a request or a response.
abbrev pub StreamId : Type 0
StreamId = Option Conn × ℕ

unfoldable pub StreamId-discrete : Discrete StreamId
unfolding pair_discrete Option-discrete Conn-discrete ℕ_discrete
StreamId-discrete = pair_discrete (Option-discrete Conn-discrete) ℕ_discrete

abbrev pub stream_of : SbiMsg → StreamId
stream_of m = (m.conn, m.stream_id)

abbrev pub is_request : Direction → Bool
is_request request = true
is_request response = false

-- `unambiguous.get(m.supi)`; None is no SUPI that a flow declares.
abbrev pub owner_of : Claims String → Option String → Option ℕ
owner_of claims none = none
owner_of claims (some s) = owner String-discrete claims s

-- The flow of a request, by the SUPI that it declares.
unfoldable pub request_flow : Claims String → SbiMsg → Option ℕ
unfolding owner
request_flow claims m =
    if is_request m.direction && not (is_some m.unparsed) && is_some m.conn
    then owner_of claims m.supi
    else none

abbrev pub put_if : StreamId → Option ℕ → Dict StreamId ℕ → Dict StreamId ℕ
put_if k none d = d
put_if k (some fid) d = put StreamId-discrete k fid d

-- The first loop: requests join by their SUPI.
unfoldable pub request_links :
    Claims String → ℕ → List SbiMsg → Links → Dict StreamId ℕ → Links × Dict StreamId ℕ
unfolding set_flow link_if request_flow
request_links claims i [] l req_flow = (l, req_flow)
request_links claims i (m ∷ ms) l req_flow =
    let fid = request_flow claims m in
    request_links claims (suc i) ms (link_if i fid (set_flow i none l))
      (put_if (stream_of m) fid req_flow)

-- The second loop: a response inherits the flow of its stream's request.
unfoldable pub response_flow : Dict StreamId ℕ → SbiMsg → Option ℕ
response_flow req_flow m =
    if not (is_request m.direction) && is_some m.conn
    then get StreamId-discrete (stream_of m) req_flow
    else none

unfoldable pub response_links : Dict StreamId ℕ → ℕ → List SbiMsg → Links → Links
unfolding link_if response_flow
response_links req_flow i [] l = l
response_links req_flow i (m ∷ ms) l =
    response_links req_flow (suc i) ms (link_if i (response_flow req_flow m) l)

unfoldable pub join_sbi : List SbiMsg → Claims String → Links
unfolding request_links response_links sort_refs
join_sbi msgs claims =
    let (l, req_flow) = request_links claims 0 msgs no_links [] in
    sort_refs (response_links req_flow 0 msgs l)

pub record Correlation : Type 0 where
  pub sbi : Links
  pub n4 : Links

-- An absent plane is an empty list: either way nothing is joined.
unfoldable pub correlate : List Flow → List SbiMsg → List PfcpMsg → Correlation
unfolding join_sbi flow_supis join_n4 flow_tunnels
correlate flows sbi_msgs n4_msgs = record {
  sbi = join_sbi sbi_msgs (flow_supis flows);
  n4 = join_n4 n4_msgs (flow_tunnels flows);
}
