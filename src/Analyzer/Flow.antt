-- ===== src/Analyzer/Flow.antt =====
-- 5gcap/fivegcap/flow.py: NGAP messages grouped into flows, one for each UE, and the procedures
-- of each flow. The flows that the source shares between `flows` and `order` stand in one dict:
-- it keeps their order, and nothing is removed from it.
pub mod Handled
pub mod Traffic
pub mod Messages
pub mod Closed
pub mod Partition
use package.text.Mathlib.Text.{◌==◌ as str_eq}
use g_pcap.Prelude.{
  ℕ, ◌+◌, String, Bool, true, false, ◌&&◌, ◌||◌, not, leb, if◌then◌else◌, is, is_some, any, refl,
  Option, none, some, List, [], ◌∷◌, ◌++◌, ℕ_discrete,
}
use g_pcap.Prelude.Dict.{Dict, get, put, remove, values}
use g_pcap.Prelude.Keys.{Option-discrete, pair_discrete}
use g_pcap.Prelude.Text.{truthy}
use g_pcap.Analyzer.Capture.{Assoc, Assoc-discrete}
use g_pcap.Analyzer.Nas.{NasMsg, NasLibrary, decode}
use g_pcap.Analyzer.Ngap.{NgapMsg}

pub data Kind : Type 0 where
  registration pdu_session_est : Kind

unfoldable pub Kind-discrete : Discrete Kind
Kind-discrete registration registration = yes refl
Kind-discrete registration pdu_session_est = no (λ e. cc)
Kind-discrete pdu_session_est registration = no (λ e. cc)
Kind-discrete pdu_session_est pdu_session_est = yes refl

pub data Outcome : Type 0 where
  open_ended accept reject : Outcome

pub record Procedure : Type 0 where
  pub kind : Kind
  pub start_ts : ℕ
  pub start_msg : String
  pub end_ts : Option ℕ
  pub end_msg : Option String
  pub outcome : Outcome

pub record Flow : Type 0 where
  pub flow_id : ℕ
  pub assoc : Assoc
  pub ran_ue_id : Option ℕ
  pub amf_ue_id : Option ℕ
  pub partial : Bool
  pub messages : List (NgapMsg × Option NasMsg)
  pub procedures : List Procedure
  pub ciph_algo : Option ℕ

-- The association without its direction, and the RAN UE id.
abbrev pub FlowKey : Type 0
FlowKey = Assoc × Option ℕ

unfoldable pub FlowKey-discrete : Discrete FlowKey
unfolding pair_discrete Option-discrete Assoc-discrete ℕ_discrete
FlowKey-discrete = pair_discrete Assoc-discrete (Option-discrete ℕ_discrete)

-- A flow's id and the kind of a procedure. The source's key for a NAS start is the id and the
-- start's name, one name for each kind.
abbrev pub ProcKey : Type 0
ProcKey = ℕ × Kind

unfoldable pub ProcKey-discrete : Discrete ProcKey
unfolding pair_discrete ℕ_discrete Kind-discrete
ProcKey-discrete = pair_discrete ℕ_discrete Kind-discrete

-- `frozenset(assoc)`: two pairs of ports are one set if they are equal when sorted.
unfoldable pub undirected : Assoc → Assoc
undirected (a, b) = if leb a b then (a, b) else (b, a)

unfoldable pub flow_key : NgapMsg → FlowKey
unfolding undirected
flow_key m = (undirected m.assoc, m.ran_ue_id)

abbrev pub named : Option String → String → Bool
named none s = false
named (some n) s = str_eq n s

-- `_nas_of`: the decoded NAS payload, and the flow with the algorithm that it selects, if it is
-- the flow's first.
unfoldable pub first_algo : Option ℕ → Option ℕ → Option ℕ
first_algo none algo = algo
first_algo (some a) algo = some a

unfoldable pub nas_of : NasLibrary → Option (List ℕ) → Option ℕ → Option NasMsg
nas_of py none algo = none
nas_of py (some []) algo = none
nas_of py (some (b ∷ bs)) algo = some (decode py (b ∷ bs) algo)

abbrev pub algo_of : Option NasMsg → Option ℕ
algo_of none = none
algo_of (some nas) = nas.ciph_algo

-- What the loop carries beside the flows: the NAS starts that are open, and the NGAP starts.
pub record Starts : Type 0 where
  pub open_procs : Dict ProcKey Procedure
  pub ngap_starts : Dict ProcKey (List Procedure)

pub record Builder : Type 0 where
  pub flows : Dict FlowKey Flow
  pub unassociated : List NgapMsg
  pub next_id : ℕ
  pub starts : Starts

unfoldable pub new_flow : ℕ → NgapMsg → Flow
unfolding undirected
new_flow id m = record {
  flow_id = id;
  assoc = undirected m.assoc;
  ran_ue_id = m.ran_ue_id;
  amf_ue_id = m.amf_ue_id;
  partial = not (named m.name "InitialUEMessage");
  messages = [];
  procedures = [];
  ciph_algo = none;
}

-- `flow_for`: the flow of the message, and the next id.
unfoldable pub flow_for : NgapMsg → Dict FlowKey Flow → ℕ → Flow × ℕ
unfolding new_flow
flow_for m flows next_id = elim (get FlowKey-discrete (flow_key m) flows) [
  | some f ↦ (f, next_id)
  | none ↦ (new_flow next_id m, next_id + 1)
]

abbrev pub or_else {ℓ} : {A : Type ℓ} → Option A → Option A → Option A
or_else none b = b
or_else (some a) b = some a

-- The message joins the flow: its AMF id if the flow has none, its NAS payload, the algorithm.
unfoldable pub join : NasLibrary → NgapMsg → Flow → Flow
unfolding nas_of first_algo
join py m f =
    let nas = nas_of py m.nas_pdu f.ciph_algo in
    record f {
      amf_ue_id = or_else f.amf_ue_id m.amf_ue_id;
      messages = f.messages ++ (m, nas) ∷ [];
      ciph_algo = first_algo f.ciph_algo (algo_of nas);
    }

-- A release ends the signaling cycle: its NGAP starts are dead.
unfoldable pub is_release : NgapMsg → Bool
is_release m =
    named m.name "UEContextReleaseRequest"
    || named m.name "UEContextReleaseCommand"
    || named m.name "UEContextReleaseComplete"

unfoldable pub release : NgapMsg → ℕ → Starts → Starts
unfolding is_release
release m id s =
    if is_release m
    then record s {
      ngap_starts =
          remove ProcKey-discrete (id, pdu_session_est)
            (remove ProcKey-discrete (id, registration) s.ngap_starts);
    }
    else s

-- What a message's name means for the procedures.
pub data Signal : Type 0 where
  no_signal : Signal
  starts_kind : Kind → Signal
  ends_kind : Kind → Outcome → Signal

unfoldable pub nas_signal : String → Signal
nas_signal n =
    if str_eq n "5GMMRegistrationRequest"
    then starts_kind registration
    else if str_eq n "5GSMPDUSessionEstabRequest"
    then starts_kind pdu_session_est
    else if str_eq n "5GMMRegistrationAccept"
    then ends_kind registration accept
    else if str_eq n "5GMMRegistrationReject"
    then ends_kind registration reject
    else if str_eq n "5GSMPDUSessionEstabAccept"
    then ends_kind pdu_session_est accept
    else if str_eq n "5GSMPDUSessionEstabReject"
    then ends_kind pdu_session_est reject
    else no_signal

-- `nas.inner or nas.name`, of a message that is decoded.
unfoldable pub nas_name : Option NasMsg → Option String
nas_name none = none
nas_name (some nas) =
    if is_some nas.name && not (truthy nas.unparsed)
    then (if truthy nas.inner then nas.inner else nas.name)
    else none

unfoldable pub started : Kind → ℕ → String → Procedure
started kind ts msg = record {
  kind = kind;
  start_ts = ts;
  start_msg = msg;
  end_ts = none;
  end_msg = none;
  outcome = open_ended;
}

unfoldable pub ended : ℕ → String → Outcome → Procedure → Procedure
ended ts msg outcome p = record p { end_ts = some ts; end_msg = some msg; outcome = outcome }

-- What one message does to its flow's procedures and to the starts.
abbrev pub Handled : Type 0
Handled = Flow × Starts

unfoldable pub nas_start : Kind → ℕ → String → Handled → Handled
unfolding started
nas_start kind ts name (f, s) = (
  f,
  record s {
    open_procs = put ProcKey-discrete (f.flow_id, kind) (started kind ts name) s.open_procs;
  },
)

unfoldable pub nas_end : Kind → Outcome → ℕ → String → Handled → Handled
unfolding ended
nas_end kind outcome ts name (f, s) = elim (get ProcKey-discrete (f.flow_id, kind) s.open_procs) [
  | none ↦ (f, s)
  | some p ↦ (
    record f { procedures = f.procedures ++ ended ts name outcome p ∷ [] },
    record s { open_procs = remove ProcKey-discrete (f.flow_id, kind) s.open_procs },
  )
]

pub by_nas : Signal → ℕ → String → Handled → Handled
by_nas no_signal ts name h = h
by_nas (starts_kind kind) ts name h = nas_start kind ts name h
by_nas (ends_kind kind outcome) ts name h = nas_end kind outcome ts name h

-- The NAS-level procedures that a message opens or closes.
unfoldable pub nas_procedures : Option NasMsg → ℕ → Handled → Handled
unfolding by_nas
nas_procedures nas ts h = elim (nas_name nas) [ none ↦ h | some n ↦ by_nas (nas_signal n) ts n h ]

abbrev of_kind : Kind → Procedure → Bool
of_kind k p = is (Kind-discrete p.kind k)

-- `complete_ngap`: the fallback, unless a procedure of the kind is there.
unfoldable pub complete_first :
    Kind → Outcome → ℕ → String → Option (List Procedure) → Handled → Handled
unfolding ended
complete_first kind outcome ts name none h = h
complete_first kind outcome ts name (some []) h = h
complete_first kind outcome ts name (some (p ∷ ps)) (f, s) = (
  record f { procedures = f.procedures ++ ended ts name outcome p ∷ [] },
  record s { ngap_starts = put ProcKey-discrete (f.flow_id, kind) ps s.ngap_starts },
)

unfoldable pub complete_ngap : Kind → Outcome → ℕ → String → Handled → Handled
unfolding complete_first
complete_ngap kind outcome ts name (f, s) =
    if any (of_kind kind) f.procedures
    then (f, record s { ngap_starts = remove ProcKey-discrete (f.flow_id, kind) s.ngap_starts })
    else complete_first kind outcome ts name (get ProcKey-discrete (f.flow_id, kind) s.ngap_starts)
        (f, s)

abbrev list_or_empty : Option (List Procedure) → List Procedure
list_or_empty none = []
list_or_empty (some ps) = ps

unfoldable pub ngap_start : Kind → ℕ → String → Handled → Handled
unfolding started
ngap_start kind ts name (f, s) =
    let key : ProcKey = (f.flow_id, kind) in
    let before = list_or_empty (get ProcKey-discrete key s.ngap_starts) in
    (
      f,
      record s {
        ngap_starts = put ProcKey-discrete key (before ++ started kind ts name ∷ []) s.ngap_starts;
      },
    )

-- The NGAP-level starts and ends, by the message's name.
unfoldable pub ngap_signal : String → Signal
ngap_signal n =
    if str_eq n "InitialUEMessage"
    then starts_kind registration
    else if str_eq n "InitialContextSetupRequest"
    then ends_kind registration accept
    else if str_eq n "InitialContextSetupFailure"
    then ends_kind registration reject
    else if str_eq n "PDUSessionResourceSetupRequest"
    then starts_kind pdu_session_est
    else if str_eq n "PDUSessionResourceSetupResponse"
    then ends_kind pdu_session_est accept
    else if str_eq n "PDUSessionResourceSetupFailure"
    then ends_kind pdu_session_est reject
    else no_signal

unfoldable pub by_ngap : Signal → ℕ → String → Handled → Handled
unfolding ngap_start complete_ngap
by_ngap no_signal ts name h = h
by_ngap (starts_kind kind) ts name h = ngap_start kind ts name h
by_ngap (ends_kind kind outcome) ts name h = complete_ngap kind outcome ts name h

unfoldable pub ngap_procedures : NgapMsg → Handled → Handled
unfolding by_ngap
ngap_procedures m h = elim m.name [ none ↦ h | some n ↦ by_ngap (ngap_signal n) m.ts n h ]

-- What happens to the flow and the starts once the message has joined the flow.
unfoldable pub handle : NasLibrary → NgapMsg → Flow → Starts → Handled
unfolding release nas_procedures ngap_procedures join
handle py m f s =
    let nas = nas_of py m.nas_pdu f.ciph_algo in
    ngap_procedures m (nas_procedures nas m.ts (join py m f, release m f.flow_id s))

unfoldable pub is_associated : NgapMsg → Bool
is_associated m = is_some m.ran_ue_id || is_some m.amf_ue_id

-- The body of the loop over the messages.
unfoldable pub build_step : NasLibrary → NgapMsg → Builder → Builder
unfolding is_associated flow_for handle
build_step py m b =
    if is_associated m
    then (let (f, next) = flow_for m b.flows b.next_id in
        let (f', s') = handle py m f b.starts in
        record {
          flows = put FlowKey-discrete (flow_key m) f' b.flows;
          unassociated = b.unassociated;
          next_id = next;
          starts = s';
        })
    else (record b { unassociated = b.unassociated ++ m ∷ [] })

unfoldable pub build_all : NasLibrary → List NgapMsg → Builder → Builder
build_all py [] b = b
build_all py (m ∷ ms) b = build_all py ms (build_step py m b)

abbrev pub empty_builder : Builder
empty_builder = record {
  flows = [];
  unassociated = [];
  next_id = 1;
  starts = record { open_procs = []; ngap_starts = [] };
}

-- The flows in the order of their first messages, and the messages of no UE.
unfoldable pub build_flows : NasLibrary → List NgapMsg → List Flow × List NgapMsg
build_flows py msgs = let b = build_all py msgs empty_builder in (values b.flows, b.unassociated)
