-- ===== src/Analyzer/Pfcp.antt =====
-- 5gcap/fivegcap/pfcp.py: the PFCP (N4) message and the request types.
pub mod Pairing
pub mod Decode
use g_pcap.Prelude.{ℕ, String, ◌==◌, if◌then◌else◌, Option, none, some, List, ℕ_discrete}
use g_pcap.Prelude.Dict.{Dict}
use g_pcap.Prelude.Text.{String-discrete}
use g_pcap.Analyzer.Value.{Val, Ip, Tunnel}

-- `REQ_KIND.get(t)`
unfoldable pub req_kind : ℕ → Option String
req_kind t =
    if t == 1
    then some "heartbeat"
    else if t == 3
    then some "pfd_management"
    else if t == 5
    then some "association_setup"
    else if t == 7
    then some "association_update"
    else if t == 9
    then some "association_release"
    else if t == 12
    then some "node_report"
    else if t == 14
    then some "session_set_deletion"
    else if t == 50
    then some "session_establishment"
    else if t == 52
    then some "session_modification"
    else if t == 54
    then some "session_deletion"
    else if t == 56
    then some "session_report"
    else none

pub record PfcpMsg : Type 0 where
  pub ts : ℕ
  pub raw : List ℕ
  pub msg_type : Option ℕ
  pub name : Option String
  pub seq : Option ℕ
  pub seid : Option ℕ
  pub cause : Option ℕ
  pub cause_name : Option String
  pub ies : Dict ℕ Val
  pub f_teids : List Tunnel
  pub ue_ip : Option Ip
  pub user_id : Option String
  pub unparsed : Option String
  pub src_ip : Option String
  pub dst_ip : Option String
  pub src_port : Option ℕ
  pub dst_port : Option ℕ

pub data Outcome : Type 0 where
  accept reject unknown timeout : Outcome

pub record N4Procedure : Type 0 where
  pub kind : String
  pub start_ts : ℕ
  pub end_ts : ℕ
  pub start_msg : Option String
  pub end_msg : Option String
  pub outcome : Outcome
  pub cause : Option ℕ
  pub cause_name : Option String
  pub req_index : Option ℕ
  pub rsp_index : Option ℕ
