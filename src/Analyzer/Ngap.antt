-- ===== src/Analyzer/Ngap.antt =====
-- 5gcap/fivegcap/ngap.py: the decoded NGAP message.
pub mod Decode
use g_pcap.Prelude.{ℕ, String, Option, List}
use g_pcap.Prelude.Dict.{Dict}
use g_pcap.Analyzer.Value.{Val, Tunnel}
use g_pcap.Analyzer.Capture.{Assoc}

pub record NgapMsg : Type 0 where
  pub ts : ℕ
  pub assoc : Assoc
  pub stream : ℕ
  pub raw : List ℕ
  pub name : Option String
  pub kind : Option String
  pub proc_code : Option ℕ
  pub ran_ue_id : Option ℕ
  pub amf_ue_id : Option ℕ
  pub nas_pdu : Option (List ℕ)
  pub ies : Dict String Val
  pub f_teids : List Tunnel
  pub req_session_tunnels : Dict ℕ (List Tunnel)
  pub rsp_session_counts : Dict ℕ ℕ
  pub unparsed : Option String
  pub src_ip : Option String
  pub dst_ip : Option String
