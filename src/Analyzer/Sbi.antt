-- ===== src/Analyzer/Sbi.antt =====
-- 5gcap/fivegcap/sbi.py: the SBI message.
pub mod Pairing
use g_pcap.Prelude.{ℕ, String, Option, ℕ_discrete}
use g_pcap.Prelude.Keys.{pair_discrete, Option-discrete}
use g_pcap.Prelude.Text.{String-discrete}

-- The two ends of a TCP connection, each an address and a port, in one order for both directions
-- (the source's frozenset).
abbrev pub Conn : Type 0
Conn = (Option String × ℕ) × (Option String × ℕ)

unfoldable pub Conn-discrete : Discrete Conn
unfolding pair_discrete Option-discrete String-discrete ℕ_discrete
Conn-discrete =
    let end_discrete : Discrete (Option String × ℕ) =
      pair_discrete (Option-discrete String-discrete) ℕ_discrete in
    pair_discrete end_discrete end_discrete

pub data Direction : Type 0 where
  request response : Direction

pub record SbiMsg : Type 0 where
  pub ts : ℕ
  pub stream_id : ℕ
  pub direction : Direction
  pub method : Option String
  pub path : Option String
  pub status : Option ℕ
  pub body_len : ℕ
  pub name : Option String
  pub supi : Option String
  pub pdu_session_id : Option ℕ
  pub problem_title : Option String
  pub problem_cause : Option String
  pub unparsed : Option String
  pub conn : Option Conn
  pub src_ip : Option String
  pub dst_ip : Option String
  pub src_port : Option ℕ
  pub dst_port : Option ℕ
