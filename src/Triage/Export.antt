-- ===== src/Triage/Export.antt =====
-- The analyzer's JSON export as triage/triage reads it. A key that may be missing or null is an
-- Option, a list that is missing or null is empty, and a time is a number of microseconds.
use g_pcap.Prelude.{ℕ, Bool, String, Option, List}

-- A message of an N2 flow; a "nas_cause" is there with or without its code.
pub record FlowMessage : Type 0 where
  pub ngap : Option String
  pub nas : Option String
  pub nas_inner : Option String
  pub nas_cause : Option (Option ℕ)
  pub ts : Option ℕ

-- A procedure of a flow, or of the SBI or the N4 plane.
pub record Procedure : Type 0 where
  pub kind : Option String
  pub outcome : Option String
  pub flow_id : Option ℕ
  pub status : Option ℕ
  pub cause : Option ℕ

pub record ExportedFlow : Type 0 where
  pub flow_id : Option ℕ
  pub messages : List FlowMessage
  pub procedures : List Procedure
  pub partial : Bool

-- A message of the N4 or of the SBI plane; an SBI message has no cause code.
pub record PlaneMessage : Type 0 where
  pub name : Option String
  pub cause_code : Option ℕ
  pub ts : Option ℕ

pub record DecodedCapture : Type 0 where
  pub flows : List ExportedFlow
  pub unassociated : List FlowMessage
  pub n4_messages : List PlaneMessage
  pub n4_procedures : List Procedure
  pub sbi_messages : List PlaneMessage
  pub sbi_procedures : List Procedure
