-- ===== src/Dispatch/Json.antt =====
-- The values that the remediation reads from language models, files and evidence: json's, with a
-- number as Python prints it, and YAML's dates, by their ordinal.
use g_pcap.Prelude.{ℕ, String, Bool, Option, none, some, List, [], ◌∷◌}
use g_pcap.Prelude.Dict.{Dict, get}
use g_pcap.Prelude.Text.{String-discrete}

mutual
  pub data Json : Type 0 where
    null : Json
    flag : Bool → Json
    number : String → Json
    text : String → Json
    day : ℕ → Json
    list : Items → Json
    dict : Members → Json

  pub data Items : Type 0 where
    nil : Items
    cons : Json → Items → Items

  pub data Members : Type 0 where
    end : Members
    member : String → Json → Members → Members

-- A dict's keys and values, in their order.
abbrev pub entries : Members → Dict String Json
entries end = []
entries (member k v ms) = (k, v) ∷ entries ms

abbrev pub elements : Items → List Json
elements nil = []
elements (cons v vs) = v ∷ elements vs

-- `d.get(key)`
abbrev pub lookup : String → Dict String Json → Json
lookup key d = elim (get String-discrete key d) [ none ↦ null | some v ↦ v ]

-- `isinstance(v, str)` and the text
abbrev pub as_text : Json → Option String
as_text (text s) = some s
as_text null = none
as_text (flag b) = none
as_text (number n) = none
as_text (day d) = none
as_text (list vs) = none
as_text (dict ms) = none

-- `isinstance(v, dict)` and the dict
abbrev pub as_dict : Json → Option (Dict String Json)
as_dict (dict ms) = some (entries ms)
as_dict null = none
as_dict (flag b) = none
as_dict (number n) = none
as_dict (text s) = none
as_dict (day d) = none
as_dict (list vs) = none

-- `isinstance(v, list)` and the list
abbrev pub as_list : Json → Option (List Json)
as_list (list vs) = some (elements vs)
as_list null = none
as_list (flag b) = none
as_list (number n) = none
as_list (text s) = none
as_list (day d) = none
as_list (dict ms) = none
