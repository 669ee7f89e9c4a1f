-- ===== src/Jsonl.antt =====
-- The append-only stores of dispatch/dispatch/memory.py and triage/triage/memory.py: a file with one
-- record a line. How pydantic prints and reads a record is a parameter.
pub mod RoundTrip
use Prim.Native.String.{◌++◌}
use g_pcap.Prelude.{String, Option, none, some, List, [], ◌∷◌, if◌then◌else◌}
use g_pcap.Prelude.Chars.{is_empty_text}
use g_pcap.Prelude.Lines.{split_lines}

-- `model_dump_json` and `model_validate_json`, which gives nothing where it raises.
pub record Codec (E : Type 0) : Type 0 where
  pub dump : E → String
  pub parse : String → Option E

module _ {E : Type 0} (cd : Codec E) where
  -- `add`, of the file's text; a file that is missing is made
  unfoldable pub add_record : E → Option String → Option String
  add_record e none = some (cd.dump e ++ "\n")
  add_record e (some file) = some (file ++ cd.dump e ++ "\n")

  abbrev pub cons_some : Option E → List E → List E
  cons_some none es = es
  cons_some (some e) es = e ∷ es

  -- The records of the lines; an empty line and one that does not parse are skipped.
  unfoldable pub read_lines : List String → List E
  read_lines [] = []
  read_lines (l ∷ ls) =
      let rest = read_lines ls in if is_empty_text l then rest else cons_some (cd.parse l) rest

  -- `load`
  unfoldable pub load : Option String → List E
  unfolding read_lines split_lines
  load none = []
  load (some file) = read_lines (split_lines file)
