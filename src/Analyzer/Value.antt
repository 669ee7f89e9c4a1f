-- ===== src/Analyzer/Value.antt =====
-- What the decoders hand over: pycrate's decoded values (5gcap/fivegcap/ngap.py, pfcp.py and
-- nas.py read them), the text of an address, and a tunnel key. Times are microseconds.
use g_pcap.Prelude.{
  ℕ, zero, suc, String, Bool, true, false, List, ℕ_discrete, Option, none, some, ◌==◌,
}
use g_pcap.Prelude.Keys.{pair_discrete}

mutual
  -- A value of the dynamic language as pycrate builds it: lists, dicts and scalars.
  pub data Val : Type 0 where
    null : Val
    int : ℕ → Val
    bool : Bool → Val
    bytes : List ℕ → Val
    text : String → Val
    list : Vals → Val
    dict : Fields → Val

  pub data Vals : Type 0 where
    nil : Vals
    cons : Val → Vals → Vals

  pub data Fields : Type 0 where
    end : Fields
    field : String → Val → Fields → Fields

-- An address that `_ip_str` renders: the four or the sixteen bytes behind the text. The two
-- renderings are injective and differ, so equal texts are equal bytes.
pub data Ip : Type 0 where
  v4 : List ℕ → Ip
  v6 : List ℕ → Ip

abbrev pub Tunnel : Type 0
Tunnel = ℕ × Ip

pub Ip-discrete : Discrete Ip
Ip-discrete = hlevel ℕ_discrete

unfoldable pub Tunnel-discrete : Discrete Tunnel
unfolding pair_discrete Ip-discrete ℕ_discrete
Tunnel-discrete = pair_discrete ℕ_discrete Ip-discrete

-- `len(val)` of a list, and the item at an index.
abbrev pub size : Vals → ℕ
size nil = 0
size (cons v vs) = suc (size vs)

abbrev pub item : Vals → ℕ → Val
item nil i = null
item (cons v vs) zero = v
item (cons v vs) (suc i) = item vs i

-- `v == k` for a number `k`; Python's True and False are 1 and 0.
abbrev pub equals : Val → ℕ → Bool
equals (int n) k = n == k
equals (bool true) k = k == 1
equals (bool false) k = k == 0
equals _ k = false

-- The number behind a value that `isinstance(v, int)` accepts.
abbrev pub as_int : Val → Option ℕ
as_int (int n) = some n
as_int (bool true) = some 1
as_int (bool false) = some 0
as_int _ = none
