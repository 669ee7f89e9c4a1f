-- ===== src/Dispatch/Correlation.antt =====
-- dispatch/dispatch/correlation.py: evidence items linked by the key values that they share. A
-- value is any hashable object: its type and its equality are parameters.
pub mod Carriers
pub mod Sound
use g_pcap.Prelude.{
  ℕ, suc, String, Bool, true, false, ◌&&◌, ◌||◌, not, leb, ltb, is, any, if◌then◌else◌, length,
  get_elem?, Option, none, some, List, [], ◌∷◌, ◌++◌, ℕ_discrete,
}
use g_pcap.Prelude.Dict.{Dict, get, put}
use g_pcap.Prelude.Keys.{pair_discrete}
use g_pcap.Prelude.Sets.{mem}
use g_pcap.Prelude.Sort.{sort_by}
use g_pcap.Prelude.Text.{String-discrete}

-- An item's "keys", where None is a value too, and its "ts".
pub record Evidence (V : Type 0) : Type 0 where
  pub keys : Dict String (Option V)
  pub ts : ℕ

pub record Link (V : Type 0) : Type 0 where
  pub a : ℕ
  pub b : ℕ
  pub key : String
  pub value : V

abbrev pub Window : Type 0
Window = ℕ × ℕ

abbrev pub indexes_at : Option (List ℕ) → List ℕ
indexes_at none = []
indexes_at (some xs) = xs

module _ {V : Type 0} (dec : Discrete V) where
  unfoldable pub KeyValue-discrete : Discrete (String × V)
  unfolding pair_discrete String-discrete
  KeyValue-discrete = pair_discrete String-discrete dec

  -- key and value -> the indexes of the items that carry them
  abbrev pub ByValue : Type 0
  ByValue = Dict (String × V) (List ℕ)

  -- The inner loop over one item's keys.
  unfoldable pub index_keys : ℕ → Dict String (Option V) → ByValue → ByValue
  index_keys i [] d = d
  index_keys i ((k, none) ∷ ks) d = index_keys i ks d
  index_keys i ((k, some v) ∷ ks) d =
      index_keys i ks
        (put KeyValue-discrete (k, v) (indexes_at (get KeyValue-discrete (k, v) d) ++ i ∷ []) d)

  -- `for index, item in enumerate(evidence)`
  unfoldable pub index_all : ℕ → List (Evidence V) → ByValue → ByValue
  unfolding index_keys
  index_all i [] d = d
  index_all i (e ∷ es) d = index_all (suc i) es (index_keys i e.keys d)

  -- `start <= item["ts"] <= end`
  unfoldable pub is_in : Window → Evidence V → Bool
  is_in (start, end) e = leb start e.ts && leb e.ts end

  -- The other item has the key, with a value that differs.
  unfoldable pub differs : Option (Option V) → V → Bool
  differs none v = false
  differs (some none) v = false
  differs (some (some w)) v = not (is (dec v w))

  -- `disagree`: a key of both items has two values.
  unfoldable pub disagree : Dict String (Option V) → Dict String (Option V) → Bool
  unfolding differs
  disagree [] keys_b = false
  disagree ((k, none) ∷ ks) keys_b = disagree ks keys_b
  disagree ((k, some v) ∷ ks) keys_b =
      differs (get String-discrete k keys_b) v || disagree ks keys_b

  -- The links so far, and the pairs that they join.
  pub record Linked : Type 0 where
    pub links : List (Link V)
    pub seen : List (ℕ × ℕ)

  abbrev pub Pair-discrete : Discrete (ℕ × ℕ)
  Pair-discrete = pair_discrete ℕ_discrete ℕ_discrete

  unfoldable pub add_link : ℕ → ℕ → String × V → Linked → Linked
  add_link a b (key, value) s = record {
    links = s.links ++ record { a = a; b = b; key = key; value = value } ∷ [];
    seen = (a, b) ∷ s.seen;
  }

  unfoldable pub link_items :
      Window → String × V → ℕ → ℕ → Evidence V → Evidence V → Linked → Linked
  unfolding is_in disagree add_link
  link_items w kv a b item_a item_b s =
      if not (is_in w item_a && is_in w item_b)
      then s
      else if disagree item_a.keys item_b.keys
      then s
      else add_link a b kv s

  -- The body of the two inner loops; an index that was stored is in range.
  unfoldable pub try_pair : List (Evidence V) → Window → String × V → ℕ → ℕ → Linked → Linked
  unfolding link_items
  try_pair es w kv a b s =
      if leb b a || mem Pair-discrete (a, b) s.seen then s else elim (get_elem? es a) [
        | none ↦ s
        | some item_a ↦ elim (get_elem? es b) [
          | none ↦ s
          | some item_b ↦ link_items w kv a b item_a item_b s
        ]
      ]

  unfoldable pub for_b : List (Evidence V) → Window → String × V → ℕ → List ℕ → Linked → Linked
  unfolding try_pair
  for_b es w kv a [] s = s
  for_b es w kv a (b ∷ bs) s = for_b es w kv a bs (try_pair es w kv a b s)

  unfoldable pub for_a : List (Evidence V) → Window → String × V → List ℕ → List ℕ → Linked → Linked
  unfolding for_b
  for_a es w kv indexes [] s = s
  for_a es w kv indexes (a ∷ rest) s = for_a es w kv indexes rest (for_b es w kv a indexes s)

  -- The loop over the key values; one that more than two items carry links nothing.
  unfoldable pub for_values : List (Evidence V) → Window → ByValue → Linked → Linked
  unfolding for_a
  for_values es w [] s = s
  for_values es w ((kv, indexes) ∷ rest) s =
      for_values es w rest (if ltb 2 (length indexes) then s else for_a es w kv indexes indexes s)

  -- Sorted by `a`, then by `b`. The source sorts by the key after these, which decides nothing: a
  -- pair is linked once.
  unfoldable pub link : List (Evidence V) → Window → List (Link V)
  unfolding for_values index_all
  link es w =
      let s = for_values es w (index_all 0 es []) (record { links = []; seen = [] }) in
      sort_by (λ l. l.a) (sort_by (λ l. l.b) s.links)
