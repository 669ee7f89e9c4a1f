-- ===== src/Triage/Search/Node.antt =====
-- triage/triage/search.py: `Node`, its backpropagation, and the score of a child. Rewards are
-- floats: their type and its operations are a parameter.
use g_pcap.Prelude.{
  ℕ, suc, String, Bool, true, false, if◌then◌else◌, ◌==◌, Option, none, some, List, [], ◌∷◌, ◌++◌,
}
use g_pcap.Prelude.Text.{truthy}
use g_pcap.Prelude.Chars.{join_texts}
use Prim.Native.String.{◌++◌ as append}

-- The floats and what the search does with them.
pub record Floats (R : Type 0) : Type 0 where
  pub zero_r : R
  pub infinity : R
  pub add : R → R → R
  pub sub : R → R → R
  pub mul : R → R → R
  pub div : R → R → R
  pub of_nat : ℕ → R
  pub sqrt : R → R
  pub log : R → R
  pub lt : R → R → Bool

pub data Status : Type 0 where
  complete failed incomplete : Status

-- A node's own fields; its children stand beside them, and its parent is the node above it.
pub record Info (R E : Type 0) : Type 0 where
  pub action : String
  pub depth : ℕ
  pub observation : Option String
  pub episode : Option E
  pub value : R
  pub reward : R
  pub visits : ℕ
  pub status : Status

mutual
  pub data Node (R E : Type 0) : Type 0 where
    node : Info R E → Nodes R E → Node R E

  pub data Nodes (R E : Type 0) : Type 0 where
    nil : Nodes R E
    cons : Node R E → Nodes R E → Nodes R E

abbrev pub info : {R E : Type 0} → Node R E → Info R E
info (node i cs) = i

abbrev pub children : {R E : Type 0} → Node R E → Nodes R E
children (node i cs) = cs

abbrev pub append_nodes : {R E : Type 0} → Nodes R E → Nodes R E → Nodes R E
append_nodes nil ds = ds
append_nodes (cons c cs) ds = cons c (append_nodes cs ds)

-- (action, observation), from the root on
abbrev pub Trajectory : Type 0
Trajectory = List (String × String)

abbrev pub or_empty : Option String → String
or_empty none = ""
or_empty (some s) = s

-- `node.trajectory()`, from its parent's; the root has no action and contributes nothing.
unfoldable pub extend : {R E : Type 0} → Trajectory → Info R E → Trajectory
extend above i =
    if truthy (some i.action) then above ++ (i.action, or_empty i.observation) ∷ [] else above

abbrev pub pair_texts : Trajectory → List String
pair_texts [] = []
pair_texts ((a, o) ∷ ps) = append (append "action: " a) (append "\nobservation: " o) ∷ pair_texts ps

-- `_trajectory_text`
unfoldable pub trajectory_text : Trajectory → String
unfolding join_texts
trajectory_text ps = join_texts "\n" (pair_texts ps)

abbrev pub is_failed : Status → Bool
is_failed failed = true
is_failed complete = false
is_failed incomplete = false

module _ {R E : Type 0} (fl : Floats R) where
  -- `Node(action=…, depth=…)`
  unfoldable pub new_node : String → ℕ → Node R E
  new_node action depth =
      node
        (record {
          action = action;
          depth = depth;
          observation = none;
          episode = none;
          value = fl.zero_r;
          reward = fl.zero_r;
          visits = 0;
          status = incomplete;
        })
        nil

  -- What `backprop` does at one node: the count and the mean of the rewards.
  unfoldable pub backprop : R → Info R E → Info R E
  backprop reward i = record i {
    visits = suc i.visits;
    value = fl.add i.value (fl.div (fl.sub reward i.value) (fl.of_nat (suc i.visits)));
  }

  -- The rewards that came up from below, in their order.
  unfoldable pub backprop_all : List R → Info R E → Info R E
  unfolding backprop
  backprop_all [] i = i
  backprop_all (r ∷ rs) i = backprop_all rs (backprop r i)

  -- `_ucb`
  unfoldable pub ucb : R → Info R E → Info R E → R
  ucb c_explore parent child =
      if child.visits == 0
      then fl.infinity
      else if is_failed child.status
      then fl.zero_r
      else fl.add (fl.div child.value (fl.of_nat child.visits)) (
          fl.mul c_explore
            (fl.sqrt (fl.div (fl.log (fl.of_nat parent.visits)) (fl.of_nat child.visits))))
