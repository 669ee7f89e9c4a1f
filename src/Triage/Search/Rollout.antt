-- ===== src/Triage/Search/Rollout.antt =====
-- triage/triage/search.py: `Tree._observe_and_evaluate` and `Tree._rollout`. A step that talks to
-- a language model changes a state of the world, which is passed on. The rewards that a node hands
-- to its parent's `backprop` are returned, and applied there in their order: nothing above a node
-- is read before its children are done.
pub mod Counts
pub mod AllNodes
use package.text.Mathlib.Text.{◌==◌ as str_eq}
use g_pcap.Prelude.{
  ℕ, zero, suc, ◌+◌, String, Bool, true, false, ◌&&◌, ◌||◌, ltb, is_some, if◌then◌else◌, Option,
  none, some, List, [], ◌∷◌, ◌++◌,
}
use g_pcap.Prelude.Sets.{mem}
use g_pcap.Prelude.Text.{String-discrete, truthy}
use g_pcap.Triage.Search.Node.{
  Floats, Status, complete, failed, incomplete, Info, Node, node, Nodes, nil, cons, info,
  Trajectory, extend, trajectory_text, new_node, backprop, backprop_all, is_failed, ucb,
}

-- The steps that are injected. `expand` and `evaluate` give nothing where the source's call, or
-- the reading of its result, raises; `evaluate` gives a reward and a status.
pub record Steps (R E W : Type 0) : Type 0 where
  pub expand : String → String → ℕ → W → Option (List String) × W
  pub evaluate : String → String → W → Option (R × String) × W
  pub execute : String → W → (String × Option E) × W

-- What a search is run with.
pub record Settings (R : Type 0) : Type 0 where
  pub c_explore : R
  pub max_depth : ℕ
  pub exit_on_complete : Bool
  pub objective : String
  pub n_branches : ℕ

abbrev pub actions_or_none : Option (List String) → List String
actions_or_none none = []
actions_or_none (some xs) = xs

module _ {R E W : Type 0} (fl : Floats R) (st : Steps R E W) (cfg : Settings R) where
  -- The status is the code's own where an episode is there; the model's answer only scores.
  unfoldable pub status_of : Option E → String → Status
  status_of (some e) s = complete
  status_of none s = if str_eq s "failed" then failed else incomplete

  abbrev pub reward_or : Option (R × String) → R
  reward_or none = fl.zero_r
  reward_or (some (r, s)) = r

  abbrev pub status_or : Option (R × String) → String
  status_or none = "failed"
  status_or (some (r, s)) = s

  -- `_observe_and_evaluate`, of a node below the trajectory; its own `backprop` included.
  unfoldable pub observe : Trajectory → Info R E → W → Info R E × W
  unfolding status_of backprop extend trajectory_text
  observe above i w =
      let ((observation, episode), w1) = st.execute i.action w in
      let seen : Info R E = record i { observation = some observation; episode = episode } in
      let (result, w2) = st.evaluate cfg.objective (trajectory_text (extend above seen)) w1 in
      (
        backprop fl (reward_or result) (record seen {
          reward = reward_or result;
          status = status_of episode (status_or result);
        }),
        w2,
      )

  -- The children that the proposed actions make: no empty action, and each action once.
  unfoldable pub fresh_children : ℕ → List String → List String → Nodes R E
  unfolding new_node
  fresh_children depth [] seen = nil
  fresh_children depth (a ∷ as') seen =
      if truthy (some a) && (if mem String-discrete a seen then false else true)
      then cons (new_node fl a depth) (fresh_children depth as' (a ∷ seen))
      else fresh_children depth as' seen

  -- The children are executed and evaluated in their order, up to the first that has an episode if
  -- the search ends there. A fresh child has no children of its own.
  unfoldable pub observe_all : Trajectory → Nodes R E → W → Nodes R E × List R × W
  unfolding observe
  observe_all above nil w = (nil, [], w)
  observe_all above (cons (node i cs) ds) w =
      let (i', w') = observe above i w in
      let (ds', rs, w'') = observe_all above ds w' in
      if cfg.exit_on_complete && is_some i'.episode
      then (cons (node i' cs) ds, i'.reward ∷ [], w')
      else (cons (node i' cs) ds', i'.reward ∷ rs, w'')

  -- The position of the child with the highest score, the first of equals.
  unfoldable pub best_from : Info R E → ℕ → R → ℕ → Nodes R E → ℕ
  unfolding ucb
  best_from parent best score i nil = best
  best_from parent best score i (cons c cs) =
      let s = ucb fl cfg.c_explore parent (info c) in
      best_from parent (if fl.lt score s then i else best) (if fl.lt score s then s else score)
        (suc i) cs

  unfoldable pub best_child : Info R E → Nodes R E → ℕ
  unfolding best_from
  best_child parent nil = 0
  best_child parent (cons c cs) = best_from parent 0 (ucb fl cfg.c_explore parent (info c)) 1 cs

  -- A node after a rollout below it, the rewards that go on to its parent, and the world.
  abbrev pub Rolled : Type 0
  Rolled = Node R E × List R × W

  -- The children of an expansion are observed; with none, the node has failed.
  unfoldable pub grow_into : Trajectory → Info R E → Nodes R E → W → Rolled
  unfolding observe_all backprop_all extend
  grow_into above i nil w = (node (record i { status = failed }) nil, [], w)
  grow_into above i (cons c cs) w =
      let (cs', rs, w') = observe_all (extend above i) (cons c cs) w in
      (node (backprop_all fl rs i) cs', rs, w')

  -- The expansion of a node with no children.
  unfoldable pub grow : Trajectory → Info R E → W → Rolled
  unfolding fresh_children grow_into extend trajectory_text
  grow above i w =
      let (actions, w1) =
        st.expand cfg.objective (trajectory_text (extend above i)) cfg.n_branches w in
      grow_into above i (fresh_children (suc i.depth) (actions_or_none actions) []) w1

  -- The rewards of the rollout below a node pass the node.
  unfoldable pub descend : Info R E → Nodes R E × List R × W → Rolled
  unfolding backprop_all
  descend i (cs, rs, w) = (node (backprop_all fl rs i) cs, rs, w)

  unfoldable mutual
    unfolding grow best_child descend extend

    -- `_rollout`
    pub rollout : Trajectory → Node R E → W → Rolled
    rollout above (node i nil) w =
        if is_failed i.status || ltb cfg.max_depth i.depth
        then (node (record i { status = failed }) nil, [], w)
        else grow above i w
    rollout above (node i (cons c cs)) w =
        if is_failed i.status || ltb cfg.max_depth i.depth
        then (node (record i { status = failed }) (cons c cs), [], w)
        else descend i (rollout_in (extend above i) (best_child i (cons c cs)) (cons c cs) w)

    -- The rollout of the child at a position.
    pub rollout_in : Trajectory → ℕ → Nodes R E → W → Nodes R E × List R × W
    rollout_in above n nil w = (nil, [], w)
    rollout_in above zero (cons c cs) w =
        let (c', rs, w') = rollout above c w in (cons c' cs, rs, w')
    rollout_in above (suc n) (cons c cs) w =
        let (cs', rs, w') = rollout_in above n cs w in (cons c cs', rs, w')
