-- ===== src/Triage/Search/Run.antt =====
-- triage/triage/search.py: `Tree._completed`, `_best_partial`, `_force_finalize` and `run`, with
-- `Tree.__init__`'s fields in the settings. A node comes with its trajectory, which stands for
-- the object where the source keeps a reference to it: siblings have different actions.
pub mod Kept
pub mod Results
pub mod Best
pub mod Depth
use Prim.Native.String.{◌++◌ as append}
use package.text.Mathlib.Text.{◌==◌ as str_eq}
use g_pcap.Prelude.{
  ℕ, zero, suc, String, Bool, true, false, ◌&&◌, is_some, if◌then◌else◌, Option, none, some, List,
  [], ◌∷◌, ◌++◌,
}
use g_pcap.Prelude.Text.{truthy}
use g_pcap.Prelude.Chars.{strip, starts_with}
use g_pcap.Triage.Search.Node.{
  Floats, Info, Node, node, Nodes, nil, cons, info, children, Trajectory, extend, trajectory_text,
  new_node, append_nodes, backprop_all,
}
use g_pcap.Triage.Search.Rollout.{Steps, Settings, actions_or_none, observe, rollout}

-- A node and its trajectory, its own step included.
abbrev pub Place : Type 0 → Type 0 → Type 0
Place R E = Info R E × Trajectory

-- `SearchResult`
pub record SearchResult (R E : Type 0) : Type 0 where
  pub episode : Option E
  pub reward : R
  pub trajectory : Trajectory
  pub rollouts : ℕ

unfoldable mutual
  unfolding extend

  -- `_completed`: the nodes that have an episode, a node before its children.
  pub completed : {R E : Type 0} → Trajectory → Node R E → List (Place R E)
  completed above (node i cs) =
      if is_some i.episode
      then (i, extend above i) ∷ completed_all (extend above i) cs
      else completed_all (extend above i) cs

  pub completed_all : {R E : Type 0} → Trajectory → Nodes R E → List (Place R E)
  completed_all above nil = []
  completed_all above (cons c cs) = completed above c ++ completed_all above cs

-- The nodes that `_best_partial` takes from its stack, in its order: the last child first, and the
-- nodes below it before the child that precedes it. Those that were executed are kept.
unfoldable mutual
  unfolding extend

  pub executed : {R E : Type 0} → Trajectory → Node R E → List (Place R E)
  executed above (node i cs) =
      if is_some i.observation
      then (i, extend above i) ∷ executed_all (extend above i) cs
      else executed_all (extend above i) cs

  pub executed_all : {R E : Type 0} → Trajectory → Nodes R E → List (Place R E)
  executed_all above nil = []
  executed_all above (cons c cs) = executed_all above cs ++ executed above c

-- `max(…, key=lambda n: n.reward)`: the first of those with the highest reward.
unfoldable pub max_from : {R E : Type 0} → Floats R → Place R E → List (Place R E) → Place R E
max_from fl best [] = best
max_from fl best (p ∷ ps) = max_from fl (if fl.lt best.0.reward p.0.reward then p else best) ps

unfoldable pub max_reward : {R E : Type 0} → Floats R → List (Place R E) → Option (Place R E)
unfolding max_from
max_reward fl [] = none
max_reward fl (p ∷ ps) = some (max_from fl p ps)

abbrev pub has_any : {A : Type 0} → List A → Bool
has_any [] = false
has_any (x ∷ xs) = true

-- The first proposal that is a finalize action.
unfoldable pub first_finalize : List String → Option String
unfolding strip starts_with
first_finalize [] = none
first_finalize (a ∷ as') =
    if truthy (some a) && starts_with "finalize" (strip a) then some a else first_finalize as'

abbrev pub forced_text : String
forced_text =
    "\nPropose exactly one finalize action from this trajectory: it must end the search now."

abbrev pub result_of : {R E : Type 0} → Floats R → ℕ → Option (Place R E) → SearchResult R E
result_of fl n none = record { episode = none; reward = fl.zero_r; trajectory = []; rollouts = n }
result_of fl n (some (i, t)) = record {
  episode = i.episode;
  reward = i.reward;
  trajectory = t;
  rollouts = n;
}

abbrev pub same_trajectory : Trajectory → Trajectory → Bool
same_trajectory [] [] = true
same_trajectory [] (y ∷ ys) = false
same_trajectory (x ∷ xs) [] = false
same_trajectory ((a, o) ∷ xs) ((b, p) ∷ ys) =
    let rest = same_trajectory xs ys in str_eq a b && str_eq o p && rest

module _ {R E W : Type 0} (fl : Floats R) (st : Steps R E W) (cfg : Settings R) where
  unfoldable mutual
    unfolding extend backprop_all

    -- A new last child of the executed node that has the trajectory `t`, with the reward that the
    -- child hands to that node and to those above it.
    pub hang : Trajectory → Info R E → Trajectory → Node R E → Node R E × List R
    hang t child above (node i cs) =
        let (cs', rs) = hang_all t child (extend above i) cs in
        if is_some i.observation && same_trajectory (extend above i) t
        then (
          node (backprop_all fl (child.reward ∷ []) i)
              (append_nodes cs (cons (node child nil) nil)),
          child.reward ∷ [],
        )
        else (node (backprop_all fl rs i) cs', rs)

    pub hang_all : Trajectory → Info R E → Trajectory → Nodes R E → Nodes R E × List R
    hang_all t child above nil = (nil, [])
    hang_all t child above (cons c cs) =
        let (c', rs) = hang t child above c in
        let (cs', rs') = hang_all t child above cs in (cons c' cs', rs ++ rs')

  -- The child of a forced finalize hangs below the best node, is evaluated, and counts if it has an
  -- episode.
  unfoldable pub finish : Node R E → Place R E → Option String → W → List (Place R E) × Node R E × W
  unfolding strip new_node observe extend hang
  finish root (i, t) none w = ([], root, w)
  finish root (i, t) (some a) w =
      let (i', w') = observe fl st cfg t (info (new_node fl (strip a) (suc i.depth))) w in
      (if is_some i'.episode then (i', extend t i') ∷ [] else [], (hang t i' [] root).0, w')

  unfoldable pub finish_at : Node R E → Option (Place R E) → W → List (Place R E) × Node R E × W
  unfolding finish first_finalize trajectory_text
  finish_at root none w = ([], root, w)
  finish_at root (some (i, t)) w =
      let (actions, w') = st.expand cfg.objective (append (trajectory_text t) forced_text) 1 w in
      finish root (i, t) (first_finalize (actions_or_none actions)) w'

  -- `_force_finalize`: what it found, the tree, and the world.
  unfoldable pub force_finalize : Node R E → W → List (Place R E) × Node R E × W
  unfolding finish_at max_reward executed extend
  force_finalize root w =
      finish_at root (max_reward fl (executed_all (extend [] (info root)) (children root))) w

  abbrev pub is_done : Node R E → Bool
  is_done root = has_any (completed [] root)

  -- The rollouts from the root: the tree, their number, and the world.
  unfoldable pub rounds : ℕ → ℕ → Node R E → W → Node R E × ℕ × W
  unfolding rollout
  rounds zero n root w = (root, n, w)
  rounds (suc k) n root w =
      let (root', rs, w') = rollout fl st cfg [] root w in
      let rest = rounds k (suc n) root' w' in
      if cfg.exit_on_complete && is_done root' then (root', suc n, w') else rest

  -- What is done, or the one forced finalize.
  unfoldable pub done_or_forced : List (Place R E) → Node R E → W → List (Place R E) × Node R E × W
  unfolding force_finalize
  done_or_forced [] root w = force_finalize root w
  done_or_forced (p ∷ ps) root w = (p ∷ ps, root, w)

  abbrev pub start : Node R E
  start = new_node fl "" 1

  -- `run`. With no rollout allowed the loop's variable is unbound at the end, and this raises.
  unfoldable pub run : ℕ → W → Option (SearchResult R E) × W
  unfolding rounds done_or_forced completed max_reward
  run zero w = (none, w)
  run (suc k) w =
      let (root, n, w1) = rounds (suc k) 0 start w in
      let (found, root', w2) = done_or_forced (completed [] root) root w1 in
      (some (result_of fl n (max_reward fl found)), w2)
