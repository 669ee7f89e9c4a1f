-- ===== src/Triage/Search/Run/Results.antt =====
-- What a search returns (triage/triage/search.py, `Tree.run`).
use g_pcap.Prelude.{
  ℕ, zero, suc, ◌≤◌, ◌<◌, ◌+◌, String, true, ◌&&◌, is_some, ◌≡◌, refl, ap, Option, none, some, List,
  [], ◌∷◌, arith, Bool-cases, inl, inr, All, All-imp,
}
use g_pcap.Prelude.Chars.{strip}
use g_pcap.Triage.Search.Node.{
  Floats, Info, Node, node, Nodes, nil, cons, info, children, Trajectory, extend, new_node,
  backprop, trajectory_text,
}
use g_pcap.Triage.Search.Rollout.{Steps, Settings, actions_or_none, observe, rollout}
use g_pcap.Triage.Search.Rollout.AllNodes.{Holds, HoldsAll, IsKept}
use g_pcap.Triage.Search.Run.{
  Place, SearchResult, completed, executed_all, max_reward, first_finalize, forced_text, result_of,
  has_any, finish, finish_at, force_finalize, is_done, rounds, done_or_forced, start, run,
}
use g_pcap.Triage.Search.Run.Kept.{OfSome, completed-All, max_reward-OfSome, rounds-Holds}
use Prim.Native.String.{◌++◌ as append}

module _ {R E W : Type 0} (fl : Floats R) (st : Steps R E W) (cfg : Settings R) where
  -- An execution of an action gave the episode.
  abbrev pub Came : String → E → Type 0
  Came a e = (w : W) × (o : String) × ((st.execute a w).0 ≡ (o, some e))

  abbrev pub HasCome : Info R E → Type 0
  HasCome i = (e : E) → i.episode ≡ some e → Came i.action e

  observe-HasCome :
      (above : Trajectory) (i : Info R E) (w : W) → HasCome (observe fl st cfg above i w).0
  unfolding observe backprop
  observe-HasCome above i w e q =
      (w, (st.execute i.action w).0.0, ap (λ x. ((st.execute i.action w).0.0, x)) q)

  new_node-HasCome : (a : String) (depth : ℕ) → HasCome (info (new_node fl a depth))
  unfolding new_node
  new_node-HasCome a depth e q = cc

  come-IsKept : IsKept fl st cfg HasCome
  unfolding backprop
  come-IsKept = record {
    when_failed = λ i h. h;
    when_passed = λ i r h. h;
    when_new = λ a depth h. new_node-HasCome a depth;
    when_observed = λ above i w h. observe-HasCome above i w;
  }

  finish-All :
      (root : Node R E) (p : Place R E) (a : Option String) (w : W)
      → All (λ q. HasCome q.0) (finish fl st cfg root p a w).0
  unfolding finish
  finish-All root (i, t) none w = tt
  finish-All root (i, t) (some a) w =
      let r = observe fl st cfg t (info (new_node fl (strip a) (suc i.depth))) w in
      elim (Bool-cases (is_some r.0.episode)) [
        | inl e ↦ rw e (observe-HasCome t (info (new_node fl (strip a) (suc i.depth))) w, tt)
        | inr e ↦ rw e tt
      ]

  finish_at-All :
      (root : Node R E) (o : Option (Place R E)) (w : W)
      → All (λ q. HasCome q.0) (finish_at fl st cfg root o w).0
  unfolding finish_at
  finish_at-All root none w = tt
  finish_at-All root (some (i, t)) w =
      let (actions, w') = st.expand cfg.objective (append (trajectory_text t) forced_text) 1 w in
      finish-All root (i, t) (first_finalize (actions_or_none actions)) w'

  done_or_forced-All :
      (ps : List (Place R E)) (root : Node R E) (w : W)
      → All (λ q. HasCome q.0) ps
      → All (λ q. HasCome q.0) (done_or_forced fl st cfg ps root w).0
  unfolding done_or_forced force_finalize
  done_or_forced-All [] root w h =
      finish_at-All root (max_reward fl (executed_all (extend [] (info root)) (children root))) w
  done_or_forced-All (p ∷ ps) root w h = h

  result-come :
      (n : ℕ) (o : Option (Place R E)) (e : E)
      → OfSome (λ q. HasCome q.0) o
      → (result_of fl n o).episode ≡ some e
      → (a : String) × Came a e
  result-come n none e h q = cc
  result-come n (some (i, t)) e h q = (i.action, h e q)

  -- The episode that a search returns is one that the execution of some action gave.
  pub run-Came :
      (k : ℕ) (w : W) (r : SearchResult R E) (e : E)
      → (run fl st cfg k w).0 ≡ some r
      → r.episode ≡ some e
      → (a : String) × Came a e
  unfolding run
  run-Came zero w r e h q = cc
  run-Came (suc k) w r e h q =
      let (root, n, w1) = rounds fl st cfg (suc k) 0 (start fl st cfg) w in
      let holds =
        rounds-Holds fl st cfg HasCome come-IsKept (suc k) w
          (unfold Holds new_node in (λ e' q'. cc, tt)) in
      let done = All-imp (completed [] root) (λ p x. x.0) (completed-All HasCome [] root holds) in
      let found = (done_or_forced fl st cfg (completed [] root) root w1).0 in
      let chosen =
        max_reward-OfSome fl (λ q'. HasCome q'.0) found
          (done_or_forced-All (completed [] root) root w1 done) in
      let same : result_of fl n (max_reward fl found) ≡ r = cc in
      result-come n (max_reward fl found) e chosen (rw same q)

  -- How the rollouts end: not later than they may, and before that only with a node done.
  abbrev Ended : ℕ → ℕ → Node R E × ℕ × W → Type 0
  Ended k n r =
      (r.1 ≤ n + k) × (r.1 < n + k → (cfg.exit_on_complete ≡ true) × (is_done fl st cfg r.0 ≡ true))

  rounds-Ended : (k n : ℕ) (root : Node R E) (w : W) → Ended k n (rounds fl st cfg k n root w)
  unfolding rounds
  rounds-Ended zero n root w = (omega arith, λ lt. absurd (omega arith))
  rounds-Ended (suc k) n root w =
      let r = rollout fl st cfg [] root w in
      let (le, early) = rounds-Ended k (suc n) r.0 r.2 in
      elim (Bool-cases (cfg.exit_on_complete && is_done fl st cfg r.0)) [
        | inl e ↦ rw e (omega arith, λ lt. ground arith)
        | inr e ↦ rw e (omega (arith, le), λ lt. early (omega arith))
      ]

  rounds-positive : (k n : ℕ) (root : Node R E) (w : W) → n < (rounds fl st cfg (suc k) n root w).1
  unfolding rounds
  rounds-positive zero n root w = ground arith
  rounds-positive (suc k) n root w =
      let r = rollout fl st cfg [] root w in
      let more = rounds-positive k (suc n) r.0 r.2 in
      elim (Bool-cases (cfg.exit_on_complete && is_done fl st cfg r.0)) [
        | inl e ↦ rw e (omega arith)
        | inr e ↦ rw e (omega (arith, more))
      ]

  mutual
    unfolding Holds

    all_unit : (n : Node R E) → Holds (λ i. Unit) n
    all_unit (node i cs) = (tt, all_units cs)

    all_units : (cs : Nodes R E) → HoldsAll (λ i. Unit) cs
    all_units nil = tt
    all_units (cons c cs) = (all_unit c, all_units cs)

  result-episode :
      (n : ℕ) (ps : List (Place R E)) (root : Node R E) (w : W)
      → All (λ q. is_some q.0.episode ≡ true) ps
      → has_any ps ≡ true
      → is_some (result_of fl n (max_reward fl (done_or_forced fl st cfg ps root w).0)).episode
        ≡ true
  unfolding done_or_forced max_reward
  result-episode n [] root w h any = cc
  result-episode n (p ∷ ps) root w h any =
      max_reward-OfSome fl (λ q. is_some q.0.episode ≡ true) (p ∷ ps) h

  result-rollouts : (n : ℕ) (o : Option (Place R E)) → (result_of fl n o).rollouts ≡ n
  result-rollouts n none = refl
  result-rollouts n (some (i, t)) = refl

  -- A search that may make at least one rollout returns a result, after at least one rollout and
  -- at most as many as it may make; with fewer, it ends on completion and has an episode.
  pub run-ends :
      (k : ℕ) (w : W)
      → (r : SearchResult R E) × ((run fl st cfg (suc k) w).0 ≡ some r)
        × (1 ≤ r.rollouts)
        × (r.rollouts ≤ suc k)
        × (r.rollouts < suc k → (cfg.exit_on_complete ≡ true) × (is_some r.episode ≡ true))
  unfolding run
  run-ends k w =
      let (root, n, w1) = rounds fl st cfg (suc k) 0 (start fl st cfg) w in
      let (le, early) = rounds-Ended (suc k) 0 (start fl st cfg) w in
      let more = rounds-positive k 0 (start fl st cfg) w in
      let o = max_reward fl (done_or_forced fl st cfg (completed [] root) root w1).0 in
      let each =
        All-imp (completed [] root) (λ p x. x.1)
          (completed-All (λ i. Unit) [] root (all_unit root)) in
      (
        result_of fl n o,
        refl,
        (rw (result-rollouts n o) more),
        (rw (result-rollouts n o) (omega (arith, le))),
        λ lt.
            let (exits, done) = early (omega (arith, lt, result-rollouts n o)) in
            (exits, result-episode n (completed [] root) root w1 each done),
      )
