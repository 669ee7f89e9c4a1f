-- ===== src/Triage/Search/Rollout/Counts.antt =====
-- The visit counts of the search tree (triage/triage/search.py, `_rollout` and `backprop`).
use g_pcap.Prelude.{
  ℕ, zero, suc, ◌+◌, String, Bool, true, false, ◌&&◌, ◌||◌, ltb, is_some, if◌then◌else◌, ◌≡◌, refl,
  none, some, List, [], ◌∷◌, arith, length, Bool-cases, inl, inr,
}
use g_pcap.Prelude.Sets.{mem}
use g_pcap.Prelude.Text.{String-discrete, truthy}
use g_pcap.Triage.Search.Node.{
  Floats, failed, Info, Node, node, Nodes, nil, cons, info, Trajectory, trajectory_text, extend,
  new_node, backprop, backprop_all, is_failed,
}
use g_pcap.Triage.Search.Rollout.{
  Steps, Settings, actions_or_none, observe, fresh_children, observe_all, best_child, Rolled,
  grow_into, grow, descend, rollout, rollout_in,
}

-- A node that has been executed counts for one.
abbrev pub own : {R E : Type 0} → Info R E → ℕ
own i = if is_some i.observation then 1 else 0

abbrev pub total : {R E : Type 0} → Nodes R E → ℕ
total nil = 0
total (cons c cs) = (info c).visits + total cs

unfoldable mutual
  -- A node was visited once for itself, if it was executed, and once for each visit of a child.
  pub IsCounted : {R E : Type 0} → Node R E → Type 0
  IsCounted (node i cs) = (i.visits ≡ own i + total cs) × AllCounted cs

  pub AllCounted : {R E : Type 0} → Nodes R E → Type 0
  AllCounted nil = Unit
  AllCounted (cons c cs) = IsCounted c × AllCounted cs

abbrev IsNew : {R E : Type 0} → Node R E → Type 0
IsNew (node i cs) = (i.visits ≡ 0) × (i.observation ≡ none) × (cs ≡ nil)

abbrev AllNew : {R E : Type 0} → Nodes R E → Type 0
AllNew nil = Unit
AllNew (cons c cs) = IsNew c × AllNew cs

module _ {R E W : Type 0} (fl : Floats R) (st : Steps R E W) (cfg : Settings R) where
  backprop_all-visits :
      (rs : List R) (i : Info R E)
      → ((backprop_all fl rs i).visits ≡ i.visits + length rs)
        × ((backprop_all fl rs i).observation ≡ i.observation)
  unfolding backprop_all backprop
  backprop_all-visits [] i = (omega arith, refl)
  backprop_all-visits (r ∷ rs) i =
      let (v, o) = backprop_all-visits rs (backprop fl r i) in (omega (arith, v), o)

  observe-visits :
      (above : Trajectory) (i : Info R E) (w : W)
      → ((observe fl st cfg above i w).0.visits ≡ suc i.visits)
        × (own (observe fl st cfg above i w).0 ≡ 1)
  unfolding observe backprop
  observe-visits above i w = (refl, refl)

  fresh_children-AllNew :
      (depth : ℕ) (xs seen : List String) → AllNew (fresh_children fl st cfg depth xs seen)
  unfolding fresh_children new_node
  fresh_children-AllNew depth [] seen = tt
  fresh_children-AllNew depth (a ∷ xs) seen =
      elim (Bool-cases (truthy (some a) && (if mem String-discrete a seen then false else true))) [
        | inl e ↦ rw e ((refl, refl, refl), fresh_children-AllNew depth xs (a ∷ seen))
        | inr e ↦ rw e (fresh_children-AllNew depth xs seen)
      ]

  AllNew-total : (cs : Nodes R E) → AllNew cs → (total cs ≡ 0) × AllCounted cs
  unfolding IsCounted
  AllNew-total nil h = (refl, tt)
  AllNew-total (cons (node i ds) cs) h =
      let (t, c) = AllNew-total cs h.1 in
      let (v, o, d) = h.0 in (omega (arith, t, v), ((rw (d, o) (omega (arith, v)), rw d tt), c))

  -- What a step of the children leaves: they are counted, and each reward is one visit.
  abbrev IsStepped : Nodes R E → Nodes R E × List R × W → Type 0
  IsStepped cs r = AllCounted r.0 × (total r.0 ≡ total cs + length r.1)

  observe_all-IsStepped :
      (above : Trajectory) (cs : Nodes R E) (w : W)
      → AllNew cs
      → IsStepped cs (observe_all fl st cfg above cs w)
  unfolding observe_all IsCounted
  observe_all-IsStepped above nil w h = (tt, omega arith)
  observe_all-IsStepped above (cons (node i ds) cs) w h =
      let (v, o) = observe-visits above i w in
      let (z, n, d) = h.0 in
      let i' = (observe fl st cfg above i w).0 in
      let (t, c) = AllNew-total cs h.1 in
      let (c', t') = observe_all-IsStepped above cs (observe fl st cfg above i w).1 h.1 in
      elim (Bool-cases (cfg.exit_on_complete && is_some i'.episode)) [
        | inl e ↦ rw (e, d) (((omega (arith, v, o, z), tt), c), omega (arith, v, z, t))
        | inr e ↦ rw (e, d) (((omega (arith, v, o, z), tt), c'), omega (arith, v, z, t'))
      ]

  -- What a rollout leaves of a node: counted, executed or not as before, a visit for each reward.
  abbrev IsRolled : Node R E → Node R E × List R × W → Type 0
  IsRolled n r =
      IsCounted r.0
      × ((info r.0).visits ≡ (info n).visits + length r.1)
      × ((info r.0).observation ≡ (info n).observation)

  grow_into-IsRolled :
      (above : Trajectory) (i : Info R E) (cs : Nodes R E) (w : W)
      → AllNew cs
      → IsCounted (node i nil)
      → IsRolled (node i nil) (grow_into fl st cfg above i cs w)
  unfolding grow_into IsCounted
  grow_into-IsRolled above i nil w new h = (h, omega arith, refl)
  grow_into-IsRolled above i (cons c cs) w new h =
      let r = observe_all fl st cfg (extend above i) (cons c cs) w in
      let (v, o) = backprop_all-visits r.1 i in
      let (counted, t) = observe_all-IsStepped (extend above i) (cons c cs) w new in
      let z = (AllNew-total (cons c cs) new).0 in
      ((rw o (omega (arith, v, t, z, h.0)), counted), v, o)

  grow-IsRolled :
      (above : Trajectory) (i : Info R E) (w : W)
      → IsCounted (node i nil)
      → IsRolled (node i nil) (grow fl st cfg above i w)
  unfolding grow
  grow-IsRolled above i w h =
      let (actions, w1) =
        st.expand cfg.objective (trajectory_text (extend above i)) cfg.n_branches w in
      grow_into-IsRolled above i _ w1
        (fresh_children-AllNew (suc i.depth) (actions_or_none actions) []) h

  descend-IsRolled :
      (i : Info R E) (cs : Nodes R E) (r : Nodes R E × List R × W)
      → IsCounted (node i cs)
      → IsStepped cs r
      → IsRolled (node i cs) (descend fl st cfg i r)
  unfolding descend IsCounted
  descend-IsRolled i cs (cs', rs, w) h (counted, t) =
      let (v, o) = backprop_all-visits rs i in ((rw o (omega (arith, v, t, h.0)), counted), v, o)

  failed-IsRolled :
      (i : Info R E) (cs : Nodes R E) (w : W)
      → IsCounted (node i cs)
      → IsRolled (node i cs) (node (record i { status = failed }) cs, [], w)
  unfolding IsCounted
  failed-IsRolled i cs w h = (h, omega arith, refl)

  choose :
      (b : Bool) (n : Node R E) (r s : Rolled fl st cfg)
      → IsRolled n r
      → IsRolled n s
      → IsRolled n (if b then r else s)
  choose true n r s h g = h
  choose false n r s h g = g

  mutual
    unfolding rollout IsCounted

    -- After a rollout, every node of the tree was visited once for itself, if it was executed, and
    -- once for each visit of a child, and the node gained a visit for each reward that it passed on.
    pub rollout-IsRolled :
        (above : Trajectory) (n : Node R E) (w : W)
        → IsCounted n
        → IsRolled n (rollout fl st cfg above n w)
    rollout-IsRolled above (node i nil) w h =
        choose (is_failed i.status || ltb cfg.max_depth i.depth) (node i nil) _ _
          (failed-IsRolled i nil w h) (grow-IsRolled above i w h)
    rollout-IsRolled above (node i (cons c cs)) w h =
        choose (is_failed i.status || ltb cfg.max_depth i.depth) (node i (cons c cs)) _ _
          (failed-IsRolled i (cons c cs) w h)
          (descend-IsRolled i (cons c cs)
            (rollout_in fl st cfg (extend above i) (best_child fl st cfg i (cons c cs)) (cons c cs)
              w)
            h
            (rollout_in-IsStepped (extend above i) (best_child fl st cfg i (cons c cs)) (cons c cs)
              w h.1))

    rollout_in-IsStepped :
        (above : Trajectory) (n : ℕ) (cs : Nodes R E) (w : W)
        → AllCounted cs
        → IsStepped cs (rollout_in fl st cfg above n cs w)
    rollout_in-IsStepped above n nil w h = (tt, omega arith)
    rollout_in-IsStepped above zero (cons c cs) w h =
        let (d, ds) = h in let (k, v, o) = rollout-IsRolled above c w d in ((k, ds), omega arith)
    rollout_in-IsStepped above (suc n) (cons c cs) w h =
        let (d, ds) = h in
        let (k, t) = rollout_in-IsStepped above n cs w ds in ((d, k), omega arith)
