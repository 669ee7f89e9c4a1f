-- ===== src/Triage/Search/Rollout/AllNodes.antt =====
-- A property of a node's fields that each step keeps holds of every node after a rollout
-- (triage/triage/search.py, `_rollout`).
use g_pcap.Prelude.{
  ℕ, zero, suc, ◌≤◌, String, Bool, true, false, ◌&&◌, ◌||◌, ltb, is_some, if◌then◌else◌, ◌≡◌, refl,
  some, List, [], ◌∷◌, arith, Bool-cases, inl, inr,
}
use g_pcap.Prelude.Sets.{mem}
use g_pcap.Prelude.Text.{String-discrete, truthy}
use g_pcap.Triage.Search.Node.{
  Floats, failed, Info, Node, node, Nodes, nil, cons, info, Trajectory, trajectory_text, extend,
  new_node, backprop, backprop_all, is_failed,
}
use g_pcap.Triage.Search.Rollout.{
  Steps, Settings, actions_or_none, observe, fresh_children, observe_all, best_child, Rolled,
  grow_into, grow, descend, rollout, rollout_in,
}

module _ {R E : Type 0} (P : Info R E → Type 0) where
  unfoldable mutual
    pub Holds : Node R E → Type 0
    Holds (node i cs) = P i × HoldsAll cs

    pub HoldsAll : Nodes R E → Type 0
    HoldsAll nil = Unit
    HoldsAll (cons c cs) = Holds c × HoldsAll cs

-- What the steps of a search keep.
pub record IsKept {R E W : Type 0} (fl : Floats R) (st : Steps R E W) (cfg : Settings R)
    (P : Info R E → Type 0) : Type 0 where
  pub when_failed : (i : Info R E) → P i → P (record i { status = failed })
  pub when_passed : (i : Info R E) (r : R) → P i → P (backprop fl r i)
  pub when_new :
      (a : String) (depth : ℕ) → depth ≤ suc cfg.max_depth → P (info (new_node fl a depth))
  pub when_observed :
      (above : Trajectory) (i : Info R E) (w : W) → P i → P (observe fl st cfg above i w).0

module _ {R E W : Type 0} (fl : Floats R) (st : Steps R E W) (cfg : Settings R)
    (P : Info R E → Type 0) (k : IsKept fl st cfg P) where
  backprop_all-kept : (rs : List R) (i : Info R E) → P i → P (backprop_all fl rs i)
  unfolding backprop_all
  backprop_all-kept [] i h = h
  backprop_all-kept (r ∷ rs) i h = backprop_all-kept rs (backprop fl r i) (k.when_passed i r h)

  fresh_children-HoldsAll :
      (depth : ℕ) (xs seen : List String)
      → depth ≤ suc cfg.max_depth
      → HoldsAll P (fresh_children fl st cfg depth xs seen)
  unfolding fresh_children Holds
  fresh_children-HoldsAll depth [] seen le = tt
  fresh_children-HoldsAll depth (a ∷ xs) seen le =
      elim (Bool-cases (truthy (some a) && (if mem String-discrete a seen then false else true))) [
        | inl e ↦ rw e (
          (unfold new_node in k.when_new a depth le, tt),
          fresh_children-HoldsAll depth xs (a ∷ seen) le,
        )
        | inr e ↦ rw e (fresh_children-HoldsAll depth xs seen le)
      ]

  observe_all-HoldsAll :
      (above : Trajectory) (cs : Nodes R E) (w : W)
      → HoldsAll P cs
      → HoldsAll P (observe_all fl st cfg above cs w).0
  unfolding observe_all Holds
  observe_all-HoldsAll above nil w h = tt
  observe_all-HoldsAll above (cons (node i ds) cs) w h =
      let r = observe fl st cfg above i w in
      let now = k.when_observed above i w h.0.0 in
      let later = observe_all-HoldsAll above cs r.1 h.1 in
      elim (Bool-cases (cfg.exit_on_complete && is_some r.0.episode)) [
        | inl e ↦ rw e ((now, h.0.1), h.1)
        | inr e ↦ rw e ((now, h.0.1), later)
      ]

  grow_into-Holds :
      (above : Trajectory) (i : Info R E) (cs : Nodes R E) (w : W)
      → P i
      → HoldsAll P cs
      → Holds P (grow_into fl st cfg above i cs w).0
  unfolding grow_into Holds
  grow_into-Holds above i nil w p h = (k.when_failed i p, tt)
  grow_into-Holds above i (cons c cs) w p h =
      let r = observe_all fl st cfg (extend above i) (cons c cs) w in
      (backprop_all-kept r.1 i p, observe_all-HoldsAll (extend above i) (cons c cs) w h)

  grow-Holds :
      (above : Trajectory) (i : Info R E) (w : W)
      → i.depth ≤ cfg.max_depth
      → P i
      → Holds P (grow fl st cfg above i w).0
  unfolding grow
  grow-Holds above i w le p =
      let (actions, w1) =
        st.expand cfg.objective (trajectory_text (extend above i)) cfg.n_branches w in
      grow_into-Holds above i _ w1 p
        (fresh_children-HoldsAll (suc i.depth) (actions_or_none actions) [] (omega arith))

  descend-Holds :
      (i : Info R E) (r : Nodes R E × List R × W)
      → P i
      → HoldsAll P r.0
      → Holds P (descend fl st cfg i r).0
  unfolding descend Holds
  descend-Holds i (cs, rs, w) p h = (backprop_all-kept rs i p, h)

  choose :
      (b : Bool) (r s : Rolled fl st cfg)
      → Holds P r.0
      → (b ≡ false → Holds P s.0)
      → Holds P (if b then r else s).0
  choose true r s h g = h
  choose false r s h g = g refl

  failed-Holds :
      (i : Info R E) (cs : Nodes R E) (w : W)
      → Holds P (node i cs)
      → Holds P (node (record i { status = failed }) cs)
  unfolding Holds
  failed-Holds i cs w h = (k.when_failed i h.0, h.1)

  in_bounds :
      (i : Info R E)
      → (is_failed i.status || ltb cfg.max_depth i.depth) ≡ false
      → i.depth ≤ cfg.max_depth
  in_bounds i e = ground arith

  mutual
    unfolding rollout Holds

    pub rollout-Holds :
        (above : Trajectory) (n : Node R E) (w : W)
        → Holds P n
        → Holds P (rollout fl st cfg above n w).0
    rollout-Holds above (node i nil) w h =
        choose (is_failed i.status || ltb cfg.max_depth i.depth)
          (node (record i { status = failed }) nil, [], w) (grow fl st cfg above i w)
          (failed-Holds i nil w h) (λ e. grow-Holds above i w (in_bounds i e) h.0)
    rollout-Holds above (node i (cons c cs)) w h =
        let r =
          rollout_in fl st cfg (extend above i) (best_child fl st cfg i (cons c cs)) (cons c cs)
            w in
        let below =
          rollout_in-HoldsAll (extend above i) (best_child fl st cfg i (cons c cs)) (cons c cs) w
            h.1 in
        choose (is_failed i.status || ltb cfg.max_depth i.depth)
          (node (record i { status = failed }) (cons c cs), [], w) (descend fl st cfg i r)
          (failed-Holds i (cons c cs) w h) (λ e. descend-Holds i r h.0 below)

    rollout_in-HoldsAll :
        (above : Trajectory) (n : ℕ) (cs : Nodes R E) (w : W)
        → HoldsAll P cs
        → HoldsAll P (rollout_in fl st cfg above n cs w).0
    rollout_in-HoldsAll above n nil w h = tt
    rollout_in-HoldsAll above zero (cons c cs) w h = (rollout-Holds above c w h.0, h.1)
    rollout_in-HoldsAll above (suc n) (cons c cs) w h = (h.0, rollout_in-HoldsAll above n cs w h.1)
