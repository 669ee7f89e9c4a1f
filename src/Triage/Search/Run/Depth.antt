-- ===== src/Triage/Search/Run/Depth.antt =====
-- How deep a search goes (triage/triage/search.py, `Tree.run` and its forced finalize).
use g_pcap.Prelude.{
  List, ◌∷◌, ◌≡◌, refl, ℕ, suc, ◌≤◌, String, is_some, Option, none, some, [], arith, Bool-cases,
  if_cases, ◌&&◌, inl, inr, All, All-append,
}
use Prim.Native.String.{◌++◌ as append}
use g_pcap.Prelude.Chars.{strip}
use g_pcap.Triage.Search.Node.{
  append_nodes, backprop_all, Floats, Info, Node, node, Nodes, nil, cons, info, children,
  Trajectory, extend, new_node, backprop, trajectory_text,
}
use g_pcap.Triage.Search.Rollout.{Steps, Settings, actions_or_none, observe}
use g_pcap.Triage.Search.Rollout.AllNodes.{Holds, HoldsAll, IsKept}
use g_pcap.Triage.Search.Run.{
  Place, executed, executed_all, max_reward, first_finalize, forced_text, same_trajectory, hang,
  hang_all, finish, finish_at, force_finalize, rounds, start,
}
use g_pcap.Triage.Search.Run.Kept.{OfSome, max_reward-OfSome, rounds-Holds}

module _ {R E : Type 0} (P : Info R E → Type 0) where
  mutual
    unfolding executed Holds

    executed-All :
        (above : Trajectory) (n : Node R E) → Holds P n → All (λ p. P p.0) (executed above n)
    executed-All above (node i cs) h =
        let below = executed_all-All (extend above i) cs h.1 in
        elim (Bool-cases (is_some i.observation)) [ inl e ↦ rw e (h.0, below) | inr e ↦ rw e below ]

    executed_all-All :
        (above : Trajectory) (cs : Nodes R E)
        → HoldsAll P cs
        → All (λ p. P p.0) (executed_all above cs)
    executed_all-All above nil h = tt
    executed_all-All above (cons c cs) h =
        All-append (λ p. P p.0) (executed_all above cs) (executed above c)
          (executed_all-All above cs h.1) (executed-All above c h.0)

  children-Holds : (n : Node R E) → Holds P n → HoldsAll P (children n)
  unfolding Holds
  children-Holds (node i cs) h = h.1

module _ {R E W : Type 0} (fl : Floats R) (st : Steps R E W) (cfg : Settings R) where
  -- Not deeper than one below the greatest depth.
  abbrev pub IsShallow : Info R E → Type 0
  IsShallow i = i.depth ≤ suc cfg.max_depth

  IsShallow-IsKept : IsKept fl st cfg IsShallow
  unfolding backprop observe new_node
  IsShallow-IsKept = record {
    when_failed = λ i h. h;
    when_passed = λ i r h. h;
    when_new = λ a depth h. h;
    when_observed = λ above i w h. h;
  }

  -- Not deeper than two below it.
  abbrev pub IsForcedShallow : Info R E → Type 0
  IsForcedShallow i = i.depth ≤ suc (suc cfg.max_depth)

  backprop_all-depth : (rs : List R) (i : Info R E) → (backprop_all fl rs i).depth ≡ i.depth
  unfolding backprop_all backprop
  backprop_all-depth [] i = refl
  backprop_all-depth (r ∷ rs) i = backprop_all-depth rs (backprop fl r i)

  mutual
    unfolding Holds

    all_forced : (n : Node R E) → Holds IsShallow n → Holds IsForcedShallow n
    all_forced (node i cs) h = (omega (arith, h.0), alls_forced cs h.1)

    alls_forced : (cs : Nodes R E) → HoldsAll IsShallow cs → HoldsAll IsForcedShallow cs
    alls_forced nil h = tt
    alls_forced (cons c cs) h = (all_forced c h.0, alls_forced cs h.1)

  append_nodes-HoldsAll :
      (cs : Nodes R E) (child : Info R E)
      → HoldsAll IsForcedShallow cs
      → IsForcedShallow child
      → HoldsAll IsForcedShallow (append_nodes cs (cons (node child nil) nil))
  unfolding Holds
  append_nodes-HoldsAll nil child h c = ((c, tt), tt)
  append_nodes-HoldsAll (cons d ds) child h c = (h.0, append_nodes-HoldsAll ds child h.1 c)

  mutual
    unfolding hang Holds

    hang-Holds :
        (t : Trajectory) (child : Info R E) (above : Trajectory) (n : Node R E)
        → IsForcedShallow child
        → Holds IsForcedShallow n
        → Holds IsForcedShallow (hang fl st cfg t child above n).0
    hang-Holds t child above (node i cs) c h =
        let below = hang_all fl st cfg t child (extend above i) cs in
        if_cases (λ (r : Node R E × List R). Holds IsForcedShallow r.0)
          (is_some i.observation && same_trajectory (extend above i) t)
          (
            node (backprop_all fl (child.reward ∷ []) i)
                (append_nodes cs (cons (node child nil) nil)),
            child.reward ∷ [],
          )
          (node (backprop_all fl below.1 i) below.0, below.1)
          (λ e. (
            rw (backprop_all-depth (child.reward ∷ []) i) h.0,
            append_nodes-HoldsAll cs child h.1 c,
          ))
          (λ e. (
            rw (backprop_all-depth below.1 i) h.0,
            hang_all-Holds t child (extend above i) cs c h.1,
          ))

    hang_all-Holds :
        (t : Trajectory) (child : Info R E) (above : Trajectory) (cs : Nodes R E)
        → IsForcedShallow child
        → HoldsAll IsForcedShallow cs
        → HoldsAll IsForcedShallow (hang_all fl st cfg t child above cs).0
    hang_all-Holds t child above nil c h = tt
    hang_all-Holds t child above (cons d ds) c h =
        (hang-Holds t child above d c h.0, hang_all-Holds t child above ds c h.1)

  finish-Holds :
      (root : Node R E) (p : Place R E) (a : Option String) (w : W)
      → Holds IsForcedShallow root
      → IsShallow p.0
      → Holds IsForcedShallow (finish fl st cfg root p a w).1
  unfolding finish observe backprop new_node
  finish-Holds root (i, t) none w h s = h
  finish-Holds root (i, t) (some a) w h s =
      hang-Holds t (observe fl st cfg t (info (new_node fl (strip a) (suc i.depth))) w).0 [] root
        (omega (arith, s)) h

  finish_at-Holds :
      (root : Node R E) (o : Option (Place R E)) (w : W)
      → Holds IsForcedShallow root
      → OfSome (λ p. IsShallow p.0) o
      → Holds IsForcedShallow (finish_at fl st cfg root o w).1
  unfolding finish_at
  finish_at-Holds root none w h s = h
  finish_at-Holds root (some (i, t)) w h s =
      let (actions, w') = st.expand cfg.objective (append (trajectory_text t) forced_text) 1 w in
      finish-Holds root (i, t) (first_finalize (actions_or_none actions)) w' h s

  force_finalize-Holds :
      (root : Node R E) (w : W)
      → Holds IsShallow root
      → Holds IsForcedShallow (force_finalize fl st cfg root w).1
  unfolding force_finalize
  force_finalize-Holds root w h =
      let ps = executed_all (extend [] (info root)) (children root) in
      finish_at-Holds root (max_reward fl ps) w (all_forced root h) (
        max_reward-OfSome fl (λ p. IsShallow p.0) ps
          (executed_all-All IsShallow (extend [] (info root)) (children root)
            (children-Holds IsShallow root h)))

  -- Whatever the number of rollouts, at their end no node of the tree lies deeper than one below
  -- `max_depth`, and after a forced finalize of that tree none deeper than two below it.
  pub rounds-IsShallow :
      (k : ℕ) (w w' : W)
      → Holds IsShallow (rounds fl st cfg k 0 (start fl st cfg) w).0
        × Holds IsForcedShallow
            (force_finalize fl st cfg (rounds fl st cfg k 0 (start fl st cfg) w).0 w').1
  rounds-IsShallow k w w' =
      let h =
        rounds-Holds fl st cfg IsShallow IsShallow-IsKept k w
          (unfold Holds new_node in (omega arith, tt)) in
      (h, force_finalize-Holds (rounds fl st cfg k 0 (start fl st cfg) w).0 w' h)
