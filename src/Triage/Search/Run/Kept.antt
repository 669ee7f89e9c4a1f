-- ===== src/Triage/Search/Run/Kept.antt =====
-- What the rollouts keep holds of the whole tree and of the nodes that a search chooses from
-- (triage/triage/search.py, `Tree.run`).
use g_pcap.Prelude.{
  ℕ, zero, suc, true, ◌&&◌, is_some, ◌≡◌, refl, Option, none, some, List, [], ◌∷◌, Bool-cases, inl,
  inr, All, All-append,
}
use g_pcap.Triage.Search.Node.{
  Floats, Info, Node, node, Nodes, nil, cons, Trajectory, extend, new_node,
}
use g_pcap.Triage.Search.Rollout.{Steps, Settings, rollout}
use g_pcap.Triage.Search.Rollout.Counts.{IsCounted, rollout-IsRolled}
use g_pcap.Triage.Search.Rollout.AllNodes.{Holds, HoldsAll, IsKept, rollout-Holds}
use g_pcap.Triage.Search.Run.{
  Place, completed, completed_all, max_from, max_reward, is_done, rounds, start,
}

abbrev pub OfSome : {A : Type 0} → (A → Type 0) → Option A → Type 0
OfSome Q none = Unit
OfSome Q (some a) = Q a

module _ {R E : Type 0} (P : Info R E → Type 0) where
  mutual
    unfolding completed Holds

    pub completed-All :
        (above : Trajectory) (n : Node R E)
        → Holds P n
        → All (λ p. P p.0 × (is_some p.0.episode ≡ true)) (completed above n)
    completed-All above (node i cs) h =
        let below = completed_all-All (extend above i) cs h.1 in
        elim (Bool-cases (is_some i.episode)) [
          | inl e ↦ rw e ((h.0, e), below)
          | inr e ↦ rw e below
        ]

    pub completed_all-All :
        (above : Trajectory) (cs : Nodes R E)
        → HoldsAll P cs
        → All (λ p. P p.0 × (is_some p.0.episode ≡ true)) (completed_all above cs)
    completed_all-All above nil h = tt
    completed_all-All above (cons c cs) h =
        All-append (λ p. P p.0 × (is_some p.0.episode ≡ true)) (completed above c)
          (completed_all above cs) (completed-All above c h.0) (completed_all-All above cs h.1)

module _ {R E : Type 0} (fl : Floats R) (Q : Place R E → Type 0) where
  max_from-kept :
      (best : Place R E) (ps : List (Place R E)) → Q best → All Q ps → Q (max_from fl best ps)
  unfolding max_from
  max_from-kept best [] q h = q
  max_from-kept best (p ∷ ps) q h = elim (Bool-cases (fl.lt best.0.reward p.0.reward)) [
    | inl e ↦ rw e (max_from-kept p ps h.0 h.1)
    | inr e ↦ rw e (max_from-kept best ps q h.1)
  ]

  pub max_reward-OfSome : (ps : List (Place R E)) → All Q ps → OfSome Q (max_reward fl ps)
  unfolding max_reward
  max_reward-OfSome [] h = tt
  max_reward-OfSome (p ∷ ps) h = max_from-kept p ps h.0 h.1

module _ {R E W : Type 0} (fl : Floats R) (st : Steps R E W) (cfg : Settings R) where
  -- A property of trees that each rollout from the root keeps.
  rounds-kept :
      (T : Node R E → Type 0)
      → ((n : Node R E) (w : W) → T n → T (rollout fl st cfg [] n w).0)
      → (k n : ℕ) (root : Node R E) (w : W) → T root
      → T (rounds fl st cfg k n root w).0
  unfolding rounds
  rounds-kept T step zero n root w h = h
  rounds-kept T step (suc k) n root w h =
      let r = rollout fl st cfg [] root w in
      elim (Bool-cases (cfg.exit_on_complete && is_done fl st cfg r.0)) [
        | inl e ↦ rw e (step root w h)
        | inr e ↦ rw e (rounds-kept T step k (suc n) r.0 r.2 (step root w h))
      ]

  pub rounds-Holds :
      (P : Info R E → Type 0) (kept : IsKept fl st cfg P) (k : ℕ) (w : W)
      → Holds P (start fl st cfg)
      → Holds P (rounds fl st cfg k 0 (start fl st cfg) w).0
  rounds-Holds P kept k w h =
      rounds-kept (Holds P) (rollout-Holds fl st cfg P kept []) k 0 (start fl st cfg) w h

  -- Whatever the number of rollouts, at the end of a search's rollouts every node of the tree was
  -- visited once for itself, if it was executed, and once for each visit of a child.
  pub rounds-IsCounted : (k : ℕ) (w : W) → IsCounted (rounds fl st cfg k 0 (start fl st cfg) w).0
  unfolding IsCounted new_node
  rounds-IsCounted k w =
      rounds-kept IsCounted (λ n w' h. (rollout-IsRolled fl st cfg [] n w' h).0) k 0
        (start fl st cfg) w (refl, tt)
