-- ===== src/Triage/Search/Run/Best.antt =====
-- A search returns the best of what it completed (triage/triage/search.py, `Tree.run`).
use g_pcap.Prelude.{
  ℕ, suc, true, false, is_some, ◌≡◌, ◌≢◌, refl, if_cases, some, List, [], ◌∷◌, Bool-cases, inl, inr,
  All, All-append_left, All-append_right, In,
}
use g_pcap.Triage.Search.Node.{Floats, Info, Node, node, Nodes, nil, cons, Trajectory, extend}
use g_pcap.Triage.Search.Rollout.{Steps, Settings}
use g_pcap.Triage.Search.Rollout.AllNodes.{Holds, HoldsAll}
use g_pcap.Triage.Search.Run.{
  Place, SearchResult, completed, completed_all, max_from, max_reward, result_of, rounds,
  done_or_forced, start, run,
}

-- What `max` relies on: no reward is below itself, and what is below a lower reward is below.
pub record IsOrder {R : Type 0} (fl : Floats R) : Type 0 where
  pub irrefl : (a : R) → fl.lt a a ≡ false
  pub trans : (a b c : R) → fl.lt a b ≡ true → fl.lt b c ≡ true → fl.lt a c ≡ true

module _ {R E : Type 0} (P : Info R E → Type 0) where
  mutual
    unfolding completed Holds

    -- What holds of the completed nodes holds of every node of the tree that has an episode.
    Holds-completed :
        (above : Trajectory) (n : Node R E)
        → All (λ p. P p.0) (completed above n)
        → Holds (λ i. is_some i.episode ≡ true → P i) n
    Holds-completed above (node i cs) h = elim (Bool-cases (is_some i.episode)) [
      | inl e ↦
          let h' : All (λ p. P p.0) ((i, extend above i) ∷ completed_all (extend above i) cs) =
            rw e at h in
          ((λ q. h'.0), HoldsAll-completed (extend above i) cs h'.1)
      | inr e ↦ ((λ q. cc), HoldsAll-completed (extend above i) cs (rw e at h))
    ]

    HoldsAll-completed :
        (above : Trajectory) (cs : Nodes R E)
        → All (λ p. P p.0) (completed_all above cs)
        → HoldsAll (λ i. is_some i.episode ≡ true → P i) cs
    HoldsAll-completed above nil h = tt
    HoldsAll-completed above (cons c cs) h = (
      Holds-completed above c
          (All-append_left (λ p. P p.0) (completed above c) (completed_all above cs) h),
      HoldsAll-completed above cs
          (All-append_right (λ p. P p.0) (completed above c) (completed_all above cs) h),
    )

module _ {R E : Type 0} (fl : Floats R) (order : IsOrder fl) where
  -- No reward of the two is below the other's, as far as the first goes.
  abbrev NotBelow : Place R E → Place R E → Type 0
  NotBelow p q = fl.lt p.0.reward q.0.reward ≡ false

  NotBelow-up :
      (p q r : Place R E) → fl.lt p.0.reward q.0.reward ≡ true → NotBelow p r → NotBelow q r
  NotBelow-up p q r lt h = elim (Bool-cases (fl.lt q.0.reward r.0.reward)) [
    | inl e ↦ let below = order.trans p.0.reward q.0.reward r.0.reward lt e in cc
    | inr e ↦ e
  ]

  max_from-NotBelow :
      (best q : Place R E) (ps : List (Place R E))
      → NotBelow best q
      → NotBelow (max_from fl best ps) q
  unfolding max_from
  max_from-NotBelow best q [] h = h
  max_from-NotBelow best q (p ∷ ps) h =
      if_cases (λ b. NotBelow (max_from fl b ps) q) (fl.lt best.0.reward p.0.reward) p best
        (λ e. max_from-NotBelow p q ps (NotBelow-up best p q e h))
        (λ e. max_from-NotBelow best q ps h)

  max_from-All :
      (best : Place R E) (ps : List (Place R E)) → All (NotBelow (max_from fl best ps)) ps
  unfolding max_from
  max_from-All best [] = tt
  max_from-All best (p ∷ ps) =
      if_cases (λ b. All (NotBelow (max_from fl b ps)) (p ∷ ps)) (fl.lt best.0.reward p.0.reward) p
        best (λ e. (max_from-NotBelow p p ps (order.irrefl p.0.reward), max_from-All p ps))
        (λ e. (max_from-NotBelow best p ps e, max_from-All best ps))

  skip_second : (a b x : Place R E) (xs : List (Place R E)) → In x (a ∷ xs) → In x (a ∷ b ∷ xs)
  skip_second a b x xs (inl e) = inl e
  skip_second a b x xs (inr m) = inr (inr m)

  max_from-In : (best : Place R E) (ps : List (Place R E)) → In (max_from fl best ps) (best ∷ ps)
  unfolding max_from
  max_from-In best [] = inl refl
  max_from-In best (p ∷ ps) =
      if_cases (λ b. In (max_from fl b ps) (best ∷ p ∷ ps)) (fl.lt best.0.reward p.0.reward) p best
        (λ e. inr (max_from-In p ps))
        (λ e. skip_second best p (max_from fl best ps) ps (max_from-In best ps))

module _ {R E W : Type 0} (fl : Floats R) (st : Steps R E W) (cfg : Settings R) where
  -- The result is that of a completed node of the tree, and no node with an episode has a higher
  -- reward.
  pub record IsBest (root : Node R E) (r : SearchResult R E) : Type 0 where
    pub place : Place R E
    pub there : In place (completed [] root)
    pub its_episode : r.episode ≡ place.0.episode
    pub its_reward : r.reward ≡ place.0.reward
    pub its_trajectory : r.trajectory ≡ place.1
    pub highest : Holds (λ i. is_some i.episode ≡ true → fl.lt r.reward i.reward ≡ false) root

  result_of-IsBest :
      (order : IsOrder fl) (n : ℕ) (root : Node R E) (ps : List (Place R E)) (w : W)
      → completed [] root ≡ ps
      → ps ≢ []
      → (r : SearchResult R E) × (some
            (result_of fl n (max_reward fl (done_or_forced fl st cfg ps root w).0))
          ≡ some r)
        × IsBest root r
  unfolding done_or_forced max_reward
  result_of-IsBest order n root [] w same any = absurd (any refl)
  result_of-IsBest order n root (p ∷ ps) w same any =
      let best = max_from fl p ps in
      let all : All (λ q. fl.lt best.0.reward q.0.reward ≡ false) (completed [] root) =
        rw same (
          max_from-NotBelow fl order p p ps (order.irrefl p.0.reward),
          max_from-All fl order p ps,
        ) in
      (
        result_of fl n (some best),
        refl,
        record {
          place = best;
          there = rw same (max_from-In fl order p ps);
          its_episode = refl;
          its_reward = refl;
          its_trajectory = refl;
          highest = Holds-completed (λ i. fl.lt best.0.reward i.reward ≡ false) [] root all;
        },
      )

  -- Where the rollouts completed a node, a search returns the episode, the reward and the trajectory
  -- of one of the nodes that were completed, and no node of the tree with an episode has a higher
  -- reward. Rewards are taken to be ordered: none is below itself, and below is transitive.
  pub run-IsBest :
      (order : IsOrder fl) (k : ℕ) (w : W)
      → completed [] (rounds fl st cfg (suc k) 0 (start fl st cfg) w).0 ≢ []
      → (r : SearchResult R E) × ((run fl st cfg (suc k) w).0 ≡ some r)
        × IsBest (rounds fl st cfg (suc k) 0 (start fl st cfg) w).0 r
  unfolding run
  run-IsBest order k w any =
      let (root, n, w1) = rounds fl st cfg (suc k) 0 (start fl st cfg) w in
      result_of-IsBest order n root (completed [] root) w1 refl any
