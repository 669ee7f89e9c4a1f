-- ===== src/Tests/Search.antt =====
-- Runs of triage/triage/search.py: rewards are whole numbers, and the models propose a finalize
-- action from the second step on.
use package.text.Mathlib.Text.{◌==◌ as str_eq}
use g_pcap.Prelude.{
  ℕ, zero, suc, ◌+◌, ◌-◌, ◌*◌, ◌/◌, ◌≤◌, ◌<◌, ◌≡◌, ◌≢◌, arith, refl, ltb, is_some, if◌then◌else◌,
  String, true, none, some, List, [], ◌∷◌,
}
use g_pcap.Prelude.Chars.{join_texts}
use g_pcap.Prelude.Sets.{mem}
use g_pcap.Prelude.Text.{String-discrete}
use g_pcap.Triage.Search.Node.{
  Floats, info, extend, trajectory_text, new_node, backprop, backprop_all, ucb,
}
use g_pcap.Triage.Search.Rollout.{
  Steps, Settings, status_of, observe, fresh_children, observe_all, best_from, best_child,
  grow_into, grow, descend, rollout, rollout_in,
}
use g_pcap.Triage.Search.Rollout.Counts.{IsCounted}
use g_pcap.Triage.Search.Rollout.AllNodes.{Holds}
use g_pcap.Triage.Search.Run.{
  SearchResult, completed, executed, max_from, max_reward, first_finalize, finish, finish_at, hang,
  force_finalize, rounds, done_or_forced, start, run,
}
use g_pcap.Triage.Search.Run.Kept.{rounds-IsCounted}
use g_pcap.Triage.Search.Run.Best.{IsOrder, IsBest, run-IsBest}
use g_pcap.Triage.Search.Run.Depth.{IsShallow, IsForcedShallow, rounds-IsShallow}
use g_pcap.Triage.Search.Run.Results.{run-ends}

abbrev pub whole : Floats ℕ
whole = record {
  zero_r = 0;
  infinity = 1000;
  add = λ a b. a + b;
  sub = λ a b. a - b;
  mul = λ a b. a * b;
  div = λ a b. a / b;
  of_nat = λ n. n;
  sqrt = λ a. a;
  log = λ a. a;
  lt = ltb;
}

-- The world counts the executions.
abbrev proposals : ℕ → List String
proposals zero = "inspect flows" ∷ "inspect flows" ∷ "topology" ∷ []
proposals (suc n) = "finalize {}" ∷ []

abbrev steps : Steps ℕ ℕ ℕ
steps = record {
  expand = λ objective trajectory n w. (some (proposals w), w);
  evaluate = λ objective trajectory w. (some (w, "incomplete"), w);
  execute = λ action w. (("seen", if str_eq action "finalize {}" then some 7 else none), w + 1);
}

abbrev pub settings : Settings ℕ
settings = record {
  c_explore = 1;
  max_depth = 3;
  exit_on_complete = true;
  objective = "why";
  n_branches = 2;
}

abbrev two_rounds : SearchResult ℕ ℕ
two_rounds = record {
  episode = some 7;
  reward = 3;
  trajectory = ("topology", "seen") ∷ ("finalize {}", "seen") ∷ [];
  rollouts = 2;
}

unfoldable pub program : Unit {0}
unfolding run rounds done_or_forced force_finalize finish_at finish first_finalize max_reward
    max_from completed executed rollout rollout_in descend grow grow_into best_child best_from
    observe_all fresh_children observe status_of ucb backprop_all backprop new_node extend
    trajectory_text join_texts mem String-discrete
program = tt

search_run : (run whole steps settings 5 0).0 ≡ some two_rounds
unfolding program
search_run = refl

-- A forced finalize after one rollout: the root is visited by its two children and the forced one.
forced_visits :
    (info
      (force_finalize whole steps settings
        (rounds whole steps settings 1 0 (start whole steps settings) 0).0
        2).1).visits
    ≡ 3
unfolding program hang
forced_visits = refl

rounds-IsCounted_example :
    IsCounted (rounds whole steps settings 5 0 (start whole steps settings) 0).0
rounds-IsCounted_example = rounds-IsCounted whole steps settings 5 0

rounds-IsShallow_example :
    Holds
      (IsShallow whole steps settings)
      (rounds whole steps settings 5 0 (start whole steps settings) 0).0
    × Holds
        (IsForcedShallow whole steps settings)
        (force_finalize whole steps settings
          (rounds whole steps settings 5 0 (start whole steps settings) 0).0
          0).1
rounds-IsShallow_example = rounds-IsShallow whole steps settings 5 0 0

ltb-IsOrder : IsOrder whole
ltb-IsOrder = record { irrefl = λ a. ground arith; trans = λ a b c h g. ground arith }

has_completed : completed [] (rounds whole steps settings 5 0 (start whole steps settings) 0).0 ≢ []
unfolding program
has_completed = λ e. cc

run-IsBest_example :
    (r : SearchResult ℕ ℕ) × ((run whole steps settings 5 0).0 ≡ some r)
    × IsBest whole steps settings
        (rounds whole steps settings 5 0 (start whole steps settings) 0).0
        r
run-IsBest_example = run-IsBest whole steps settings ltb-IsOrder 4 0 has_completed

run-ends_example :
    (r : SearchResult ℕ ℕ) × ((run whole steps settings 5 0).0 ≡ some r)
    × (1 ≤ r.rollouts)
    × (r.rollouts ≤ 5)
    × (r.rollouts < 5 → (settings.exit_on_complete ≡ true) × (is_some r.episode ≡ true))
run-ends_example = run-ends whole steps settings 4 0
