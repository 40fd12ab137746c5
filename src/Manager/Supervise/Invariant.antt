-- ===== src/Manager/Supervise/Invariant.antt =====
-- src/manager.rs: what every round of `supervise` keeps.
use polychrome_php.Prelude.{ℕ, ◌≤◌, ◌≡◌, refl, ◌⊎◌, inl, inr, true, none, arith, length, Bool-cases}
use polychrome_php.Config.{Config}
use polychrome_php.Manager.Pool.Laws.{
  Sorted, insert-Sorted, remove-Sorted, map_values-Sorted, length-insert, length-remove,
  length-map_values,
}
use polychrome_php.Manager.Worker.{Worker}
use polychrome_php.Manager.Loop.{u32_max, State, Exit, Round, is_some}
use polychrome_php.Manager.Supervise.{
  next_failures, back_off, add_worker, stamp_phase, stamp_worker, expire_phase, expire_worker,
  forget, count_exit, failed_start, start, before_reap, step,
}
use polychrome_php.Manager.Supervise.Rules.{Relation, IsLawful, before_reap-Holds, step-Holds}

-- The pool is in order and within its size, an error drains it, and the failures fit a u32.
pub record IsSound (config : Config) (s : State) : Type 0 where
  pub sorted : Sorted s.workers
  pub bounded : length s.workers ≤ config.workers
  pub fatal_drains : (s.fatal ≡ none) ⊎ (is_some s.draining ≡ true)
  pub counted : s.failures ≤ u32_max

abbrev Kept : Config → Relation
Kept config s es t = IsSound config s → IsSound config t

-- Counting an exit leaves the pool and the drain alone.
pub count_exit_workers :
    (e : Exit) (w : Worker) (s : State) → (count_exit e w s).workers ≡ s.workers
unfolding count_exit back_off
count_exit_workers e w s = ground arith

pub count_exit_draining :
    (e : Exit) (w : Worker) (s : State) → (count_exit e w s).draining ≡ s.draining
unfolding count_exit back_off
count_exit_draining e w s = ground arith

pub count_exit_fatal : (e : Exit) (w : Worker) (s : State) → (count_exit e w s).fatal ≡ s.fatal
unfolding count_exit back_off
count_exit_fatal e w s = ground arith

pub count_exit_ready : (e : Exit) (w : Worker) (s : State) → (count_exit e w s).ready ≡ s.ready
unfolding count_exit back_off
count_exit_ready e w s = ground arith

count_exit-IsSound :
    (config : Config) (e : Exit) (w : Worker) (s : State)
    → IsSound config s
    → IsSound config (count_exit e w s)
unfolding count_exit back_off next_failures
count_exit-IsSound config e w s h = elim (Bool-cases (failed_start e w)) [
  | inl t ↦ rw t (record {
    sorted = h.sorted;
    bounded = h.bounded;
    fatal_drains = h.fatal_drains;
    counted = omega arith;
  })
  | inr t ↦ rw t (record {
    sorted = h.sorted;
    bounded = h.bounded;
    fatal_drains = h.fatal_drains;
    counted = omega arith;
  })
]

Kept-IsLawful : (config : Config) (round : Round) → IsLawful config (Kept config) round
unfolding add_worker back_off next_failures stamp_phase expire_phase forget
Kept-IsLawful config round = record {
  idle = λ s h. h;
  follow = λ s t u es fs f g h. g (f h);
  birth = λ i pid w s _ d room h. record {
    sorted = insert-Sorted pid w s.workers h.sorted;
    bounded = omega (arith, length-insert pid w s.workers);
    fatal_drains = h.fatal_drains;
    counted = h.counted;
  };
  failure = λ x now s h. record {
    sorted = h.sorted;
    bounded = h.bounded;
    fatal_drains = h.fatal_drains;
    counted = omega arith;
  };
  full = λ s _ _ h. record {
    sorted = h.sorted;
    bounded = h.bounded;
    fatal_drains = h.fatal_drains;
    counted = h.counted;
  };
  poll_error = λ x now s _ h. record {
    sorted = h.sorted;
    bounded = h.bounded;
    fatal_drains = inr refl;
    counted = h.counted;
  };
  stamps = λ s h. record {
    sorted = map_values-Sorted (stamp_worker round) s.workers h.sorted;
    bounded = omega (arith, length-map_values (stamp_worker round) s.workers);
    fatal_drains = h.fatal_drains;
    counted = h.counted;
  };
  first_stop = λ now s _ h. record {
    sorted = h.sorted;
    bounded = h.bounded;
    fatal_drains = inr refl;
    counted = h.counted;
  };
  stop_again = λ now deadline s _ h. record {
    sorted = h.sorted;
    bounded = h.bounded;
    fatal_drains = inr refl;
    counted = h.counted;
  };
  expiry = λ s h. record {
    sorted = map_values-Sorted (expire_worker config round s.draining) s.workers h.sorted;
    bounded = omega (arith, length-map_values (expire_worker config round s.draining) s.workers);
    fatal_drains = h.fatal_drains;
    counted = h.counted;
  };
  exit = λ e w s _ h. count_exit-IsSound config e w (forget e.pid s) (record {
    sorted = remove-Sorted e.pid s.workers h.sorted;
    bounded = omega (arith, length-remove e.pid s.workers);
    fatal_drains = h.fatal_drains;
    counted = h.counted;
  });
}

pub start-IsSound : (config : Config) (now : ℕ) → IsSound config (start now)
unfolding start
start-IsSound config now = record {
  sorted = tt;
  bounded = omega arith;
  fatal_drains = inl refl;
  counted = omega arith;
}

pub before_reap-IsSound :
    (config : Config) (round : Round) (s : State)
    → IsSound config s
    → IsSound config (before_reap config round s).0
before_reap-IsSound config round s =
    before_reap-Holds config (Kept config) round (Kept-IsLawful config round) s

pub step-IsSound :
    (config : Config) (round : Round) (s : State)
    → IsSound config s
    → IsSound config (step config round s).0
step-IsSound config round s = step-Holds config (Kept config) round (Kept-IsLawful config round) s
