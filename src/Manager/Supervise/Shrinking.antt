-- ===== src/Manager/Supervise/Shrinking.antt =====
-- src/manager.rs: the pool in the rounds of a drain.
use polychrome_php.Prelude.{
  ℕ, ◌≤◌, ◌≡◌, refl, ◌⊎◌, inl, inr, true, List, [], ◌∷◌, map, Option, none, some, arith, length,
  Bool-cases, Option-cases, All, All-append,
}
use polychrome_php.Config.{Config}
use polychrome_php.Manager.Pool.{Pool, lookup, remove, map_values}
use polychrome_php.Manager.Pool.Laws.{lookup-map_values-none, length-remove, length-map_values}
use polychrome_php.Manager.Worker.{Worker}
use polychrome_php.Manager.Loop.{
  State, Event, spawned, spawn_failed, ready_line, kill, sigusr1, reaped, Exit, Round, is_some,
}
use polychrome_php.Manager.Supervise.{
  back_off, stamp_phase, stamp_worker, expire_phase, expire_worker, expire_events, overdue,
  abnormal, log_exit, forget, count_exit, step,
}
use polychrome_php.Manager.Supervise.Rules.{Relation, IsLawful, step-Holds}
use polychrome_php.Manager.Supervise.Invariant.{count_exit_workers, count_exit_draining}

abbrev pub IsNoSpawn : Event → Type 0
IsNoSpawn (spawned _) = ⊥
IsNoSpawn _ = Unit

pub ask-IsNoSpawn : (ps : List ℕ) → All IsNoSpawn (map (λ p. kill p sigusr1) ps)
ask-IsNoSpawn [] = tt
ask-IsNoSpawn (p ∷ ps) = (tt, ask-IsNoSpawn ps)

pub expire_events-IsNoSpawn :
    (config : Config) (round : Round) (draining : Option ℕ) (m : Pool Worker)
    → All IsNoSpawn (expire_events config round draining m)
unfolding expire_events
expire_events-IsNoSpawn config round draining [] = tt
expire_events-IsNoSpawn config round draining ((p, w) ∷ m) =
    elim (Bool-cases (overdue config round draining p w)) [
      | inl e ↦ rw e (tt, (tt, expire_events-IsNoSpawn config round draining m))
      | inr e ↦ rw e (expire_events-IsNoSpawn config round draining m)
    ]

pub log_exit-IsNoSpawn : (e : Exit) → All IsNoSpawn (log_exit e)
unfolding log_exit
log_exit-IsNoSpawn e = elim (Bool-cases (abnormal e.status)) [
  | inl t ↦ rw t (tt, tt)
  | inr t ↦ rw t tt
]

-- The state of a drain, and that nobody joins the pool.
pub record IsDraining (s : State) (es : List Event) (t : State) : Type 0 where
  pub goes_on : is_some t.draining ≡ true
  pub no_larger : length t.workers ≤ length s.workers
  pub no_spawn : All IsNoSpawn es
  pub none_joins : (q : ℕ) → lookup q s.workers ≡ none → lookup q t.workers ≡ none

abbrev pub Drains : Relation
Drains s es t = is_some s.draining ≡ true → IsDraining s es t

lookup-remove-none :
    {V : Type 0} (q k : ℕ) (m : Pool V) → lookup q m ≡ none → lookup q (remove k m) ≡ none
unfolding lookup remove
lookup-remove-none q k [] h = refl
lookup-remove-none q k ((j, w) ∷ m) h = ground (arith, lookup-remove-none q k m)

-- An action that leaves the pool alone, and the drain on.
still :
    (s t : State) (es : List Event)
    → t.workers ≡ s.workers
    → is_some t.draining ≡ true
    → All IsNoSpawn es
    → IsDraining s es t
still s t es same on quiet = record {
  goes_on = on;
  no_larger = rw same (omega arith);
  no_spawn = quiet;
  none_joins = λ q h. rw same h;
}

mapped :
    (f : ℕ → Worker → Worker) (s : State) (es : List Event)
    → is_some s.draining ≡ true
    → All IsNoSpawn es
    → IsDraining s es (record s { workers = map_values f s.workers })
mapped f s es on quiet = record {
  goes_on = on;
  no_larger = omega (arith, length-map_values f s.workers);
  no_spawn = quiet;
  none_joins = λ q h. lookup-map_values-none q f s.workers h;
}

exit-IsDraining :
    (e : Exit) (w : Worker) (s : State)
    → is_some s.draining ≡ true
    → IsDraining s (reaped e.pid ∷ log_exit e) (count_exit e w (forget e.pid s))
unfolding forget
exit-IsDraining e w s on = record {
  goes_on = rw (count_exit_draining e w (forget e.pid s)) on;
  no_larger = rw (count_exit_workers e w (forget e.pid s)) (length-remove e.pid s.workers);
  no_spawn = (tt, log_exit-IsNoSpawn e);
  none_joins =
      λ q h. rw (count_exit_workers e w (forget e.pid s)) (lookup-remove-none q e.pid s.workers h);
}

pub Drains-IsLawful : (config : Config) (round : Round) → IsLawful config Drains round
unfolding back_off stamp_phase expire_phase
Drains-IsLawful config round = record {
  idle = λ s on. still s s [] refl on tt;
  follow = λ s t u es fs f g on.
      let first = f on in
      let rest = g first.goes_on in
      record {
        goes_on = rest.goes_on;
        no_larger = omega (arith, first.no_larger, rest.no_larger);
        no_spawn = All-append IsNoSpawn es fs first.no_spawn rest.no_spawn;
        none_joins = λ q h. rest.none_joins q (first.none_joins q h);
      };
  birth = λ i pid w s new off room on. absurd (ground arith);
  failure = λ x now s on. still s (back_off now s) (spawn_failed x ∷ []) refl on (tt, tt);
  full = λ s _ _ on. still s (record s { ready = true }) (ready_line ∷ []) refl on (tt, tt);
  poll_error =
      λ x now s _ on. still s (record s { fatal = some x; draining = some now }) [] refl refl tt;
  stamps = λ s on. mapped (stamp_worker round) s [] on tt;
  first_stop = λ now s off on. absurd (ground arith);
  stop_again = λ now deadline s _ on. still s (record s { draining = some now }) [] refl refl tt;
  expiry = λ s on.
      mapped (expire_worker config round s.draining) s _ on
        (expire_events-IsNoSpawn config round s.draining s.workers);
  exit = λ e w s _ on. exit-IsDraining e w s on;
}

pub step-IsDraining :
    (config : Config) (round : Round) (s : State)
    → is_some s.draining ≡ true
    → IsDraining s (step config round s).1 (step config round s).0
step-IsDraining config round s = step-Holds config Drains round (Drains-IsLawful config round) s

-- Every pid of the later pool was in the earlier one.
abbrev pub Shrinks : State → State → Type 0
Shrinks s t = (q : ℕ) → (lookup q t.workers ≡ none) ⊎ ((w : Worker) × (lookup q s.workers ≡ some w))

-- A round of a drain leaves the drain on, forks no child, and leaves a pool that holds no pid that
-- was not in the pool before and is no larger.
pub step-Shrinks :
    (config : Config) (round : Round) (s : State)
    → is_some s.draining ≡ true
    → let r = step config round s in
      (is_some r.0.draining ≡ true)
      × All IsNoSpawn r.1
      × Shrinks s r.0
      × (length r.0.workers ≤ length s.workers)
step-Shrinks config round s on =
    let d = step-IsDraining config round s on in (d.goes_on, d.no_spawn, shrinks, d.no_larger)
  where
    shrinks : Shrinks s (step config round s).0
    shrinks q = elim (Option-cases (lookup q s.workers)) [
      | inl absent ↦ inl ((step-IsDraining config round s on).none_joins q absent)
      | inr (w, there) ↦ inr (w, there)
    ]
