-- ===== src/Manager/Supervise/Drain.antt =====
-- src/manager.rs: the end of a drain.
use polychrome_php.Prelude.{
  ℕ, ◌≡◌, refl, ◌⊎◌, inl, inr, true, List, [], ◌∷◌, Option, none, some, Result, arith, Bool-cases,
  Option-cases,
}
use polychrome_php.Bytes.{Bytes}
use polychrome_php.Config.{Config}
use polychrome_php.Manager.Pool.{Pool, lookup}
use polychrome_php.Manager.Pool.Laws.{Sorted, Each-lookup, lookup-remove, remove-Sorted}
use polychrome_php.Manager.Worker.{Worker}
use polychrome_php.Manager.Loop.{State, Exit, Round, is_some}
use polychrome_php.Manager.Supervise.{
  drain_expired, forget, reap, reap_phase, before_reap, step, is_empty, finished, outcome, done,
  supervise,
}
use polychrome_php.Manager.Supervise.Rules.{before_reap-Holds}
use polychrome_php.Manager.Supervise.Invariant.{
  count_exit_workers, IsSound, before_reap-IsSound, step-IsSound,
}
use polychrome_php.Manager.Supervise.Punctual.{IsKilledIfDue, killed_of_expired, step-IsKilledIfDue}
use polychrome_php.Manager.Supervise.Shrinking.{Drains, Drains-IsLawful, step-IsDraining}

-- The children that a round's calls of `waitpid` return.
abbrev pub Reaps : List Exit → ℕ → Type 0
Reaps [] p = ⊥
Reaps (e ∷ es) p = (e.pid ≡ p) ⊎ Reaps es p

reap-Sorted : (e : Exit) (s : State) → Sorted s.workers → Sorted (reap e s).0.workers
unfolding reap forget
reap-Sorted e s h = elim (Option-cases (lookup e.pid s.workers)) [
  | inl miss ↦ rw (miss, reap) h
  | inr (w, found) ↦
      rw (found, reap, count_exit_workers e w (forget e.pid s)) (remove-Sorted e.pid s.workers h)
]

reap-gone :
    (e : Exit) (s : State) (q : ℕ)
    → Sorted s.workers
    → (e.pid ≡ q) ⊎ (lookup q s.workers ≡ none)
    → lookup q (reap e s).0.workers ≡ none
unfolding reap forget
reap-gone e s q h gone = elim (Option-cases (lookup e.pid s.workers)) [
  | inl miss ↦ rw (miss, reap) (ground (arith, miss))
  | inr (w, found) ↦
      rw (found, reap, count_exit_workers e w (forget e.pid s))
        (ground (arith, lookup-remove q e.pid s.workers h))
]

reap_phase-gone :
    (es : List Exit) (s : State) (q : ℕ)
    → Sorted s.workers
    → (lookup q s.workers ≡ none) ⊎ Reaps es q
    → lookup q (reap_phase es s).0.workers ≡ none
unfolding reap_phase
reap_phase-gone [] s q h (inl gone) = gone
reap_phase-gone [] s q h (inr never) = absurd never
reap_phase-gone (e ∷ es) s q h (inl gone) =
    reap_phase-gone es (reap e s).0 q (reap-Sorted e s h) (inl (reap-gone e s q h (inr gone)))
reap_phase-gone (e ∷ es) s q h (inr (inl same)) =
    reap_phase-gone es (reap e s).0 q (reap-Sorted e s h) (inl (reap-gone e s q h (inl same)))
reap_phase-gone (e ∷ es) s q h (inr (inr later)) =
    reap_phase-gone es (reap e s).0 q (reap-Sorted e s h) (inr later)

empty_of_lookup : {V : Type 0} (m : Pool V) → ((q : ℕ) → lookup q m ≡ none) → m ≡ []
unfolding lookup
empty_of_lookup [] h = refl
empty_of_lookup ((j, w) ∷ m) h = absurd (ground (arith, h j))

finished_of_empty : (s : State) → is_some s.draining ≡ true → s.workers ≡ [] → finished s ≡ true
unfolding finished is_empty
finished_of_empty s on e = ground arith

module _ (config : Config) (s : State) (first second : Round) where
  abbrev middle : State
  middle = (step config first s).0

  draining_of_expired :
      (draining : Option ℕ) → drain_expired first draining 0 ≡ true → is_some draining ≡ true
  draining_of_expired none h = cc
  draining_of_expired (some d) h = refl

  -- `second` empties the pool that `first` has sent SIGKILL.
  second-finished :
      IsSound config s
      → ((p : ℕ) → drain_expired first middle.draining p ≡ true)
      → ((p : ℕ) (w : Worker)
          → lookup p middle.workers ≡ some w
          → w.killed ≡ true
          → Reaps second.exits p)
      → finished (step config second middle).0 ≡ true
  second-finished sound expired ends =
      finished_of_empty _ (step-IsDraining config second middle on).goes_on (
        unfold step in
        empty_of_lookup _ λ q.
          reap_phase-gone second.exits before q
            (before_reap-IsSound config second middle (step-IsSound config first s sound)).sorted
            (known q (Option-cases (lookup q middle.workers))))
    where
      on : is_some middle.draining ≡ true
      on = draining_of_expired middle.draining (expired 0)

      before : State
      before = (before_reap config second middle).0

      known :
          (q : ℕ)
          → (lookup q middle.workers ≡ none) ⊎ ((w : Worker) × (lookup q middle.workers ≡ some w))
          → (lookup q before.workers ≡ none) ⊎ Reaps second.exits q
      known q (inl absent) = inl (
          (before_reap-Holds config Drains second (Drains-IsLawful config second) middle
              on).none_joins
            q absent)
      known q (inr (w, there)) = inr (
          ends q w there (
            killed_of_expired config first middle.draining q w
              (Each-lookup (IsKilledIfDue config first middle.draining) middle.workers q
                (step-IsKilledIfDue config first s) there)
              (inr (expired q))))

-- A drain ends: if its deadline, as the first of two rounds leaves it, had passed when that round
-- looked at the workers, and the second round's `waitpid` returns every child that was sent
-- SIGKILL by then, then the loop is over after these two rounds at the latest.
pub supervise-drained :
    (config : Config) (s : State) (first second : Round)
    → IsSound config s
    → ((p : ℕ) → drain_expired first (step config first s).0.draining p ≡ true)
    → ((p : ℕ) (w : Worker)
        → lookup p (step config first s).0.workers ≡ some w
        → w.killed ≡ true
        → Reaps second.exits p)
    → (r : Result Bytes (Unit {0})) × ((supervise config (first ∷ second ∷ []) s).0 ≡ done r)
unfolding supervise
supervise-drained config s first second sound expired ends =
    elim (Bool-cases (finished (step config first s).0)) [
      | inl e ↦ (outcome (step config first s).0.fatal, rw e)
      | inr e ↦ (
        outcome (step config second (step config first s).0).0.fatal,
        rw (e, second-finished config s first second sound expired ends),
      )
    ]
