-- ===== src/Manager/Supervise/Lifecycle.antt =====
-- src/manager.rs: the log of `supervise` against the life of a child process: a pid is absent until
-- it is spawned, alive until it is sent SIGKILL, doomed from then on, and absent again when it is
-- reaped.
use polychrome_php.Prelude.{
  ℕ, ◌≡◌, refl, sym, subst, ◌≢◌, inl, inr, true, false, List, [], ◌∷◌, map, Option, ok, arith,
  if◌then◌else◌, Bool-cases, All, All-map, All-of,
}
use mathlib.Core.Path.{fun_ext, subst₂}
use polychrome_php.Config.{Config}
use polychrome_php.Manager.Pool.{Pool, insert, remove, keys, map_values}
use polychrome_php.Manager.Pool.Laws.{
  Above, Sorted, insert-Sorted, remove-Sorted, map_values-Sorted, Above-map_values,
}
use polychrome_php.Manager.Worker.{Worker, SpawnCalls, spawn}
use polychrome_php.Manager.Loop.{State, sigkill, sigusr1, Event, terminating, kill, Exit, Round}
use polychrome_php.Manager.Supervise.{
  back_off, add_worker, stamp_phase, stamp_worker, expire_phase, expire_worker, expire_events,
  overdue, forget, log_exit, abnormal, reason, start, Progress, running, done, finished, is_empty,
  supervise,
}
use polychrome_php.Manager.Supervise.Rules.{Relation, IsLawful, spawn-fresh, Ends, supervise-Ends}
use polychrome_php.Manager.Supervise.Invariant.{count_exit_workers}
use polychrome_php.Manager.Supervise.Children.{
  Children, update, Runs, Runs-append, child, over, view, over-insert_at, over-update_at,
  over-remove_at, over-map_values_at, lookup-view, absent, alive, doomed,
}

abbrev Present : Pool Worker → ℕ → Type 0
Present m p = view m p ≢ absent

keys-Present : (m : Pool Worker) → All (Present m) (keys m)
keys-Present [] = tt
keys-Present ((j, w) ∷ m) = (
  ground arith,
  All-map (Present m) (Present ((j, w) ∷ m)) (keys m) (λ p h. ground (arith, h)) (keys-Present m),
)

ask-Runs :
    (ps : List ℕ) (live : Children)
    → All (λ p. live p ≢ absent) ps
    → Runs live (map (λ p. kill p sigusr1) ps) live
ask-Runs [] live h = refl
ask-Runs (p ∷ ps) live h = (h.0, ask-Runs ps live h.1)

log_exit-Runs : (e : Exit) (live : Children) → Runs live (log_exit e) live
unfolding log_exit
log_exit-Runs e live = elim (Bool-cases (abnormal e.status)) [ inl t ↦ rw t | inr t ↦ rw t ]

module _ (config : Config) (round : Round) (draining : Option ℕ) where
  overdue-alive : (p : ℕ) (w : Worker) → overdue config round draining p w ≡ true → w.killed ≡ false
  unfolding overdue
  overdue-alive p w e = ground arith

  expire_cons-Runs :
      (p : ℕ) (w : Worker) (m m' : Pool Worker) (live : Children) (es : List Event)
      → Runs (over ((p, expire_worker config round draining p w) ∷ m) live) es (over m' live)
      → Runs
          (over ((p, w) ∷ m) live)
          (if overdue config round draining p w
            then terminating p (reason config round w) ∷ kill p sigkill ∷ es
            else es)
          (over m' live)
  unfolding expire_worker
  expire_cons-Runs p w m m' live es h = elim (Bool-cases (overdue config round draining p w)) [
    | inr e ↦ rw e (subst (λ v. Runs (over ((p, v) ∷ m) live) es (over m' live)) (unchanged e) h)
    | inl e ↦
        rw e
          (ground (arith, overdue-alive p w e), subst (λ x. Runs x es (over m' live)) (dooms e) h)
  ]
    where
      unchanged :
          overdue config round draining p w ≡ false → expire_worker config round draining p w ≡ w
      unchanged e = rw e

      dooms :
          overdue config round draining p w ≡ true
          → over ((p, expire_worker config round draining p w) ∷ m) live
            ≡ update p doomed (over ((p, w) ∷ m) live)
      dooms e = fun_ext (λ q. ground arith)

  expire-Runs :
      (m : Pool Worker) (live : Children)
      → Sorted m
      → Runs
          (over m live)
          (expire_events config round draining m)
          (over (map_values (expire_worker config round draining) m) live)
  unfolding expire_events
  expire-Runs [] live h = refl
  expire-Runs ((p, w) ∷ m) live h =
      let w' = expire_worker config round draining p w in
      let m' = map_values (expire_worker config round draining) m in
      let move : (n : Pool Worker)
          → Above p n
          → over n (update p (child w') live) ≡ over ((p, w') ∷ n) live =
        λ n above. fun_ext (λ q. over-update_at q p (child w') n live above) in
      expire_cons-Runs p w m ((p, w') ∷ m') live (expire_events config round draining m) (
        subst₂ (λ x y. Runs x (expire_events config round draining m) y) (move m h.0)
          (move m' (Above-map_values p _ m h.0)) (expire-Runs m (update p (child w') live) h.1))

-- A log that runs from the children of one state to those of the next, where the pool is sorted.
abbrev pub Lives : Relation
Lives s es t = Sorted s.workers → Sorted t.workers × Runs (view s.workers) es (view t.workers)

birth_at :
    (calls : SpawnCalls) (q p : ℕ) (w : Worker) (m : Pool Worker)
    → spawn calls ≡ ok (p, w)
    → update p alive (view m) q ≡ view (insert p w m) q
birth_at calls q p w m new =
    ground (arith, spawn-fresh calls p w new, over-insert_at q p w m (λ _. absent))

Lives-IsLawful : (config : Config) (round : Round) → IsLawful config Lives round
unfolding add_worker back_off stamp_phase expire_phase forget stamp_worker
Lives-IsLawful config round = record {
  idle = λ s h. (h, refl);
  follow = λ s t u es fs f g h.
      let (sorted, runs) = f h in
      let (sorted', runs') = g sorted in (sorted', Runs-append es fs _ _ _ runs runs');
  birth = λ i pid w s new _ _ h. (
    insert-Sorted pid w s.workers h,
    fun_ext (λ q. birth_at (round.attempt i).calls q pid w s.workers new),
  );
  failure = λ x now s h. (h, refl);
  full = λ s _ _ h. (h, refl);
  poll_error = λ x now s _ h. (h, refl);
  stamps = λ s h. (
    map_values-Sorted (stamp_worker round) s.workers h,
    fun_ext (λ q. over-map_values_at q (stamp_worker round) s.workers _ (λ p w. refl)),
  );
  first_stop =
      λ now s _ h. (h, ask-Runs (keys s.workers) (view s.workers) (keys-Present s.workers));
  stop_again = λ now deadline s _ h. (h, refl);
  expiry = λ s h. (
    map_values-Sorted (expire_worker config round s.draining) s.workers h,
    expire-Runs config round s.draining s.workers (λ _. absent) h,
  );
  exit = λ e w s found h. (
    rw (count_exit_workers e w (forget e.pid s)) (remove-Sorted e.pid s.workers h),
    (
      lookup-view e.pid s.workers found,
      rw (count_exit_workers e w (forget e.pid s)) (
          subst (λ x. Runs x (log_exit e) (view (remove e.pid s.workers)))
            (sym (fun_ext (λ q. over-remove_at q e.pid s.workers h)))
            (log_exit-Runs e (view (remove e.pid s.workers)))),
    ),
  );
}

finished-empty : (s : State) → finished s ≡ true → s.workers ≡ []
unfolding finished is_empty
finished-empty s h = ground arith

-- A log that starts with the children `live`, and ends with those of the pool; where the loop has
-- ended, with none.
abbrev pub Logged : Children → List Event → Progress → Type 0
Logged live es (running t) = Runs live es (view t.workers)
Logged live es (done r) = Runs live es (λ _. absent)

Ends-Logged :
    (now : ℕ) (es : List Event) (p : Progress)
    → Ends Lives (start now) es p
    → Logged (λ _. absent) es p
unfolding start
Ends-Logged now es (running t) h = (h tt).1
Ends-Logged now es (done r) (t, lives, empty, same) =
    subst (λ m. Runs (λ _. absent) es (view m)) (finished-empty t empty) (lives tt).1

-- From its start, through any rounds, `supervise` signals and reaps only children that it has
-- forked and not yet reaped, and sends SIGKILL to none of them twice. The pool is that of the log,
-- and its `killed` marks are on just the children that were sent SIGKILL. Where the loop ends, every
-- child that it forked has been reaped.
pub supervise-Logged :
    (config : Config) (rounds : List Round) (now : ℕ)
    → Logged
        (λ _. absent)
        (supervise config rounds (start now)).1
        (supervise config rounds (start now)).0
supervise-Logged config rounds now = Ends-Logged now (supervise config rounds (start now)).1 _ (
    supervise-Ends config Lives (λ s h. (h, refl)) rounds
      (All-of (IsLawful config Lives) rounds (Lives-IsLawful config)) (start now))
