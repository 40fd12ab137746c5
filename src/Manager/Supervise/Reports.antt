-- ===== src/Manager/Supervise/Reports.antt =====
-- src/manager.rs: the lines that the loop writes once, and the result that it returns.
use polychrome_php.Prelude.{
  ℕ, suc, ◌+◌, ◌≤◌, ◌≡◌, refl, ◌≢◌, inl, inr, Bool, true, false, List, [], ◌∷◌, ◌++◌, map, Option,
  none, ok, err, Result, arith, Bool-cases, Option-cases, All, All-of, All-map,
}
use polychrome_php.Bytes.{Bytes}
use polychrome_php.Config.{Config}
use polychrome_php.Manager.Pool.{Pool}
use polychrome_php.Manager.Worker.{Worker}
use polychrome_php.Manager.Loop.{
  State, Event, ready_line, drain_line, kill, sigusr1, poll_failed, Exit, Round, is_some,
}
use polychrome_php.Manager.Supervise.{
  back_off, add_worker, stamp_phase, expire_phase, expire_events, overdue, abnormal, log_exit,
  forget, poll_phase, before_reap, step, start, finished, outcome, Progress, running, done,
  supervise,
}
use polychrome_php.Manager.Supervise.Rules.{
  Relation, IsLawful, signal_phase-Holds, reap_phase-Holds, Ends, supervise-Ends,
}
use polychrome_php.Manager.Supervise.Invariant.{
  count_exit_fatal, count_exit_draining, count_exit_ready,
}

-- How many of the events are the ready line, and how many the line of a drain.
abbrev pub ready_lines : List Event → ℕ
ready_lines [] = 0
ready_lines (ready_line ∷ es) = suc (ready_lines es)
ready_lines (_ ∷ es) = ready_lines es

abbrev pub drain_lines : List Event → ℕ
drain_lines [] = 0
drain_lines (drain_line ∷ es) = suc (drain_lines es)
drain_lines (_ ∷ es) = drain_lines es

abbrev bit : Bool → ℕ
bit true = 1
bit false = 0

lines-append :
    (es fs : List Event)
    → (ready_lines (es ++ fs) ≡ ready_lines es + ready_lines fs)
      × (drain_lines (es ++ fs) ≡ drain_lines es + drain_lines fs)
lines-append [] fs = omega arith
lines-append (ready_line ∷ es) fs = omega (arith, lines-append es fs)
lines-append (drain_line ∷ es) fs = omega (arith, lines-append es fs)
lines-append (_ ∷ es) fs = lines-append es fs

-- Neither line is among the events.
abbrev IsPlain : List Event → Type 0
IsPlain es = (ready_lines es ≡ 0) × (drain_lines es ≡ 0)

ask-IsPlain : (ps : List ℕ) → IsPlain (map (λ p. kill p sigusr1) ps)
ask-IsPlain [] = (refl, refl)
ask-IsPlain (p ∷ ps) = ask-IsPlain ps

expire_events-IsPlain :
    (config : Config) (round : Round) (draining : Option ℕ) (m : Pool Worker)
    → IsPlain (expire_events config round draining m)
unfolding expire_events
expire_events-IsPlain config round draining [] = (refl, refl)
expire_events-IsPlain config round draining ((p, w) ∷ m) =
    elim (Bool-cases (overdue config round draining p w)) [
      | inl e ↦ rw e (expire_events-IsPlain config round draining m)
      | inr e ↦ rw e (expire_events-IsPlain config round draining m)
    ]

log_exit-IsPlain : (e : Exit) → IsPlain (log_exit e)
unfolding log_exit
log_exit-IsPlain e = elim (Bool-cases (abnormal e.status)) [
  | inl t ↦ rw t (refl, refl)
  | inr t ↦ rw t (refl, refl)
]

-- The ready line is what sets `ready`, and a drain line needs a pool that does not drain yet.
abbrev Reported : Relation
Reported s es t =
    (ready_lines es + bit s.ready ≡ bit t.ready)
    × (drain_lines es + bit (is_some s.draining) ≤ bit (is_some t.draining))

Reported-IsLawful : (config : Config) (round : Round) → IsLawful config Reported round
unfolding add_worker back_off stamp_phase expire_phase
Reported-IsLawful config round = record {
  idle = λ s. omega arith;
  follow = λ s t u es fs f g. omega (arith, lines-append es fs, f, g);
  birth = λ i pid w s _ _ _. omega arith;
  failure = λ x now s. omega arith;
  full = λ s new _. ground arith;
  poll_error = λ x now s _. ground arith;
  stamps = λ s. omega arith;
  first_stop = λ now s off. ground (arith, ask-IsPlain (map (λ e. e.0) s.workers));
  stop_again = λ now deadline s on. ground arith;
  expiry = λ s. omega (arith, expire_events-IsPlain config round s.draining s.workers);
  exit = λ e w s _.
      rw (count_exit_ready e w (forget e.pid s), count_exit_draining e w (forget e.pid s))
        (unfold forget in omega (arith, log_exit-IsPlain e));
}

Ends-Reported :
    (now : ℕ) (es : List Event) (p : Progress)
    → Ends Reported (start now) es p
    → (ready_lines es ≤ 1) × (drain_lines es ≤ 1)
unfolding start
Ends-Reported now es (running t) h = grind (arith, h)
Ends-Reported now es (done r) (t, h, f, e) = grind (arith, h)

-- From its start, through any rounds, the loop writes the line that it is ready at most once, and
-- the line that it drains at most once, however many requests to stop arrive.
pub supervise_reports :
    (config : Config) (rounds : List Round) (now : ℕ)
    → let es = (supervise config rounds (start now)).1 in
      (ready_lines es ≤ 1) × (drain_lines es ≤ 1)
supervise_reports config rounds now = Ends-Reported now (supervise config rounds (start now)).1 _ (
    supervise-Ends config Reported (λ s. omega arith) rounds
      (All-of (IsLawful config Reported) rounds (Reported-IsLawful config)) (start now))

abbrev pub PollsWell : Round → Type 0
PollsWell round = (x : Bytes) (now : ℕ) → round.poll ≢ poll_failed x now

-- No error so far, and an error that stays.
abbrev Spared : Relation
Spared s es t = s.fatal ≡ none → t.fatal ≡ none

abbrev Failed : Relation
Failed s es t = is_some s.fatal ≡ true → is_some t.fatal ≡ true

Spared-IsLawful : (config : Config) (round : Round) → PollsWell round → IsLawful config Spared round
unfolding add_worker back_off stamp_phase expire_phase
Spared-IsLawful config round well = record {
  idle = λ s h. h;
  follow = λ s t u es fs f g h. g (f h);
  birth = λ i pid w s _ _ _ h. h;
  failure = λ x now s h. h;
  full = λ s _ _ h. h;
  poll_error = λ x now s e h. absurd (well x now e);
  stamps = λ s h. h;
  first_stop = λ now s _ h. h;
  stop_again = λ now deadline s _ h. h;
  expiry = λ s h. h;
  exit = λ e w s _ h. rw (count_exit_fatal e w (forget e.pid s)) (unfold forget in h);
}

Failed-IsLawful : (config : Config) (round : Round) → IsLawful config Failed round
unfolding add_worker back_off stamp_phase expire_phase
Failed-IsLawful config round = record {
  idle = λ s h. h;
  follow = λ s t u es fs f g h. g (f h);
  birth = λ i pid w s _ _ _ h. h;
  failure = λ x now s h. h;
  full = λ s _ _ h. h;
  poll_error = λ x now s e h. refl;
  stamps = λ s h. h;
  first_stop = λ now s _ h. h;
  stop_again = λ now deadline s _ h. h;
  expiry = λ s h. h;
  exit = λ e w s _ h. rw (count_exit_fatal e w (forget e.pid s)) (unfold forget in h);
}

Ends-Spared :
    (now : ℕ) (es : List Event) (p : Progress) (r : Result Bytes (Unit {0}))
    → Ends Spared (start now) es p
    → p ≡ done r
    → r ≡ ok tt
unfolding start outcome
Ends-Spared now es (running t) r h same = cc
Ends-Spared now es (done q) r (t, h, f, e) same = ground (arith, h refl)

-- The rounds of a history that `poll` never failed in end, if they end, without an error.
pub supervise-ok :
    (config : Config) (rounds : List Round) (now : ℕ) (r : Result Bytes (Unit {0}))
    → All PollsWell rounds
    → (supervise config rounds (start now)).0 ≡ done r
    → r ≡ ok tt
supervise-ok config rounds now r well =
    Ends-Spared now (supervise config rounds (start now)).1 _ r (
      supervise-Ends config Spared (λ s h. h) rounds
        (All-map PollsWell (IsLawful config Spared) rounds (Spared-IsLawful config) well)
        (start now))

step-Failed :
    (config : Config) (round : Round) (s : State) (x : Bytes) (now : ℕ)
    → round.poll ≡ poll_failed x now
    → is_some (step config round s).0.fatal ≡ true
unfolding step before_reap poll_phase stamp_phase expire_phase
step-Failed config round s x now e =
    reap_phase-Holds config Failed round (Failed-IsLawful config round) round.exits _ (
      signal_phase-Holds config Failed round (Failed-IsLawful config round) round.deliveries _
        (rw (e, poll_phase)))

Ends-Failed :
    (s : State) (es : List Event) (p : Progress) (r : Result Bytes (Unit {0}))
    → Ends Failed s es p
    → is_some s.fatal ≡ true
    → p ≡ done r
    → (x : Bytes) × (r ≡ err x)
unfolding outcome
Ends-Failed s es (running t) r h on same = cc
Ends-Failed s es (done q) r (t, h, f, e) on same = elim (Option-cases t.fatal) [
  | inl z ↦ absurd (ground (arith, z, h on))
  | inr (x, z) ↦ (x, ground (arith, z))
]

-- If `poll` fails in a round, with an error that is no interruption, then the loop returns an error
-- when it ends, in that round or any number of rounds later.
pub supervise-err :
    (config : Config) (round : Round) (rounds : List Round) (s : State) (x : Bytes) (now : ℕ)
    (r : Result Bytes (Unit {0}))
    → round.poll ≡ poll_failed x now
    → (supervise config (round ∷ rounds) s).0 ≡ done r
    → (y : Bytes) × (r ≡ err y)
unfolding supervise
supervise-err config round rounds s x now r e h = elim (Bool-cases (finished t)) [
  | inl over ↦
      Ends-Failed t [] (done (outcome t.fatal)) r (t, (λ on. on), over, refl) failed
        (ground (arith, over))
  | inr on ↦
      Ends-Failed t (supervise config rounds t).1 (supervise config rounds t).0 r
        (supervise-Ends config Failed (λ u k. k) rounds
          (All-of (IsLawful config Failed) rounds (Failed-IsLawful config)) t)
        failed (ground (arith, on))
]
  where
    t : State
    t = (step config round s).0

    failed : is_some t.fatal ≡ true
    failed = step-Failed config round s x now e
