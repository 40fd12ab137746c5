-- ===== src/Manager/Supervise/Soundness.antt =====
-- src/manager.rs: where a history of `supervise` stands.
use polychrome_php.Prelude.{
  ℕ, ◌≡◌, refl, ap, ◌≢◌, ◌⊎◌, inl, inr, true, false, List, [], ◌∷◌, ◌++◌, none, some, ok, err,
  arith, Bool-cases, Option-cases,
}
use polychrome_php.Bytes.{Bytes}
use polychrome_php.Config.{Config}
use polychrome_php.Manager.Loop.{State, Round, is_some}
use polychrome_php.Manager.Supervise.{
  start, Progress, running, done, finished, outcome, supervise, step, is_empty,
}
use polychrome_php.Manager.Supervise.Invariant.{IsSound, start-IsSound, step-IsSound}

-- The rounds one after the other, with no test for the end.
abbrev pub steps : Config → List Round → State → State
steps config [] s = s
steps config (round ∷ rounds) s = steps config rounds (step config round s).0

-- A state that the loop goes on from, and a state that ends it.
abbrev pub IsBusy : State → Type 0
IsBusy s = (s.draining ≡ none) ⊎ (s.workers ≢ [])

abbrev pub IsOver : State → Type 0
IsOver s = (is_some s.draining ≡ true) × (s.workers ≡ [])

-- The result is the error on record, if there is one.
abbrev pub Returns : State → Progress → Type 0
Returns t p =
    ((t.fatal ≡ none) × (p ≡ done (ok tt)))
    ⊎ ((e : Bytes) × (t.fatal ≡ some e) × (p ≡ done (err e)))

-- The loop has taken the rounds `taken` of all the rounds, to a sound state. Either these are all,
-- and it goes on from there; or that state has ended it.
pub record IsSoundProgress (config : Config) (rounds : List Round) (s : State) (p : Progress)
    : Type 0 where
  pub taken : List Round
  pub rest : List Round
  pub split : rounds ≡ taken ++ rest
  pub sound : IsSound config (steps config taken s)
  pub stands :
      ((rest ≡ []) × (p ≡ running (steps config taken s)) × IsBusy (steps config taken s))
      ⊎ (IsOver (steps config taken s) × Returns (steps config taken s) p)

finished-IsOver : (s : State) → finished s ≡ true → IsOver s
unfolding finished is_empty
finished-IsOver s h = ground arith

finished-IsBusy : (s : State) → finished s ≡ false → IsBusy s
unfolding finished is_empty
finished-IsBusy s h = elim (Option-cases s.draining) [
  | inl off ↦ inl off
  | inr (d, on) ↦ inr (λ e. ground (arith, on, e))
]

outcome-Returns : (s : State) → Returns s (done (outcome s.fatal))
unfolding outcome
outcome-Returns s = elim (Option-cases s.fatal) [
  | inl off ↦ inl (off, rw off)
  | inr (e, on) ↦ inr (e, on, rw on)
]

supervise-IsSoundProgress :
    (config : Config) (rounds : List Round) (s : State)
    → IsSound config s
    → IsBusy s
    → IsSoundProgress config rounds s (supervise config rounds s).0
unfolding supervise
supervise-IsSoundProgress config [] s sound busy = record {
  taken = [];
  rest = [];
  split = refl;
  sound = sound;
  stands = inl (refl, refl, busy);
}
supervise-IsSoundProgress config (round ∷ rounds) s sound busy =
    elim (Bool-cases (finished (step config round s).0)) [
      | inl over ↦ record {
        taken = round ∷ [];
        rest = rounds;
        split = refl;
        sound = step-IsSound config round s sound;
        stands = inr (finished-IsOver _ over, rw over (outcome-Returns (step config round s).0));
      }
      | inr on ↦
          let later =
            supervise-IsSoundProgress config rounds (step config round s).0
              (step-IsSound config round s sound) (finished-IsBusy _ on) in
          record {
            taken = round ∷ later.taken;
            rest = later.rest;
            split = ap (λ l. round ∷ l) later.split;
            sound = later.sound;
            stands = rw on later.stands;
          }
    ]

-- Whatever the system calls return, the state that the rounds lead to from the start has at most
-- `config.workers` children, in the order of their pids with no pid twice, drains if an error of
-- `poll` is on record, and has a count of failures that fits a u32. If the loop is still running, it
-- has taken all the rounds, and that state does not drain or has a child left. If it is over, it has
-- taken a first part of the rounds, to a state that drains with no child left, and the result is the
-- error on record there, or none.
pub supervise-IsSound :
    (config : Config) (rounds : List Round) (now : ℕ)
    → IsSoundProgress config rounds (start now) (supervise config rounds (start now)).0
unfolding start
supervise-IsSound config rounds now =
    supervise-IsSoundProgress config rounds (start now) (start-IsSound config now) (inl refl)
