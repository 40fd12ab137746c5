-- ===== src/Manager/Run/Laws.antt =====
-- src/manager.rs: what `run` does on all of its ways out.
use polychrome_php.Prelude.{
  ℕ, ◌≡◌, refl, ap, ◌≢◌, ◌⊎◌, inl, inr, true, not, List, [], ◌∷◌, ◌++◌, Option, none, some, Result,
  ok, err, any, arith, Bool-cases, if_cases, Result-cases, ◌==◌,
}
use polychrome_php.Bytes.{Bytes}
use polychrome_php.Config.{Config}
use polychrome_php.Manager.Listener.{Listener, bind}
use polychrome_php.Manager.Signals.{signal_fd}
use polychrome_php.Manager.Supervise.{Progress, running, done, start, supervise}
use polychrome_php.Manager.Run.{
  Calls, Act, changes_dir, initializes, binds, supervises, drops_listener, shuts_down, Ending,
  returns, panics, serves, Outcome, has_nul, ini_has_nul, supervised, bound, alone, then_shutdown,
  initialized, with_signals, in_root, enter, found_helper, locate, preloading, run,
}
use polychrome_php.Manager.Run

module _ {Fs : Type 0} (config : Config) (calls : Calls Fs) where
  abbrev initializing : Option Bytes → Act
  initializing helper = initializes config.root config.ini config.defines helper

  abbrev status : Option Bytes → ℕ
  status helper = calls.initialize config.root config.ini config.defines helper

  -- What the closure comes to, without the shutdown behind it.
  data Inner (o : Outcome Fs) : Type 0 where
    alone_failed : (e : Bytes) → o.ending ≡ returns (err e) → o.acts ≡ [] → Inner o
    bind_failed :
        (e : Bytes)
        → calls.task_count ≡ ok 1
        → o.ending ≡ returns (err e)
        → o.acts ≡ binds config.listen ∷ []
        → Inner o
    ended :
        (r : Result Bytes (Unit {0}))
        → calls.task_count ≡ ok 1
        → (supervise config calls.rounds (start calls.now)).0 ≡ done r
        → o.ending ≡ returns r
        → o.acts ≡ binds config.listen ∷ supervises ∷ drops_listener ∷ []
        → Inner o
    goes_on :
        calls.task_count ≡ ok 1
        → o.ending ≡ serves
        → o.acts ≡ binds config.listen ∷ supervises ∷ []
        → Inner o

  supervised_lem :
      (l : Listener) (fs : Fs) (p : Progress)
      → ((r : Result Bytes (Unit {0})) × (p ≡ done r)
          × ((supervised config calls l fs p).ending ≡ returns r)
          × ((supervised config calls l fs p).acts ≡ drops_listener ∷ []))
        ⊎ (((supervised config calls l fs p).ending ≡ serves)
            × ((supervised config calls l fs p).acts ≡ []))
  unfolding supervised
  supervised_lem l fs (running s) = inr (refl, refl)
  supervised_lem l fs (done r) = inl (r, refl, refl, refl)

  alone-Inner :
      (tasks : Result Bytes ℕ) (fs : Fs)
      → calls.task_count ≡ tasks
      → Inner (alone config calls tasks fs)
  unfolding alone bound
  alone-Inner (err e) fs same = alone_failed e refl refl
  alone-Inner (ok tasks) fs same = elim (Bool-cases (tasks == 1)) [
    | inr other ↦ rw other (alone_failed _ refl refl)
    | inl one ↦
        let only : calls.task_count ≡ ok 1 = ground arith in
        elim (Result-cases (bind calls.files config.listen fs).0) [
          | inr (x, e) ↦ rw (one, e, bound) (bind_failed _ only refl refl)
          | inl (l, e) ↦
              elim (supervised_lem l (calls.meanwhile (bind calls.files config.listen fs).1)
                (supervise config calls.rounds (start calls.now)).0) [
                  | inl (r, over, ending, acts) ↦
                      rw (one, e, bound)
                        (ended r only over ending
                          (ap (λ rest. binds config.listen ∷ supervises ∷ rest) acts))
                  | inr (ending, acts) ↦
                      rw (one, e, bound)
                        (goes_on only ending
                          (ap (λ rest. binds config.listen ∷ supervises ∷ rest) acts))
                ]
        ]
  ]

  -- Why `run` panics: `unwrap` on an override that holds a NUL, or on the parent of the program's path.
  abbrev pub PanicCause : Type 0
  PanicCause =
      (any has_nul config.defines ≡ true)
      ⊎ ((exe : Bytes) × (calls.current_exe ≡ ok exe) × (calls.parent exe ≡ none))

  -- All the ways through `run`.
  pub data Course (o : Outcome Fs) : Type 0 where
    panicked : PanicCause → o.ending ≡ panics → o.acts ≡ [] → Course o
    early : (e : Bytes) → o.ending ≡ returns (err e) → o.acts ≡ [] → Course o
    no_signals :
        (e : Bytes) → o.ending ≡ returns (err e) → o.acts ≡ changes_dir config.root ∷ [] → Course o
    not_initialized :
        (helper : Option Bytes) (e : Bytes)
        → status helper ≢ 0
        → o.ending ≡ returns (err e)
        → o.acts ≡ changes_dir config.root ∷ initializing helper ∷ []
        → Course o
    not_alone :
        (helper : Option Bytes) (e : Bytes)
        → status helper ≡ 0
        → o.ending ≡ returns (err e)
        → o.acts ≡ changes_dir config.root ∷ initializing helper ∷ shuts_down ∷ []
        → Course o
    not_bound :
        (helper : Option Bytes) (e : Bytes)
        → status helper ≡ 0
        → calls.task_count ≡ ok 1
        → o.ending ≡ returns (err e)
        → o.acts
          ≡ changes_dir config.root ∷ initializing helper ∷ binds config.listen ∷ shuts_down ∷ []
        → Course o
    served :
        (helper : Option Bytes) (r : Result Bytes (Unit {0}))
        → status helper ≡ 0
        → calls.task_count ≡ ok 1
        → (supervise config calls.rounds (start calls.now)).0 ≡ done r
        → o.ending ≡ returns r
        → o.acts
          ≡ changes_dir config.root
            ∷ initializing helper
            ∷ binds config.listen
            ∷ supervises
            ∷ drops_listener
            ∷ shuts_down
            ∷ []
        → Course o
    serving :
        (helper : Option Bytes)
        → status helper ≡ 0
        → calls.task_count ≡ ok 1
        → o.ending ≡ serves
        → o.acts
          ≡ changes_dir config.root ∷ initializing helper ∷ binds config.listen ∷ supervises ∷ []
        → Course o

  -- The outcome with the acts before it.
  abbrev prefixed : List Act → Outcome Fs → Outcome Fs
  prefixed acts o = record o { acts = acts ++ o.acts }

  abbrev opening : Option Bytes → List Act
  opening helper = changes_dir config.root ∷ initializing helper ∷ []

  shut-Course :
      (helper : Option Bytes) (o : Outcome Fs)
      → status helper ≡ 0
      → Inner o
      → Course (prefixed (opening helper) (then_shutdown config calls o.ending o))
  unfolding then_shutdown
  shut-Course helper o started (alone_failed e ending acts) =
      rw (ending, then_shutdown) (not_alone helper e started refl (rw acts))
  shut-Course helper o started (bind_failed e only ending acts) =
      rw (ending, then_shutdown) (not_bound helper e started only refl (rw acts))
  shut-Course helper o started (ended r only over ending acts) =
      rw (ending, then_shutdown) (served helper r started only over refl (rw acts))
  shut-Course helper o started (goes_on only ending acts) =
      rw (ending, then_shutdown) (serving helper started only refl (rw acts))

  enter-Course : (helper : Option Bytes) (fs : Fs) → Course (enter config calls helper fs)
  unfolding enter in_root with_signals initialized Run.serve
  enter-Course helper fs = elim (Result-cases (calls.set_current_dir config.root)) [
    | inr (x, e) ↦ rw (e, in_root) (early x refl refl)
    | inl (u, e) ↦ elim (Result-cases (signal_fd calls.signals)) [
      | inr (x, f) ↦ rw (e, in_root, f, with_signals) (no_signals _ refl refl)
      | inl (fd, f) ↦ elim (Bool-cases (status helper == 0)) [
        | inr bad ↦
            rw (e, in_root, f, with_signals, bad)
              (not_initialized helper _ (ground arith) refl refl)
        | inl good ↦
            rw (e, in_root, f, with_signals, good)
              (shut-Course helper (alone config calls calls.task_count fs) (ground arith)
                (alone-Inner calls.task_count fs refl))
      ]
    ]
  ]

  found_helper-Course : (r : Result Bytes Bytes) (fs : Fs) → Course (found_helper config calls r fs)
  unfolding found_helper
  found_helper-Course (err e) fs = early _ refl refl
  found_helper-Course (ok helper) fs = elim (Bool-cases (has_nul helper)) [
    | inl e ↦ rw e (early _ refl refl)
    | inr e ↦ rw e (enter-Course (some helper) fs)
  ]

  locate-Course :
      (exe : Bytes) (d : Option Bytes) (fs : Fs)
      → calls.current_exe ≡ ok exe
      → calls.parent exe ≡ d
      → Course (locate config calls d fs)
  unfolding locate
  locate-Course exe none fs e f = panicked (inr (exe, e, f)) refl refl
  locate-Course exe (some d) fs e f = found_helper-Course _ fs

  preloading-Course :
      (exe : Result Bytes Bytes) (fs : Fs)
      → calls.current_exe ≡ exe
      → Course (preloading config calls exe fs)
  unfolding preloading
  preloading-Course (err x) fs e = early x refl refl
  preloading-Course (ok exe) fs e = locate-Course exe (calls.parent exe) fs e refl

  -- Every run takes one of eight ways, with its steps in this order: the interpreter is shut down
  -- exactly if its initialization succeeded and `run` does not still serve, as the last step and once;
  -- a socket is bound only in a process of a single task with an initialized interpreter; a listener
  -- is dropped before the shutdown; and what `run` returns behind the loop is the loop's result. It
  -- panics only if an override holds a NUL or the program's path has no parent, before any step.
  pub run-Course : (fs : Fs) → Course (run config calls fs)
  unfolding run
  run-Course fs =
      if_cases Course (not calls.is_linux) _ _ (λ _. early _ refl refl)
        λ _.
          if_cases Course (has_nul config.root) _ _ (λ _. early _ refl refl)
            λ _.
              if_cases Course (ini_has_nul config.ini) _ _ (λ _. early _ refl refl)
                λ _.
                  if_cases Course (any has_nul config.defines) _ _ (λ e. panicked (inl e) refl refl)
                    λ _.
                      if_cases Course config.preload _ _
                        (λ _. preloading-Course calls.current_exe fs refl)
                        (λ _. enter-Course none fs)
