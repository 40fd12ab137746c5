-- ===== src/Manager/Run/Panics.antt =====
-- src/manager.rs: the panics of `run`.
use polychrome_php.Prelude.{
  ◌≡◌, refl, ◌≢◌, inl, inr, false, List, [], ◌∷◌, none, ok, any, arith, All,
}
use polychrome_php.Bytes.{Bytes}
use polychrome_php.Config.{Config, Host, serve, parse}
use polychrome_php.Config.Defines.{IsDefine, StaysOnLine}
use polychrome_php.Config.Accepts.{IsAccepted, parse-IsAccepted}
use polychrome_php.Manager.Run.{Calls, panics, Outcome, has_nul, run}
use polychrome_php.Manager.Run.Laws.{
  PanicCause, Course, panicked, early, no_signals, not_initialized, not_alone, not_bound, served,
  serving, run-Course,
}

has_nul-line : (s : Bytes) → All StaysOnLine s → has_nul s ≡ false
unfolding has_nul
has_nul-line [] h = refl
has_nul-line (c ∷ s) h = ground (arith, has_nul-line s h.1)

any-has_nul : (defines : List Bytes) → All IsDefine defines → any has_nul defines ≡ false
any-has_nul [] h = refl
any-has_nul (d ∷ ds) h = ground (arith, has_nul-line d h.0.one_line, any-has_nul ds h.1)

no_cause :
    {Fs : Type 0} (host : Host) (config : Config) (calls : Calls Fs)
    → IsAccepted host config
    → ((exe : Bytes) → calls.current_exe ≡ ok exe → calls.parent exe ≢ none)
    → ¬ PanicCause config calls
no_cause host config calls accepted rooted (inl nul) =
    ground (arith, any-has_nul config.defines accepted.checked.defines)
no_cause host config calls accepted rooted (inr (exe, own, none_)) = rooted exe own none_

Course-panics :
    {Fs : Type 0} (config : Config) (calls : Calls Fs) (o : Outcome Fs)
    → Course config calls o
    → o.ending ≡ panics
    → PanicCause config calls
Course-panics config calls o (panicked cause _ _) h = cause
Course-panics config calls o (early e r _) h = cc
Course-panics config calls o (no_signals e r _) h = cc
Course-panics config calls o (not_initialized helper e _ r _) h = cc
Course-panics config calls o (not_alone helper e _ r _) h = cc
Course-panics config calls o (not_bound helper e _ _ r _) h = cc
Course-panics config calls o (served helper q _ _ _ r _) h = cc
Course-panics config calls o (serving helper _ _ r _) h = cc

-- `run` never panics on a configuration that `parse` has returned, whatever the system and the
-- native code answer, where the path of the running program, if it is known, has a parent.
pub run-parse :
    {Fs : Type 0} (host : Host) (args : List Bytes) (config : Config) (calls : Calls Fs) (fs : Fs)
    → parse host args ≡ ok (serve config)
    → ((exe : Bytes) → calls.current_exe ≡ ok exe → calls.parent exe ≢ none)
    → (run config calls fs).ending ≢ panics
run-parse host args config calls fs parsed rooted h =
    no_cause host config calls (parse-IsAccepted host args config parsed) rooted
      (Course-panics config calls (run config calls fs) (run-Course config calls fs) h)
