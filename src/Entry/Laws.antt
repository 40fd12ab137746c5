-- ===== src/Entry/Laws.antt =====
-- src/lib.rs: what the exit statuses mean.
use polychrome_php.Prelude.{
  ℕ, ◌≡◌, refl, ◌≢◌, ◌↔◌, ◌⊎◌, inl, inr, List, Option, some, Result, ok, err, arith, subst, sym,
}
use polychrome_php.Bytes.{Bytes}
use polychrome_php.Config.{Config, Command, help, version, serve, Host, Error, parse}
use polychrome_php.Manager.Run.{Calls, Ending, returns, panics, serves, run}
use polychrome_php.Entry.{exit_of, main_of, polychrome_main}

abbrev pub RunOk : {Fs : Type 0} → Config → Calls Fs → Fs → Type 0
RunOk config calls fs = (run config calls fs).ending ≡ returns (ok tt)

abbrev pub RunFailed : {Fs : Type 0} → Config → Calls Fs → Fs → Type 0
RunFailed config calls fs = (e : Bytes) × ((run config calls fs).ending ≡ returns (err e))

exit_of-status :
    (end : Ending)
    → ((exit_of end).status ≢ some 2)
      × ((exit_of end).status ≡ some 1 → (e : Bytes) × (end ≡ returns (err e)))
      × ((exit_of end).status ≡ some 0 → end ≡ returns (ok tt))
unfolding exit_of
exit_of-status (returns (ok u)) = (λ h. cc, λ h. cc, λ h. refl)
exit_of-status (returns (err e)) = (λ h. cc, λ h. (e, refl), λ h. cc)
exit_of-status panics = (λ h. cc, λ h. cc, λ h. cc)
exit_of-status serves = (λ h. cc, λ h. cc, λ h. cc)

exit_of-err : (end : Ending) (e : Bytes) → end ≡ returns (err e) → (exit_of end).status ≡ some 1
unfolding exit_of
exit_of-err end e h = rw h

exit_of-ok : (end : Ending) → end ≡ returns (ok tt) → (exit_of end).status ≡ some 0
unfolding exit_of
exit_of-ok end h = rw h

serve-injective :
    (c d : Config) → ◌≡◌ {A = Result Error Command} (ok (serve c)) (ok (serve d)) → c ≡ d
serve-injective c d h = cc

served_ok :
    {Fs : Type 0} (calls : Calls Fs) (fs : Fs) (c : Config)
    → ◌≡◌ {A = Result Error Command} (ok (serve c)) (ok help)
      ⊎ ◌≡◌ {A = Result Error Command} (ok (serve c)) (ok version)
      ⊎ ((d : Config) × (◌≡◌ {A = Result Error Command} (ok (serve c)) (ok (serve d)))
          × RunOk d calls fs)
    → (exit_of (run c calls fs).ending).status ≡ some 0
served_ok calls fs c (inl h) = cc
served_ok calls fs c (inr (inl h)) = cc
served_ok calls fs c (inr (inr (d, same, ran))) =
    exit_of-ok _
      (subst (λ x. (run x calls fs).ending ≡ returns (ok tt)) (sym (serve-injective c d same)) ran)

-- What a status says of the command line and of the run.
pub record StatusMeans {Fs : Type 0} (calls : Calls Fs) (fs : Fs) (parsed : Result Error Command)
    (status : Option ℕ) : Type 0 where
  pub usage : (status ≡ some 2) ↔ ((e : Error) × (parsed ≡ err e))
  pub failure : (status ≡ some 1) ↔ ((c : Config) × (parsed ≡ ok (serve c)) × RunFailed c calls fs)
  pub success : (status ≡ some 0) ↔ (
      (parsed ≡ ok help)
      ⊎ (parsed ≡ ok version)
      ⊎ ((c : Config) × (parsed ≡ ok (serve c)) × RunOk c calls fs))

main_of-StatusMeans :
    {Fs : Type 0} (calls : Calls Fs) (fs : Fs) (parsed : Result Error Command)
    → StatusMeans calls fs parsed (main_of calls fs parsed).status
unfolding main_of
main_of-StatusMeans calls fs (err e) = record {
  usage = (λ _. (e, refl), λ _. refl);
  failure = (λ h. cc, λ h. cc h.1);
  success = (λ h. cc, λ h. ground (arith, h));
}
main_of-StatusMeans calls fs (ok help) = record {
  usage = (λ h. cc, λ h. cc h.1);
  failure = (λ h. cc, λ h. ground (arith, h.1));
  success = (λ _. inl refl, λ _. refl);
}
main_of-StatusMeans calls fs (ok version) = record {
  usage = (λ h. cc, λ h. cc h.1);
  failure = (λ h. cc, λ h. ground (arith, h.1));
  success = (λ _. inr (inl refl), λ _. refl);
}
main_of-StatusMeans calls fs (ok (serve c)) = record {
  usage = (λ h. absurd ((exit_of-status _).0 h), λ h. cc h.1);
  failure = (
    λ h. (c, refl, (exit_of-status _).1 h),
    λ (d, same, failed). exit_of-err _ failed.0 (
        subst (λ x. (run x calls fs).ending ≡ returns (err failed.0))
          (sym (serve-injective c d same)) failed.1),
  );
  success = (λ h. inr (inr (c, refl, (exit_of-status _).2 h)), served_ok calls fs c);
}

-- Exit status 2 means that the command line was refused, 1 that `run` returned an error, and 0 that
-- help or the version was asked for, or that `run` returned with no error; each in both directions.
pub polychrome_main-status :
    {Fs : Type 0} (calls : Calls Fs) (fs : Fs) (host : Host) (args : List Bytes)
    → StatusMeans calls fs (parse host args) (polychrome_main calls fs host args).status
unfolding polychrome_main
polychrome_main-status calls fs host args = main_of-StatusMeans calls fs (parse host args)
