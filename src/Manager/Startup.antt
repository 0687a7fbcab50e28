-- ===== src/Manager/Startup.antt =====
-- How the process starts and ends.
use rancher_operator.Common.{
  ℕ, suc, ◌≡◌, ◌⊎◌, inl, inr, refl, List, [], ◌∷◌, ◌++◌, Option, some, none, Error,
}
use rancher_operator.Common.Text.{codes}
use rancher_operator.Manager.{
  Flags, SetupStep, get_config_or_die, new_manager, setup_with_manager, add_healthz_check,
  add_readyz_check, start, manager_options, Ending, exit_1, if_err, main,
}

-- All that the process has to set up before it runs, newest step first: a manager with its options, on
-- it the three controllers and the two checks, and then its start.
abbrev pub all_steps : Flags → List SetupStep
all_steps flags =
    start
    ∷ add_readyz_check (codes "readyz")
    ∷ add_healthz_check (codes "healthz")
    ∷ setup_with_manager (codes "ranchermanager")
    ∷ setup_with_manager (codes "clusterprerequisites")
    ∷ setup_with_manager (codes "targetcluster")
    ∷ new_manager (manager_options flags)
    ∷ get_config_or_die
    ∷ []

-- The first `n` of them.
abbrev first_of : ℕ → List SetupStep → List SetupStep
first_of (suc n) (s ∷ steps) = s ∷ first_of n steps
first_of _ _ = []

module _ (answer : List SetupStep → SetupStep → Option Error) where
  -- Every step was answered with no error, in view of those before it.
  abbrev pub Succeeded : List SetupStep → Type 0
  Succeeded [] = Unit {0}
  Succeeded (s ∷ taken) = (answer taken s ≡ none) × Succeeded taken

  -- The step at which the process gave up, with those before it and those that it never took.
  pub record StopsAt (steps : List SetupStep) (ending : Ending) : Type 0 where
    pub before : List SetupStep
    pub failed_step : SetupStep
    pub left : List SetupStep
    pub error : Error
    pub split : steps ≡ left ++ (failed_step ∷ before)
    pub fine : Succeeded before
    pub failing : answer before failed_step ≡ some error
    pub ending_eq : ending ≡ record { taken = failed_step ∷ before; exit_code = 1 }

  abbrev pub Ends : List SetupStep → Ending → Type 0
  Ends steps ending =
      ((ending ≡ record { taken = steps; exit_code = 0 }) × Succeeded steps) ⊎ StopsAt steps ending

  -- One `if err != nil { os.Exit(1) }` on the way.
  if_err-Ends :
      (steps left taken : List SetupStep) (s : SetupStep) (going : Ending)
      → steps ≡ left ++ (s ∷ taken)
      → Succeeded taken
      → (Succeeded (s ∷ taken) → Ends steps going)
      → Ends steps (if_err (answer taken s) (exit_1 (s ∷ taken)) going)
  if_err-Ends steps left taken s going split fine later = by_answer (answer taken s) refl
    where
      by_answer :
          (o : Option Error) → answer taken s ≡ o → Ends steps (if_err o (exit_1 (s ∷ taken)) going)
      by_answer none h = later (h, fine)
      by_answer (some e) h = inr (record {
        before = taken;
        failed_step = s;
        left = left;
        error = e;
        split = split;
        fine = fine;
        failing = h;
        ending_eq = refl;
      })

  -- Either the process took every step of the start, in this order, each was answered with no error,
  -- and it ends with the code 0; or it took the steps up to the first that failed, no other, and ends
  -- with 1. The steps are: the configuration, the manager with the options of the flags, the
  -- controllers of TargetCluster, ClusterPrerequisites and RancherManager, the health check, the
  -- ready check, and the start.
  pub main-Ends : (flags : Flags) → Ends (all_steps flags) (main answer flags)
  unfolding main
  main-Ends flags =
      let rule = if_err-Ends (all_steps flags) in
      let left : ℕ → List SetupStep = λ n. first_of n (all_steps flags) in
      rule (left 7) _ _ _ refl tt λ a. rule (left 6) _ _ _ refl a λ b.
        rule (left 5) _ _ _ refl b λ c. rule (left 4) _ _ _ refl c λ d.
          rule (left 3) _ _ _ refl d λ e.
            rule (left 2) _ _ _ refl e
              λ f. rule (left 1) _ _ _ refl f λ g. rule (left 0) _ _ _ refl g λ h. inl (refl, h)
