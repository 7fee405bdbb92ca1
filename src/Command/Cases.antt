-- ===== src/Command/Cases.antt =====
-- Case rules for what the helper and the executor answer (internal/command/service.go).
use cockpit_slurm.Base.{String, ◌≡◌, refl, ◌⊎◌, inl, inr, Bool, List}
use cockpit_slurm.NodeHelper.Scontrol.{HelperResult, HelperError}
use cockpit_slurm.Command.World.{Outcome, execution_ok, execution_error}

pub Outcome-cases : (o : Outcome) → (o ≡ execution_ok) ⊎ ((b : Bool) × (o ≡ execution_error b))
Outcome-cases execution_ok = inl refl
Outcome-cases (execution_error b) = inr (b, refl)

pub Helper-cases :
    (r : HelperResult (List String))
    → ((args : List String) × (r ≡ HelperResult.ok args))
      ⊎ ((e : HelperError) × (r ≡ HelperResult.err e))
Helper-cases (HelperResult.ok args) = inl (args, refl)
Helper-cases (HelperResult.err e) = inr (e, refl)
