-- ===== src/Ledger/Status.antt =====
-- The states of a command record and the transitions between them (internal/ledger/ledger.go,
-- `Status` and `allowedTransition`).
use cockpit_slurm.Base.{◌≡◌, ◌↔◌, Bool, true, false, ◌||◌, Eq, ◌==◌, arith}

pub data Status : Type 0 where
  authorization_pending authorization_uncertain authorization_failed : Status
  accepted running succeeded failed denied unknown : Status

pub Status-discrete : Discrete Status
Status-discrete = hlevel

unfoldable pub same_status : Status → Status → Bool
same_status authorization_pending authorization_pending = true
same_status authorization_uncertain authorization_uncertain = true
same_status authorization_failed authorization_failed = true
same_status accepted accepted = true
same_status running running = true
same_status succeeded succeeded = true
same_status failed failed = true
same_status denied denied = true
same_status unknown unknown = true
same_status _ _ = false

pub same_status_iff : (a b : Status) → (same_status a b ≡ true) ↔ (a ≡ b)
unfolding same_status
same_status_iff a b = ground arith

instance abbrev pub status_eq : Eq Status
status_eq = record { test = same_status; test_iff = same_status_iff }

unfoldable pub allowed_transition : Status → Status → Bool
unfolding same_status
allowed_transition authorization_pending to =
    to == accepted
    || (to == denied || (to == authorization_failed || to == authorization_uncertain))
allowed_transition accepted to = to == running || to == authorization_uncertain
allowed_transition running to = to == succeeded || (to == failed || to == unknown)
allowed_transition _ to = false
