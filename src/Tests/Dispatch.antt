-- ===== src/Tests/Dispatch.antt =====
-- A message for an authenticated handler (internal/dispatcher/dispatcher.go).
use cockpit_slurm.Base.{ℕ, suc, String, []}
use cockpit_slurm.Dispatch.Router.{AuthenticatedHandler, MessageDispatcher, Desk}

abbrev pub format : ℕ → String
format n = "MSG000001"

-- A handler that counts its calls and answers with the message.
abbrev pub echo : AuthenticatedHandler ℕ
echo user m n = (m, suc n)

abbrev pub none_registered : MessageDispatcher ℕ
none_registered = record { handlers = []; authenticated_handlers = [] }

abbrev pub desk : Desk ℕ
desk = record { counter = 0; state = 0 }
