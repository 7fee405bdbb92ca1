-- ===== src/Tests/Channel.antt =====
-- Two reads and the end of the input (internal/channel/channel_test.go).
use cockpit_slurm.Channel.Transport.{read_result}
use cockpit_slurm.Channel.Transport.{after_read}
use cockpit_slurm.Channel.Transport.{copy_round}
use cockpit_slurm.Base.{◌≡◌, refl, false, none, some, List, [], ◌∷◌}
use cockpit_slurm.Channel.Transport.{Round, Wires, new_channel, wrote, eof, copy_loop, finished}
use cockpit_slurm.Channel.Forwarding.{Forwards, received, copy-Forwards}

abbrev rounds : List Round
rounds =
    record { closed_by_then = false; read = 1 ∷ 2 ∷ []; error = none; write = wrote }
    ∷ record { closed_by_then = false; read = 3 ∷ []; error = some eof; write = wrote }
    ∷ []

copied : copy_loop rounds ≡ (1 ∷ 2 ∷ 3 ∷ [], finished)
unfolding copy_loop copy_round after_read read_result
copied = refl

copy-Forwards_example : Forwards (received rounds) (copy_loop rounds)
copy-Forwards_example = copy-Forwards rounds

abbrev wires : Wires
wires = record { cockpit_closed = false; bridge_closed = false; channel = new_channel }
