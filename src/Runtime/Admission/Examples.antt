-- ===== src/Runtime/Admission/Examples.antt =====
-- A bound of one message.
use lean_rust.Prelude.{[], arith}
use lean_rust.Runtime.Admission.{new as new_admission}
use lean_rust.Runtime.Admission.Ledger.{
  Ingress, Balanced, admit, admits, try_admit-Balanced, stays, steps,
}

-- Peer 4 sends two messages.
abbrev quiet : Ingress
quiet = record { admission = new_admission (record { max_in_flight_per_peer = 1 }); guards = [] }

try_admit-Balanced_example : Balanced 1 (admit (admit quiet 4) 4)
try_admit-Balanced_example =
    try_admit-Balanced (record { max_in_flight_per_peer = 1 }) (admit (admit quiet 4) 4)
      (omega arith)
      (steps _ _ _ (steps _ _ _ (stays quiet) (admits quiet 4)) (admits (admit quiet 4) 4))
