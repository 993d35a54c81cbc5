-- ===== src/Futures/Tests.antt =====
-- The futures of src/futures on a countdown.
use tcio.Base.{ℕ, zero, suc, refl, some}
use tcio.Io.{ready, pending}
use tcio.Futures.{Future, poll_then, then_future}
use tcio.Futures.Ready.{ReadyAfter, now, later, then-ReadyAfter}

-- Completes with 7 once it has counted down to 0.
abbrev countdown : Future ℕ ℕ
countdown = record {
  poll = λ n. elim n [ zero ↦ some (ready 7, zero) | suc k ↦ some (pending, k) ];
}

counted : ReadyAfter countdown 2 2 7
counted = later refl (later refl (now refl))

then-ReadyAfter_example : ReadyAfter (poll_then countdown countdown) 3 (then_future 2 (λ a. 1)) 7
then-ReadyAfter_example =
    then-ReadyAfter countdown countdown (λ a. 1) counted (later refl (now refl))
