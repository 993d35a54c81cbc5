-- ===== src/Futures.antt =====
-- src/futures/map.rs and src/futures/then.rs. `poll` returns the answer and the future after it; a
-- panic is `none`.
pub mod Ready
mod Tests
use tcio.Base.{ℕ, Option, none, some}
use tcio.Io.{Poll, ready, pending}

-- The trait `Future` for `F` with the output `A`.
pub record Future (F A : Type 0) : Type 0 where
  pub poll : F → Option (Poll A × F)

pub record Map (F A O : Type 0) : Type 0 where
  pub f : F
  pub map : Option (A → O)

-- `map`
abbrev pub map_future : {F A O : Type 0} → F → (A → O) → Map F A O
map_future f g = record { f = f; map = some g }

-- `map.take().expect("poll after complete")(ok)`
abbrev pub complete : {F A O : Type 0} → Option (A → O) → A → F → Option (Poll O × Map F A O)
complete none a f = none
complete (some g) a f = some (ready (g a), record { f = f; map = none })

abbrev pub map_answer :
    {F A O : Type 0} → Option (A → O) → Option (Poll A × F) → Option (Poll O × Map F A O)
map_answer map none = none
map_answer map (some (ready a, f)) = complete map a f
map_answer map (some (pending, f)) = some (pending, record { f = f; map = map })

abbrev pub poll_map : {F A O : Type 0} → Future F A → Future (Map F A O) O
poll_map P = record { poll = λ me. map_answer me.map (P.poll me.f) }

pub data Phase (F G : Type 0) : Type 0 where
  first : F → Phase F G
  second : G → Phase F G

pub record Then (F A G : Type 0) : Type 0 where
  pub phase : Phase F G
  pub map : Option (A → G)

-- `then`
abbrev pub then_future : {F A G : Type 0} → F → (A → G) → Then F A G
then_future f g = record { phase = first f; map = some g }

module _ {F A G B : Type 0} where
  abbrev pub second_answer : Option (A → G) → Option (Poll B × G) → Option (Poll B × Then F A G)
  second_answer map none = none
  second_answer map (some (r, g)) = some (r, record { phase = second g; map = map })

  module _ (Q : Future G B) where
    -- The second future is polled in the call in which the first one completes.
    abbrev pub switch : Option (A → G) → A → Option (Poll B × Then F A G)
    switch none a = none
    switch (some m) a = second_answer none (Q.poll (m a))

    abbrev pub first_answer : Option (A → G) → Option (Poll A × F) → Option (Poll B × Then F A G)
    first_answer map none = none
    first_answer map (some (ready a, f)) = switch map a
    first_answer map (some (pending, f)) = some (pending, record { phase = first f; map = map })

    abbrev pub poll_then : Future F A → Future (Then F A G) B
    poll_then P = record {
      poll = λ me. elim me.phase [
        | first f ↦ first_answer me.map (P.poll f)
        | second g ↦ second_answer me.map (Q.poll g)
      ];
    }
