-- ===== src/Either.antt =====
-- src/either/either.rs and src/either/either_map.rs: one of two values that implement one trait. The
-- traits are those with a state: `Future` and `Iterator`.
pub mod Runs
use tcio.Base.{ℕ, Option, none, some}
use tcio.Io.{Poll, ready, pending}
use tcio.Futures.{Future}

pub data Either (L R : Type 0) : Type 0 where
  left : L → Either L R
  right : R → Either L R

pub data EitherMap (L R : Type 0) : Type 0 where
  left : L → EitherMap L R
  right : R → EitherMap L R

-- `From<Either> for EitherMap` and `From<EitherMap> for Either`
pub to_map : {L R : Type 0} → Either L R → EitherMap L R
to_map (left l) = left l
to_map (right r) = right r

pub from_map : {L R : Type 0} → EitherMap L R → Either L R
from_map (left l) = left l
from_map (right r) = right r

-- `Iterator`
pub record Iter (S A : Type 0) : Type 0 where
  pub next : S → Option A × S

module _ {A B T : Type 0} where
  -- What the call on one side returns, seen from the other type.
  abbrev pub poll_answer : (A → B) → Option (Poll A × T) → Option (Poll B × T)
  poll_answer f none = none
  poll_answer f (some (ready a, t)) = some (ready (f a), t)
  poll_answer f (some (pending, t)) = some (pending, t)

module _ {A T U : Type 0} where
  abbrev pub poll_state : (T → U) → Option (Poll A × T) → Option (Poll A × U)
  poll_state f none = none
  poll_state f (some (r, t)) = some (r, f t)

  abbrev pub next_state : (T → U) → Option A × T → Option A × U
  next_state f (a, t) = (a, f t)

abbrev pub map_item : {A B T : Type 0} → (A → B) → Option A × T → Option B × T
map_item f (none, t) = (none, t)
map_item f (some a, t) = (some (f a), t)

module _ {L R A : Type 0} where
  -- `Future for Either` and `Iterator for Either`: the two outputs are of one type.
  abbrev pub either_future : Future L A → Future R A → Future (Either L R) A
  either_future P Q = record {
    poll = λ me. elim me [
      | left l ↦ poll_state Either.left (P.poll l)
      | right r ↦ poll_state Either.right (Q.poll r)
    ];
  }

  abbrev pub either_iter : Iter L A → Iter R A → Iter (Either L R) A
  either_iter P Q = record {
    next = λ me. elim me [
      | left l ↦ next_state Either.left (P.next l)
      | right r ↦ next_state Either.right (Q.next r)
    ];
  }

module _ {L R A B : Type 0} where
  -- `Future for EitherMap` and `Iterator for EitherMap`.
  abbrev pub either_map_future : Future L A → Future R B → Future (EitherMap L R) (EitherMap A B)
  either_map_future P Q = record {
    poll = λ me. elim me [
      | left l ↦ poll_state EitherMap.left (poll_answer EitherMap.left (P.poll l))
      | right r ↦ poll_state EitherMap.right (poll_answer EitherMap.right (Q.poll r))
    ];
  }

  abbrev pub either_map_iter : Iter L A → Iter R B → Iter (EitherMap L R) (EitherMap A B)
  either_map_iter P Q = record {
    next = λ me. elim me [
      | left l ↦ next_state EitherMap.left (map_item EitherMap.left (P.next l))
      | right r ↦ next_state EitherMap.right (map_item EitherMap.right (Q.next r))
    ];
  }
