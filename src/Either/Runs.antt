-- ===== src/Either/Runs.antt =====
-- The futures and iterators of src/either over whole runs.
use tcio.Base.{ℕ, ◌≡◌, ap, some, none, List, [], ◌∷◌}
use tcio.Futures.{Future}
use tcio.Futures.Ready.{ReadyAfter, now, later}
use tcio.Either.{
  EitherMap, Iter, either_map_future, either_map_iter, poll_state, poll_answer, next_state,
  map_item,
}

-- The iterator yields the items of the list and then ends.
pub data Yields {S A : Type 0} (P : Iter S A) : List A → S → Type 0 where
  stop : {s s' : S} → P.next s ≡ (none, s') → Yields P [] s
  more :
      {s s' : S} {a : A} {xs : List A}
      → P.next s ≡ (some a, s')
      → Yields P xs s'
      → Yields P (a ∷ xs) s

abbrev pub map : {A B : Type 0} → (A → B) → List A → List B
map f [] = []
map f (x ∷ xs) = f x ∷ map f xs

module _ {L R A B : Type 0} where
  module _ (P : Iter L A) (Q : Iter R B) where
    left-Yields :
        {xs : List A} {l : L}
        → Yields P xs l
        → Yields (either_map_iter P Q) (map EitherMap.left xs) (EitherMap.left l)
    left-Yields (stop e) = stop (ap (λ r. next_state EitherMap.left (map_item EitherMap.left r)) e)
    left-Yields (more e y) =
        more (ap (λ r. next_state EitherMap.left (map_item EitherMap.left r)) e) (left-Yields y)

    right-Yields :
        {xs : List B} {r : R}
        → Yields Q xs r
        → Yields (either_map_iter P Q) (map EitherMap.right xs) (EitherMap.right r)
    right-Yields (stop e) =
        stop (ap (λ r. next_state EitherMap.right (map_item EitherMap.right r)) e)
    right-Yields (more e y) =
        more (ap (λ r. next_state EitherMap.right (map_item EitherMap.right r)) e) (right-Yields y)

    -- If two iterators yield two lists, `EitherMap` of either yields the list of that one with each
    -- item on that side, and ends where it ends.
    either_map_iter-Yields :
        {xs : List A} {ys : List B} {l : L} {r : R}
        → Yields P xs l
        → Yields Q ys r
        → Yields (either_map_iter P Q) (map EitherMap.left xs) (EitherMap.left l)
          × Yields (either_map_iter P Q) (map EitherMap.right ys) (EitherMap.right r)
    either_map_iter-Yields p q = (left-Yields p, right-Yields q)

  module _ (P : Future L A) (Q : Future R B) where
    left-ReadyAfter :
        {n : ℕ} {l : L} {a : A}
        → ReadyAfter P n l a
        → ReadyAfter (either_map_future P Q) n (EitherMap.left l) (EitherMap.left a)
    left-ReadyAfter (now e) =
        now (ap (λ r. poll_state EitherMap.left (poll_answer EitherMap.left r)) e)
    left-ReadyAfter (later e y) =
        later (ap (λ r. poll_state EitherMap.left (poll_answer EitherMap.left r)) e)
          (left-ReadyAfter y)

    right-ReadyAfter :
        {n : ℕ} {r : R} {b : B}
        → ReadyAfter Q n r b
        → ReadyAfter (either_map_future P Q) n (EitherMap.right r) (EitherMap.right b)
    right-ReadyAfter (now e) =
        now (ap (λ r. poll_state EitherMap.right (poll_answer EitherMap.right r)) e)
    right-ReadyAfter (later e y) =
        later (ap (λ r. poll_state EitherMap.right (poll_answer EitherMap.right r)) e)
          (right-ReadyAfter y)

    -- A future of one side completes at the poll at which that side does, with its output on that side.
    either_map_future-ReadyAfter :
        {n k : ℕ} {l : L} {r : R} {a : A} {b : B}
        → ReadyAfter P n l a
        → ReadyAfter Q k r b
        → ReadyAfter (either_map_future P Q) n (EitherMap.left l) (EitherMap.left a)
          × ReadyAfter (either_map_future P Q) k (EitherMap.right r) (EitherMap.right b)
    either_map_future-ReadyAfter p q = (left-ReadyAfter p, right-ReadyAfter q)
