-- ===== src/Futures/Ready.antt =====
-- When the futures of src/futures complete.
use tcio.Base.{ℕ, suc, ◌+◌, ◌≡◌, ap, ◌∙◌, some, none, arith}
use tcio.Io.{ready, pending}
use tcio.Futures.{
  Future, map_future, poll_map, second, then_future, poll_then, second_answer, map_answer,
  first_answer,
}

-- The future is not ready `n` times, and then completes with `a`.
pub data ReadyAfter {F A : Type 0} (P : Future F A) : (n : ℕ) → F → A → Type 0 where
  now : {f f' : F} {a : A} → P.poll f ≡ some (ready a, f') → ReadyAfter P 0 f a
  later :
      {n : ℕ} {f f' : F} {a : A}
      → P.poll f ≡ some (pending, f')
      → ReadyAfter P n f' a
      → ReadyAfter P (suc n) f a

-- If a future completes after `n` polls that were pending, so does `map` of it, with the mapped
-- output.
map-ReadyAfter :
    {F A O : Type 0} (P : Future F A) (g : A → O) {n : ℕ} {f : F} {a : A}
    → ReadyAfter P n f a
    → ReadyAfter (poll_map P) n (map_future f g) (g a)
map-ReadyAfter P g (now e) = now (ap (map_answer (some g)) e)
map-ReadyAfter P g (later e r) = later (ap (map_answer (some g)) e) (map-ReadyAfter P g r)

module _ {F A G B : Type 0} (P : Future F A) (Q : Future G B) where
  second-ReadyAfter :
      {n : ℕ} {g : G} {b : B}
      → ReadyAfter Q n g b
      → ReadyAfter (poll_then Q P) n (record { phase = second g; map = none }) b
  second-ReadyAfter (now e) = now (ap (second_answer none) e)
  second-ReadyAfter (later e r) = later (ap (second_answer none) e) (second-ReadyAfter r)

  -- The poll in which the first future completes.
  switched :
      {n : ℕ} {f f' : F} {a : A} {b : B} (m : A → G)
      → P.poll f ≡ some (ready a, f')
      → ReadyAfter Q n (m a) b
      → ReadyAfter (poll_then Q P) n (then_future f m) b
  switched m e (now q) = now (ap (first_answer Q (some m)) e ∙ ap (second_answer none) q)
  switched m e (later q r) =
      later (ap (first_answer Q (some m)) e ∙ ap (second_answer none) q) (second-ReadyAfter r)

  -- If the first future completes after `n` polls that were pending, and the one made of its output
  -- after `k`, then `then` completes after `n + k` with the output of the second: no poll is lost
  -- between the two.
  pub then-ReadyAfter :
      {n k : ℕ} {f : F} {a : A} {b : B} (m : A → G)
      → ReadyAfter P n f a
      → ReadyAfter Q k (m a) b
      → ReadyAfter (poll_then Q P) (n + k) (then_future f m) b
  then-ReadyAfter {k = k} m (now e) r = let z : 0 + k ≡ k = omega arith in rw z (switched m e r)
  then-ReadyAfter {k = k} m (later {n = n} e s) r =
      let z : suc n + k ≡ suc (n + k) = omega arith in
      rw z (later (ap (first_answer Q (some m)) e) (then-ReadyAfter m s r))
