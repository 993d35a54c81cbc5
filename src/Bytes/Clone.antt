-- ===== src/Bytes/Clone.antt =====
-- `clone` in src/bytes/bytes.rs.
use tcio.Base.{ℕ, ◌+◌, ◌-◌, ◌/◌, ◌%◌, ◌≤◌, ◌<◌, ◌≡◌, refl, List, arith, some, ◌≢◌}
use tcio.Memory.{Heap, ok, Ensures, IsFreshBox, set_box, Shared}
use tcio.Shared.Backed.{IsBuffer, Backed, owned, counted, refs, Unsaturated}
use tcio.Shared.Steps.{as_unpromoted-odd, as_unpromoted-even, increment-ok}
use tcio.Shared.{promote_with_vec}
use tcio.Bytes.{promote_ref, build_unpromoted_vec, Bytes, bytes, clone_inner, clone_inner_mut}
use tcio.Bytes.Valid.{IsBytes, static, backed, Standing}
use tcio.Shared.Keep.{Keeps, Keeps-new, Keeps-bump, Backed-promoted, Keeps-refl}
use tcio.Base.Words.{isize_max}

module _ (h : Heap) (k p n w : ℕ) where
  pub clone_inner-owned :
      w % 2 ≡ 1
      → clone_inner k w (bytes p n w) h
        ≡ ok
            (bytes p n k, bytes p n k)
            (set_box k (some (record { ref_count = 2; ptr = p - w / 2; cap = n + w / 2 })) h)
  unfolding clone_inner promote_ref promote_with_vec
  clone_inner-owned odd = ground (arith, as_unpromoted-odd h w odd)

  pub clone_inner-counted :
      {s : Shared}
      → w % 2 ≡ 0
      → 0 < w
      → h.boxes w ≡ some s
      → s.ref_count ≤ isize_max
      → clone_inner k w (bytes p n w) h
        ≡ ok
            (bytes p n w, bytes p n w)
            (set_box w (some (record s { ref_count = s.ref_count + 1 })) h)
  unfolding clone_inner
  clone_inner-counted even pos box le =
      ground (arith, as_unpromoted-even h w even box, increment-ok h w box le)

-- What a clone of `b` leaves: the handle and its clone show the same bytes at the same place, under
-- one word that counts one reference more, and whatever else is backed stays so.
pub record Cloned (h : Heap) (b : Bytes) (xs : List ℕ) (r : Bytes × Bytes) (h' : Heap)
    : Type 0 where
  pub me_view : IsBytes h' r.0 xs
  pub clone_view : IsBytes h' r.1 xs
  pub place : (r.0.ptr ≡ b.ptr) × (r.1.ptr ≡ b.ptr)
  pub same_word : r.1.data_word ≡ r.0.data_word
  pub shared_word : r.0.data_word % 2 ≡ 0
  pub null_word : b.data_word ≡ 0 → r.0.data_word ≡ 0
  pub live : b.data_word ≢ 0 → r.0.data_word ≢ 0
  pub count : b.data_word ≢ 0 → refs h' r.0.data_word ≡ refs h b.data_word + 1
  pub keeps : Keeps h h'

abbrev pub Twice : Heap → Bytes → List ℕ → ℕ → Heap → Type 0
Twice h b xs w = Cloned h b xs (bytes b.ptr b.len w, bytes b.ptr b.len w)

module _ (h : Heap) (k p n w : ℕ) (xs : List ℕ) (v : IsBytes h (bytes p n w) xs) where
  pub Cloned-owned :
      w % 2 ≡ 1
      → w / 2 ≤ p
      → IsBuffer h (p - w / 2) (n + w / 2)
      → IsFreshBox k h
      → Twice h
          (bytes p n w)
          xs
          k
          (set_box k (some (record { ref_count = 2; ptr = p - w / 2; cap = n + w / 2 })) h)
  Cloned-owned odd le b f =
      let h' = set_box k (some (record { ref_count = 2; ptr = p - w / 2; cap = n + w / 2 })) h in
      let is : IsBytes h' (bytes p n k) xs = record {
        size = v.size;
        holds = v.holds;
        standing = backed (Backed-promoted h k w p n 2 f le b (omega arith));
      } in
      record {
        me_view = is;
        clone_view = is;
        place = (refl, refl);
        same_word = refl;
        shared_word = f.even;
        null_word = λ e. absurd (omega arith);
        live = λ _. ground (arith, f.positive);
        count = λ _. ground (arith, f.even);
        keeps = Keeps-new h k _ f.new;
      }

  pub Cloned-counted :
      {s : Shared}
      → w % 2 ≡ 0
      → h.boxes w ≡ some s
      → Backed h w p n
      → Twice h (bytes p n w) xs w (set_box w (some (record s { ref_count = s.ref_count + 1 })) h)
  Cloned-counted {s} even box b =
      let h' = set_box w (some (record s { ref_count = s.ref_count + 1 })) h in
      let keeps = Keeps-bump h w (s.ref_count + 1) s box (omega arith) in
      let is : IsBytes h' (bytes p n w) xs = record {
        size = v.size;
        holds = v.holds;
        standing = backed (keeps.backing w p n b);
      } in
      record {
        me_view = is;
        clone_view = is;
        place = (refl, refl);
        same_word = refl;
        shared_word = even;
        null_word = λ e. e;
        live = λ ne. ne;
        count = λ _. ground arith;
        keeps = keeps;
      }

  clone_inner-Backed :
      Backed h w p n
      → IsFreshBox k h
      → Unsaturated h w
      → Ensures (Cloned h (bytes p n w) xs) (clone_inner k w (bytes p n w) h)
  clone_inner-Backed (owned odd le b) f u =
      rw (clone_inner-owned h k p n w odd) (Cloned-owned odd le b f)
  clone_inner-Backed (counted s even pos box rc lo hi b) f u =
      rw (clone_inner-counted h k p n w even pos box (ground arith))
        (Cloned-counted even box (counted s even pos box rc lo hi b))

  pub clone_inner-static : w ≡ 0 → clone_inner k w (bytes p n w) h ≡ ok (bytes p n w, bytes p n w) h
  unfolding clone_inner
  clone_inner-static e = ground arith

  Cloned-static : w ≡ 0 → Twice h (bytes p n w) xs w h
  Cloned-static e = record {
    me_view = v;
    clone_view = v;
    place = (refl, refl);
    same_word = refl;
    shared_word = omega arith;
    null_word = λ z. z;
    live = λ ne. ne;
    count = λ ne. absurd (ne e);
    keeps = Keeps-refl h;
  }

  clone_inner-Standing :
      Standing h (bytes p n w)
      → IsFreshBox k h
      → Unsaturated h w
      → Ensures (Cloned h (bytes p n w) xs) (clone_inner k w (bytes p n w) h)
  clone_inner-Standing (static e) f u = rw (clone_inner-static e) (Cloned-static e)
  clone_inner-Standing (backed b) f u = clone_inner-Backed b f u

-- `clone` of a valid handle with no other thread at work, a count that can still grow and a fresh
-- address for a control block: handle and clone show the same bytes at the same address under one
-- word, its references go up by one unless the memory is static, and everything else that was
-- backed stays so.
pub clone_inner_lem :
    (h : Heap) (k : ℕ) (b : Bytes) (xs : List ℕ)
    → IsBytes h b xs
    → IsFreshBox k h
    → Unsaturated h b.data_word
    → Ensures (Cloned h b xs) (clone_inner k b.data_word b h)
clone_inner_lem h k b xs v f u =
    clone_inner-Standing h k b.ptr b.len b.data_word xs v v.standing f u

-- `clone_inner_mut`, which writes the word without `compare_exchange`, does what `clone_inner` does
-- when the exchange meets the word that was loaded.
pub clone_inner_mut-clone_inner :
    (h : Heap) (k : ℕ) (b : Bytes) → clone_inner_mut k b h ≡ clone_inner k b.data_word b h
unfolding clone_inner_mut clone_inner promote_ref promote_with_vec build_unpromoted_vec
clone_inner_mut-clone_inner h k b = ground arith
