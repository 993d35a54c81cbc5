-- ===== src/BytesMut/Clone.antt =====
-- `shallow_clone` in src/bytes/bytes_mut.rs.
use tcio.Base.{ℕ, ◌+◌, ◌-◌, ◌/◌, ◌%◌, ◌≤◌, ◌≡◌, refl, List, arith, some}
use tcio.Base.Words.{isize_max}
use tcio.Memory.{Heap, Shared, ok, Ensures, IsFreshBox, set_box}
use tcio.Shared.{promote_with_vec}
use tcio.Shared.Backed.{Backed, owned, counted, refs, Unsaturated}
use tcio.Shared.Keep.{Keeps, Keeps-new, Keeps-bump, Backed-promoted}
use tcio.Shared.Steps.{as_unpromoted-odd, as_unpromoted-even, increment-ok}
use tcio.BytesMut.{BytesMut, bytes_mut, shallow_clone}
use tcio.BytesMut.Valid.{IsMut}

-- What `shallow_clone` leaves: two copies of the handle under one word.
pub record Doubled (h : Heap) (m : BytesMut) (xs : List ℕ) (r : BytesMut × BytesMut) (h' : Heap)
    : Type 0 where
  pub view : IsMut h' r.0 xs
  pub same : r.1 ≡ r.0
  pub place : (r.0.ptr ≡ m.ptr) × (r.0.len ≡ m.len) × (r.0.cap ≡ m.cap)
  pub shared_word : r.0.data_word % 2 ≡ 0
  pub count : refs h' r.0.data_word ≡ refs h m.data_word + 1
  pub keeps : Keeps h h'

module _ (h : Heap) (k p n c w : ℕ) where
  shallow_clone-owned :
      w % 2 ≡ 1
      → shallow_clone k (bytes_mut p n c w) h
        ≡ ok
            (bytes_mut p n c k, bytes_mut p n c k)
            (set_box k (some (record { ref_count = 2; ptr = p - w / 2; cap = c + w / 2 })) h)
  unfolding shallow_clone promote_with_vec
  shallow_clone-owned odd = ground (arith, as_unpromoted-odd h w odd)

  shallow_clone-counted :
      (s : Shared)
      → w % 2 ≡ 0
      → h.boxes w ≡ some s
      → s.ref_count ≤ isize_max
      → shallow_clone k (bytes_mut p n c w) h
        ≡ ok
            (bytes_mut p n c w, bytes_mut p n c w)
            (set_box w (some (record s { ref_count = s.ref_count + 1 })) h)
  unfolding shallow_clone
  shallow_clone-counted s even box le =
      ground (arith, as_unpromoted-even h w even box, increment-ok h w box le)

  shallow_clone-Doubled :
      (xs : List ℕ)
      → IsMut h (bytes_mut p n c w) xs
      → Backed h w p c
      → IsFreshBox k h
      → Unsaturated h w
      → Ensures (Doubled h (bytes_mut p n c w) xs) (shallow_clone k (bytes_mut p n c w) h)
  shallow_clone-Doubled xs v (owned odd le b) f u = rw (shallow_clone-owned odd) (record {
    view = record {
      size = v.size;
      fit = v.fit;
      holds = v.holds;
      standing = Backed-promoted h k w p c 2 f le b (omega arith);
    };
    same = refl;
    place = (refl, refl, refl);
    shared_word = f.even;
    count = ground (arith, f.even);
    keeps = Keeps-new h k _ f.new;
  })
  shallow_clone-Doubled xs v (counted s even pos box rc lo hi b) f u =
      let keeps = Keeps-bump h w (s.ref_count + 1) s box (omega arith) in
      rw (shallow_clone-counted s even box (ground arith)) (record {
        view = record {
          size = v.size;
          fit = v.fit;
          holds = v.holds;
          standing = keeps.backing w p c v.standing;
        };
        same = refl;
        place = (refl, refl, refl);
        shared_word = even;
        count = ground arith;
        keeps = keeps;
      })

pub shallow_clone_lem :
    (h : Heap) (k : ℕ) (m : BytesMut) (xs : List ℕ)
    → IsMut h m xs
    → IsFreshBox k h
    → Unsaturated h m.data_word
    → Ensures (Doubled h m xs) (shallow_clone k m h)
shallow_clone_lem h k m xs v f u =
    shallow_clone-Doubled h k m.ptr m.len m.cap m.data_word xs v v.standing f u
