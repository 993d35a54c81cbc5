-- ===== src/Shared/Steps.antt =====
-- The operations of src/bytes/shared.rs on words and control blocks of known shape.
use tcio.Base.{ℕ, ◌+◌, ◌-◌, ◌*◌, ◌/◌, ◌%◌, ◌≤◌, ◌<◌, ◌≡◌, none, some, arith}
use tcio.Base.Words.{isize_max, word_mod}
use tcio.Memory.{Shared, Heap, ok, set_box, deallocate}
use tcio.Shared.{
  unpromoted, promoted, as_unpromoted, to_unpromoted, mask_payload, increment, release,
  release_into_vec,
}

module _ (h : Heap) (w : ℕ) where
  pub as_unpromoted-odd : w % 2 ≡ 1 → as_unpromoted w h ≡ ok (unpromoted (w / 2)) h
  unfolding as_unpromoted
  as_unpromoted-odd e = ground arith

  pub as_unpromoted-even :
      {s : Shared} → w % 2 ≡ 0 → h.boxes w ≡ some s → as_unpromoted w h ≡ ok (promoted s) h
  unfolding as_unpromoted
  as_unpromoted-even e b = ground arith

  pub increment-ok :
      {s : Shared}
      → h.boxes w ≡ some s
      → s.ref_count ≤ isize_max
      → increment w h ≡ ok tt (set_box w (some (record s { ref_count = s.ref_count + 1 })) h)
  unfolding increment
  increment-ok b le = ground arith

  pub release_shared :
      {s : Shared}
      → h.boxes w ≡ some s
      → 1 < s.ref_count
      → s.ref_count < word_mod
      → release w h ≡ ok tt (set_box w (some (record s { ref_count = s.ref_count - 1 })) h)
  unfolding release
  release_shared b le hi = ground arith

  pub release_last :
      {s : Shared}
      → h.boxes w ≡ some s
      → s.ref_count ≡ 1
      → h.vecs s.ptr ≡ some s.cap
      → 0 < s.cap
      → release w h ≡ ok tt (set_box w none (deallocate s.ptr s.cap h))
  unfolding release
  release_last b one live pos = ground arith

  pub release_last_empty :
      {s : Shared}
      → h.boxes w ≡ some s
      → s.ref_count ≡ 1
      → s.cap ≡ 0
      → release w h ≡ ok tt (set_box w none h)
  unfolding release
  release_last_empty b one e = ground arith

  pub release_into_vec-shared :
      {s : Shared} (n : ℕ)
      → h.boxes w ≡ some s
      → 1 < s.ref_count
      → s.ref_count < word_mod
      → release_into_vec w n h
        ≡ ok none (set_box w (some (record s { ref_count = s.ref_count - 1 })) h)
  unfolding release_into_vec
  release_into_vec-shared n b le hi = ground arith

  pub release_into_vec-last :
      {s : Shared} (n : ℕ)
      → h.boxes w ≡ some s
      → s.ref_count ≡ 1
      → release_into_vec w n h
        ≡ ok (some (record { ptr = s.ptr; len = n; cap = s.cap })) (set_box w none h)
  unfolding release_into_vec
  release_into_vec-last n b one = ground arith

pub mask_payload-ok :
    (h : Heap) (w v : ℕ) → w % 2 ≡ 1 → v ≤ isize_max → mask_payload w v h ≡ ok (v * 2 + 1) h
unfolding mask_payload
mask_payload-ok h w v odd small = ground arith

to_unpromoted-mask_payload :
    (h h' : Heap) (w v r : ℕ)
    → v < word_mod
    → mask_payload w v h ≡ ok r h'
    → (to_unpromoted r ≡ some v) × (v ≤ isize_max)
unfolding mask_payload to_unpromoted
to_unpromoted-mask_payload h h' w v r fits e = ground arith
