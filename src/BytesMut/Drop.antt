-- ===== src/BytesMut/Drop.antt =====
-- `drop` in src/bytes/bytes_mut.rs.
use tcio.Base.{◌<◌, ◌≡◌, ◌≢◌, arith}
use tcio.Base.Words.{word_mod}
use tcio.Memory.{Heap, Ensures, drop_vec}
use tcio.Shared.Backed.{Backed, refs}
use tcio.Bytes.{bytes, drop_inner, build_unpromoted_vec}
use tcio.Bytes.Valid.{backed}
use tcio.Bytes.Drop.{Dropped, drop_inner_lem, Backed-ne-zero}
use tcio.BytesMut.{BytesMut, drop_mut}

-- The end of a growable handle is that of an immutable one over its whole capacity.
drop_mut-drop_inner :
    (h : Heap) (m : BytesMut)
    → m.data_word ≢ 0
    → drop_mut m h ≡ drop_inner (bytes m.ptr m.cap m.data_word) h
unfolding drop_mut drop_inner build_unpromoted_vec drop_vec
drop_mut-drop_inner h m ne = ground arith

-- The end of a growable handle that is backed over its capacity, with a count below 2 ^ 64, never
-- faults: it takes one reference away while the buffer is shared, and gives back the buffer and the
-- control block when it is the last.
drop_mut_lem :
    (h : Heap) (m : BytesMut)
    → Backed h m.data_word m.ptr m.cap
    → refs h m.data_word < word_mod
    → Ensures (λ _. Dropped h m.data_word m.ptr m.cap) (drop_mut m h)
drop_mut_lem h m b fits =
    rw (drop_mut-drop_inner h m (Backed-ne-zero b))
      (drop_inner_lem h (bytes m.ptr m.cap m.data_word) (backed b) (λ _. fits))
