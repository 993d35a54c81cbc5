-- ===== src/BytesMut/Unsplit.antt =====
-- `try_unsplit` in src/bytes/bytes_mut.rs on two handles of one buffer.
use tcio.Base.{
  ℕ, ◌-◌, ◌∙◌, ◌%◌, ◌==◌, true, false, some, refl, ◌+◌, ◌≤◌, ◌<◌, ◌≡◌, List, ◌++◌, arith, none,
  length-append, Option,
}
use tcio.Base.Words.{word_mod}
use tcio.Memory.{Heap, Ensures, Shared, ok, set_box}
use tcio.Shared.Steps.{as_unpromoted-even, release_shared}
use tcio.Shared.Keep.{Keeps-bump}
use tcio.Memory.Cells.{Holds-append}
use tcio.BytesMut.Valid.{IsMut-Keeps, IsMut}
use tcio.BytesMut.{BytesMut, try_unsplit, drop_mut, Shared}
use tcio.Shared.Backed.{IsBuffer, Backed, owned, counted, refs}

-- Dropping one of several handles only lowers the count.
drop_mut-shared :
    (h : Heap) (m : BytesMut) (s : Shared)
    → m.data_word % 2 ≡ 0
    → h.boxes m.data_word ≡ some s
    → 1 < s.ref_count
    → s.ref_count < word_mod
    → drop_mut m h ≡ ok tt (set_box m.data_word (some (record s { ref_count = s.ref_count - 1 })) h)
unfolding drop_mut
drop_mut-shared h m s even box more count =
    rw (as_unpromoted-even h m.data_word even box) (release_shared h m.data_word box more count)

-- The first of two adjacent handles, widened over the second.
IsMut-merged :
    (h : Heap) (other me : BytesMut) (xs ys : List ℕ) (s : Shared)
    → IsMut h me xs
    → IsMut h other ys
    → me.ptr + me.len ≡ other.ptr
    → me.cap ≡ me.len
    → me.data_word % 2 ≡ 0
    → 0 < me.data_word
    → h.boxes me.data_word ≡ some s
    → 0 < s.ref_count
    → s.ptr ≤ me.ptr
    → other.ptr + other.cap ≤ s.ptr + s.cap
    → IsBuffer h s.ptr s.cap
    → IsMut h (record me { len = me.len + other.len; cap = me.cap + other.cap }) (xs ++ ys)
IsMut-merged h other me xs ys s v u next full even pos box rc lo hi b = record {
  size = length-append xs ys ∙ omega (arith, v.size, u.size);
  fit = omega (arith, u.fit);
  holds = Holds-append h.cell me.ptr xs ys v.holds (rw (v.size, next) u.holds);
  standing = counted s even pos box rc lo (omega arith) b;
}

-- One handle is left of the two: it has all the bytes under the word of the first, and the count has
-- gone down by the reference of the second. The bytes and the buffers are as they were.
pub record Merged (h : Heap) (me : BytesMut) (all : List ℕ) (r : BytesMut × Option BytesMut)
    (h' : Heap) : Type 0 where
  pub gone : r.1 ≡ none
  pub view : IsMut h' r.0 all
  pub same_word : r.0.data_word ≡ me.data_word
  pub count : refs h' me.data_word + 1 ≡ refs h me.data_word
  pub memory : (h'.cell ≡ h.cell) × (h'.vecs ≡ h.vecs)

-- `try_unsplit` of two valid handles of one promoted buffer with a count from 2 to below 2 ^ 64,
-- where the second has some capacity and begins at the end of the first, which has no spare room:
-- the first then has the bytes of both under its word, the second is gone and its reference is
-- given back, and neither the bytes nor the buffers have changed.
pub try_unsplit_lem :
    (h : Heap) (other me : BytesMut) (xs ys : List ℕ)
    → IsMut h me xs
    → IsMut h other ys
    → me.data_word ≡ other.data_word
    → me.ptr + me.len ≡ other.ptr
    → me.cap ≡ me.len
    → 0 < other.cap
    → 1 < refs h me.data_word
    → refs h me.data_word < word_mod
    → Ensures (Merged h me (xs ++ ys)) (try_unsplit other me h)
unfolding try_unsplit
try_unsplit_lem h other me xs ys v u same next full some_cap more count =
    by_standing v.standing u.standing
  where
    by_standing :
        Backed h me.data_word me.ptr me.cap
        → Backed h other.data_word other.ptr other.cap
        → Ensures (Merged h me (xs ++ ys)) (try_unsplit other me h)
    by_standing (owned odd off b) q = absurd (ground arith)
    by_standing (counted s even pos box rc lo hi b) (owned odd off c) = absurd (ground arith)
    by_standing (counted s even pos box rc lo hi b) (counted s' even' pos' box' rc' lo' hi' b') =
        let box'' : h.boxes other.data_word ≡ some s = rw same at box in
        let e : s' ≡ s = cc in
        let t : (me.data_word % 2 == 1) ≡ false = ground arith in
        let c0 : (other.cap == 0) ≡ false = ground arith in
        let c1 : (me.ptr + me.len == other.ptr) ≡ true = ground arith in
        let c2 : (me.data_word % 2 == 0) ≡ true = ground arith in
        let c3 : (other.data_word % 2 == 0) ≡ true = ground arith in
        let more' : 1 < s.ref_count = rw (t, box) at more in
        let count' : s.ref_count < word_mod = rw (t, box) at count in
        rw (c0, c1, c2, c3, drop_mut-shared h other s even' box'' more' count')
          (record {
            gone = refl;
            view =
                IsMut-Keeps h _ _ _
                  (Keeps-bump h other.data_word (s.ref_count - 1) s box'' (omega arith))
                  (IsMut-merged h other me xs ys s v u next full even pos box rc lo (rw (← e) hi')
                    b);
            same_word = refl;
            count = ground (arith, same);
            memory = (refl, refl);
          })
