-- ===== src/Convert/IntoMut.antt =====
-- `into_mut` in src/bytes/bytes.rs.
use tcio.Base.{
  ℕ, ◌+◌, ◌-◌, ◌/◌, ◌%◌, ◌≤◌, ◌<◌, ◌≡◌, ◌≢◌, ◌⊎◌, some, refl, List, length, arith, none, true,
  false, ◌==◌, ◌*◌,
}
use tcio.Base.Words.{isize_max, word_mod}
use tcio.Memory.{Heap, Ensures, Vec, Allocator, Serves, ok, set_box, unmapped}
use tcio.Memory.Cells.{Holds}
use tcio.Memory.Runs.{Ensures-bind, Ensures-mono}
use tcio.Shared.{as_unpromoted}
use tcio.Shared.Backed.{IsBuffer, Backed, owned, counted, refs, buffer_of}
use tcio.Shared.Steps.{
  as_unpromoted-odd, as_unpromoted-even, release_into_vec-shared, release_into_vec-last,
  mask_payload-ok,
}
use tcio.Shared.Keep.{Keeps, Keeps-bump, Keeps-trans, IsBuffer-set_box}
use tcio.Bytes.{Bytes, bytes, build_unpromoted_vec}
use tcio.Bytes.Valid.{IsBytes, Standing, static, backed}
use tcio.BytesMut
use tcio.BytesMut.{BytesMut, bytes_mut}
use tcio.BytesMut.Valid.{IsMut}
use tcio.Convert.{into_mut, copied, copied_mut}
use tcio.Convert.Vectors.{IsVec, Copied, Serves-set_box}
use tcio.Convert.IntoVec.{copied_lem}
use native.Mathlib.Decide.{ℕ_discrete}

-- A vector with a live buffer becomes a valid growable handle.
IsMut-from_vec :
    (h : Heap) (v : Vec) (xs : List ℕ) → IsVec h v xs → IsMut h (BytesMut.from_vec v) xs
unfolding BytesMut.from_vec
IsMut-from_vec h v xs k = record {
  size = k.size;
  fit = k.fit;
  holds = k.holds;
  standing =
      let e : v.ptr - 1 / 2 ≡ v.ptr = omega arith in
      let q : v.cap + 1 / 2 ≡ v.cap = omega arith in owned refl (omega arith) (rw (e, q) k.buffer);
}

-- What `into_mut` gives: an unpromoted handle with the bytes, and whose buffer it has. The last
-- handle on a buffer hands it over with its control block gone. Any other handle, and one on static
-- memory, gives a copy in memory that nobody used, leaves the other handles as they were and takes
-- its reference away.
pub record TakenMut (h : Heap) (b : Bytes) (xs : List ℕ) (m : BytesMut) (h' : Heap) : Type 0 where
  pub view : IsMut h' m xs
  pub unpromoted_word : m.data_word % 2 ≡ 1
  pub copy_unused :
      ((b.data_word ≡ 0) ⊎ (1 < refs h b.data_word))
      → (a : ℕ) → m.ptr - m.data_word / 2 ≤ a
      → a < m.ptr + m.cap
      → h.cell a ≡ unmapped
  pub copy_keeps : ((b.data_word ≡ 0) ⊎ (1 < refs h b.data_word)) → Keeps h h'
  pub count :
      b.data_word ≢ 0 → 1 < refs h b.data_word → refs h' b.data_word + 1 ≡ refs h b.data_word
  pub last_buffer :
      b.data_word ≢ 0
      → refs h b.data_word ≡ 1
      → (m.ptr - m.data_word / 2 ≡ (buffer_of h b.data_word b.ptr b.len).0)
        × (m.cap + m.data_word / 2 ≡ (buffer_of h b.data_word b.ptr b.len).1)
        × (h'.vecs ≡ h.vecs)
  pub last_box :
      b.data_word ≢ 0 → b.data_word % 2 ≡ 0 → refs h b.data_word ≡ 1 → h'.boxes b.data_word ≡ none

-- A new handle on a copy.
record CopiedMut (h : Heap) (xs : List ℕ) (m : BytesMut) (h' : Heap) : Type 0 where
  view : IsMut h' m xs
  word : m.data_word ≡ 1
  unused : (a : ℕ) → m.ptr ≤ a → a < m.ptr + m.cap → h.cell a ≡ unmapped
  keeps : Keeps h h'
  boxes : h'.boxes ≡ h.boxes

copied_mut_lem :
    (g : Allocator) (b : Bytes) (h : Heap) (xs : List ℕ)
    → length xs ≡ b.len
    → Holds h.cell b.ptr xs
    → Serves g h
    → length xs ≤ isize_max
    → Ensures (CopiedMut h xs) (copied_mut g b h)
unfolding copied_mut BytesMut.from_vec
copied_mut_lem g b h xs size holds serves le =
    Ensures-bind (Copied h xs) (CopiedMut h xs) (copied g b h) _
      (copied_lem g b h xs size holds serves le)
      λ v h' c. record {
        view = IsMut-from_vec h' v xs c.vec;
        word = refl;
        unused = c.unused;
        keeps = c.keeps;
        boxes = c.boxes;
      }

-- Moving the start of a new handle into the vector.
advance-vec :
    (h : Heap) (v : Vec) (off : ℕ)
    → off ≤ isize_max
    → BytesMut.advance_unchecked off (BytesMut.from_vec v) h
      ≡ ok (bytes_mut (v.ptr + off) (v.len - off) (v.cap - off) (off * 2 + 1)) h
unfolding BytesMut.advance_unchecked BytesMut.from_vec as_unpromoted
advance-vec h v off small = ground (arith, mask_payload-ok h 1 off)

module _ (g : Allocator) (h : Heap) (p n w : ℕ) (xs : List ℕ) (v : IsBytes h (bytes p n w) xs)
    (serves : Serves g h) (small : n ≤ isize_max) where
  IsMut-advanced :
      (h' : Heap) (base cap off : ℕ)
      → Holds h'.cell p xs
      → base + off ≡ p
      → n + off ≤ cap
      → IsBuffer h' base cap
      → IsMut h' (bytes_mut (base + off) n (cap - off) (off * 2 + 1)) xs
  IsMut-advanced h' base cap off holds start fit b =
      let e : base + off - (off * 2 + 1) / 2 ≡ base = omega arith in
      let q : cap - off + (off * 2 + 1) / 2 ≡ cap = omega arith in
      record {
        size = v.size;
        fit = omega arith;
        holds = rw start holds;
        standing = owned (omega arith) (omega arith) (rw (e, q) b);
      }

  into_mut-Backed :
      Backed h w p n
      → refs h w < word_mod
      → Ensures (TakenMut h (bytes p n w) xs) (into_mut g (bytes p n w) h)
  unfolding into_mut build_unpromoted_vec
  into_mut-Backed (owned odd off b) count =
      let z : (w == 0) ≡ false = ground arith in
      let t : (w % 2 == 1) ≡ true = ground arith in
      let e : n + w / 2 - w / 2 ≡ n = omega arith in
      let f : p - w / 2 + w / 2 ≡ p = omega arith in
      rw
        (
          z,
          as_unpromoted-odd h w odd,
          advance-vec h (record { ptr = p - w / 2; len = n + w / 2; cap = n + w / 2 }) (w / 2)
              (omega (arith, b.small)),
        )
        (record {
          view = rw e (
              rw e at (
                IsMut-advanced h (p - w / 2) (n + w / 2) (w / 2) v.holds (omega arith) (omega arith)
                  b));
          unpromoted_word = omega arith;
          copy_unused = λ case a lo hi. absurd (ground (arith, case));
          copy_keeps = λ case. absurd (ground (arith, case));
          count = λ ne more. absurd (ground (arith, more));
          last_buffer = λ ne one. rw t (omega arith, omega arith, refl);
          last_box = λ ne even one. absurd (omega arith);
        })
  into_mut-Backed (counted s even pos box rc lo hi b) count =
      let z : (w == 0) ≡ false = ground arith in
      let t : (w % 2 == 1) ≡ false = ground arith in
      let count' : s.ref_count < word_mod = rw (t, box) at count in
      elim (ℕ_discrete s.ref_count 1) [
        | yes one ↦
            rw
              (
                z,
                as_unpromoted-even h w even box,
                release_into_vec-last h w s.cap box one,
                advance-vec (set_box w none h) (record { ptr = s.ptr; len = s.cap; cap = s.cap })
                    (p - s.ptr) (omega (arith, b.small)),
              )
              (record {
                view =
                    IsMut-advanced (set_box w none h) s.ptr s.cap (p - s.ptr) v.holds (omega arith)
                      (omega arith) (IsBuffer-set_box h w none b);
                unpromoted_word = omega arith;
                copy_unused = λ case a lo hi. absurd (ground (arith, case));
                copy_keeps = λ case. absurd (ground (arith, case));
                count = λ ne more. absurd (ground (arith, more));
                last_buffer = λ ne one'. rw (t, box) (omega arith, omega arith, refl);
                last_box = λ ne e one'. ground arith;
              })
        | no more ↦
            let h1 = set_box w (some (record s { ref_count = s.ref_count - 1 })) h in
            let bump = Keeps-bump h w (s.ref_count - 1) s box (omega arith) in
            let many : 1 < refs h w = rw (t, box) (omega arith) in
            rw
              (
                z,
                as_unpromoted-even h w even box,
                release_into_vec-shared h w s.cap box (omega arith) count',
              )
              (Ensures-mono (CopiedMut h1 xs) (TakenMut h (bytes p n w) xs) _
                (copied_mut_lem g (bytes p n w) h1 xs v.size v.holds (Serves-set_box g h w _ serves)
                  (omega (arith, v.size)))
                λ m h' c. record {
                  view = c.view;
                  unpromoted_word = omega (arith, c.word);
                  copy_unused = λ case a le lt. c.unused a (omega (arith, c.word)) lt;
                  copy_keeps = λ case. Keeps-trans h h1 h' bump c.keeps;
                  count = λ ne m. rw c.boxes (ground arith);
                  last_buffer = λ ne one. absurd (omega (arith, one, many));
                  last_box = λ ne e one. absurd (omega (arith, one, many));
                })
      ]

  into_mut-static : w ≡ 0 → Ensures (TakenMut h (bytes p n w) xs) (into_mut g (bytes p n w) h)
  unfolding into_mut
  into_mut-static e =
      let z : (w == 0) ≡ true = ground arith in
      rw z (
        Ensures-mono (CopiedMut h xs) (TakenMut h (bytes p n w) xs) _
          (copied_mut_lem g (bytes p n w) h xs v.size v.holds serves (omega (arith, v.size)))
          λ m h' c. record {
            view = c.view;
            unpromoted_word = omega (arith, c.word);
            copy_unused = λ case a le lt. c.unused a (omega (arith, c.word)) lt;
            copy_keeps = λ case. c.keeps;
            count = λ ne. absurd (ne e);
            last_buffer = λ ne. absurd (ne e);
            last_box = λ ne. absurd (ne e);
          })

-- `into_mut` on a valid handle of at most 2 ^ 63 - 1 bytes, with a count below 2 ^ 64 and an
-- allocator that answers, returns a valid unpromoted growable handle that has exactly the bytes
-- that the handle showed. Of the last handle on a buffer it has that buffer, and the control block
-- is gone; of any other, and of static memory, it has a copy in unused memory, the other handles
-- stay as they were and the count goes down by one.
pub into_mut_lem :
    (g : Allocator) (b : Bytes) (h : Heap) (xs : List ℕ)
    → IsBytes h b xs
    → Serves g h
    → b.len ≤ isize_max
    → refs h b.data_word < word_mod
    → Ensures (TakenMut h b xs) (into_mut g b h)
into_mut_lem g b h xs v serves small count = by_standing v.standing
  where
    by_standing : Standing h b → Ensures (TakenMut h b xs) (into_mut g b h)
    by_standing (static e) = into_mut-static g h b.ptr b.len b.data_word xs v serves small e
    by_standing (backed k) = into_mut-Backed g h b.ptr b.len b.data_word xs v serves small k count
