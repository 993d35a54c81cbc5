-- ===== src/Convert/IntoVec.antt =====
-- `into_vec` in src/bytes/bytes.rs.
use tcio.Base.{
  ℕ, ◌+◌, ◌-◌, ◌/◌, ◌%◌, ◌≤◌, ◌<◌, ◌≡◌, ◌≢◌, ◌⊎◌, inr, refl, some, List, length, arith, none, true,
  false, ◌==◌, leb,
}
use tcio.Base.Words.{isize_max, word_mod}
use tcio.Memory.{Heap, Ensures, Vec, Allocator, Serves, over, set_box, unmapped, Shared}
use tcio.Memory.Cells.{Holds, Mapped, Holds-over, over-mapped}
use tcio.Memory.Runs.{Ensures-mono, copy-ok, copy_nonoverlapping-ok, load_slice-ok}
use tcio.Shared.Backed.{IsBuffer, Backed, owned, counted, refs, buffer_of}
use tcio.Shared.Steps.{
  as_unpromoted-odd, as_unpromoted-even, release_into_vec-shared, release_into_vec-last,
}
use tcio.Shared.Keep.{Keeps, Keeps-bump, Keeps-trans, IsBuffer-set_box}
use tcio.Bytes
use tcio.Bytes.{Bytes, bytes, build_unpromoted_vec}
use tcio.Bytes.Valid.{IsBytes, Standing, static, backed}
use tcio.Convert.{into_vec, move_back, copied}
use tcio.Convert.Vectors.{IsVec, Copied, to_vec_lem, Serves-set_box}
use native.Mathlib.Decide.{ℕ_discrete, dec_le}

-- What `into_vec` gives: a vector with the bytes, and whose buffer it is. The last handle on a buffer
-- hands it over with its control block gone. Any other handle, and one on static memory, gives a
-- copy in memory that nobody used, leaves the other handles as they were and takes its reference
-- away.
pub record Taken (h : Heap) (b : Bytes) (xs : List ℕ) (v : Vec) (h' : Heap) : Type 0 where
  pub vec : IsVec h' v xs
  pub copy_unused :
      ((b.data_word ≡ 0) ⊎ (1 < refs h b.data_word))
      → (a : ℕ) → v.ptr ≤ a
      → a < v.ptr + v.cap
      → h.cell a ≡ unmapped
  pub copy_keeps : ((b.data_word ≡ 0) ⊎ (1 < refs h b.data_word)) → Keeps h h'
  pub count :
      b.data_word ≢ 0 → 1 < refs h b.data_word → refs h' b.data_word + 1 ≡ refs h b.data_word
  pub last_buffer :
      b.data_word ≢ 0
      → refs h b.data_word ≡ 1
      → (v.ptr ≡ (buffer_of h b.data_word b.ptr b.len).0)
        × (v.cap ≡ (buffer_of h b.data_word b.ptr b.len).1)
        × (h'.vecs ≡ h.vecs)
  pub last_box :
      b.data_word ≢ 0 → b.data_word % 2 ≡ 0 → refs h b.data_word ≡ 1 → h'.boxes b.data_word ≡ none

pub copied_lem :
    (g : Allocator) (b : Bytes) (h : Heap) (xs : List ℕ)
    → length xs ≡ b.len
    → Holds h.cell b.ptr xs
    → Serves g h
    → length xs ≤ isize_max
    → Ensures (Copied h xs) (copied g b h)
unfolding copied Bytes.as_slice
copied_lem g b h xs size holds serves le =
    rw (load_slice-ok h b.ptr b.len xs size holds) (to_vec_lem g xs h serves le)

module _ (h : Heap) (p n w off : ℕ) (xs : List ℕ) (vec : Vec) (size : length xs ≡ n)
    (holds : Holds h.cell p xs) (buffer : IsBuffer h vec.ptr vec.cap) (start : vec.ptr + off ≡ p)
    (fit : n ≤ vec.cap) where
  IsVec-moved : IsVec (record h { cell = over h.cell vec.ptr xs }) (record vec { len = n }) xs
  IsVec-moved = record {
    size = size;
    fit = fit;
    holds = Holds-over h.cell vec.ptr xs;
    buffer = record {
      mapped = λ a lo hi. over-mapped h.cell vec.ptr a xs (buffer.mapped a lo hi);
      live = buffer.live;
      small = buffer.small;
    };
  }

  -- The vector has its buffer, and the bytes at its start, also where the two ranges overlap.
  record Moved (v : Vec) (h' : Heap) : Type 0 where
    moved : IsVec h' v xs
    place : (v.ptr ≡ vec.ptr) × (v.cap ≡ vec.cap)
    owners : (h'.vecs ≡ h.vecs) × (h'.boxes ≡ h.boxes)

  Moved-over : Moved (record vec { len = n }) (record h { cell = over h.cell vec.ptr xs })
  Moved-over = record { moved = IsVec-moved; place = (refl, refl); owners = (refl, refl) }

  move_back_lem : Ensures Moved (move_back (bytes p n w) off vec h)
  unfolding move_back
  move_back_lem = elim (ℕ_discrete off 0) [
    | yes z ↦
        let t : (off == 0) ≡ true = ground arith in
        let e : vec.ptr ≡ p = omega arith in
        rw t (record {
          moved = record { size = size; fit = fit; holds = rw e holds; buffer = buffer };
          place = (refl, refl);
          owners = (refl, refl);
        })
    | no nz ↦
        let t : (off == 0) ≡ false = ground arith in
        let room : Mapped h.cell vec.ptr n = λ a lo hi. buffer.mapped a lo (omega arith) in
        elim (dec_le n off) [
          | yes le ↦
              let u : leb n off ≡ true = ground arith in
              rw (t, u, copy_nonoverlapping-ok h p vec.ptr n xs size holds room (inr (omega arith)))
                Moved-over
          | no gt ↦
              let u : leb n off ≡ false = ground arith in
              rw (t, u, copy-ok h p vec.ptr n xs size holds room) Moved-over
        ]
  ]

module _ (g : Allocator) (h : Heap) (p n w : ℕ) (xs : List ℕ) (v : IsBytes h (bytes p n w) xs)
    (serves : Serves g h) (small : n ≤ isize_max) where
  into_vec-Backed :
      Backed h w p n
      → refs h w < word_mod
      → Ensures (Taken h (bytes p n w) xs) (into_vec g (bytes p n w) h)
  unfolding into_vec build_unpromoted_vec
  into_vec-Backed (owned odd off b) count =
      let z : (w == 0) ≡ false = ground arith in
      let t : (w % 2 == 1) ≡ true = ground arith in
      let vec : Vec = record { ptr = p - w / 2; len = n + w / 2; cap = n + w / 2 } in
      rw (z, as_unpromoted-odd h w odd)
        (Ensures-mono (Moved h p n w (w / 2) xs vec v.size v.holds b (omega arith) (omega arith))
          (Taken h (bytes p n w) xs) _
          (move_back_lem h p n w (w / 2) xs vec v.size v.holds b (omega arith) (omega arith))
          λ r h' m. record {
            vec = m.moved;
            copy_unused = λ case a lo hi. absurd (ground (arith, case));
            copy_keeps = λ case. absurd (ground (arith, case));
            count = λ ne more. absurd (ground (arith, more));
            last_buffer = λ ne one. rw t (m.place.0, m.place.1, m.owners.0);
            last_box = λ ne even one. absurd (omega arith);
          })
  into_vec-Backed (counted s even pos box rc lo hi b) count =
      let z : (w == 0) ≡ false = ground arith in
      let t : (w % 2 == 1) ≡ false = ground arith in
      let count' : s.ref_count < word_mod = rw (t, box) at count in
      elim (ℕ_discrete s.ref_count 1) [
        | yes one ↦
            let h1 = set_box w none h in
            let b1 = IsBuffer-set_box h w none b in
            let vec : Vec = record { ptr = s.ptr; len = s.cap; cap = s.cap } in
            rw (z, as_unpromoted-even h w even box, release_into_vec-last h w s.cap box one)
              (Ensures-mono
                (Moved h1 p n w (p - s.ptr) xs vec v.size v.holds b1 (omega arith) (omega arith))
                (Taken h (bytes p n w) xs) _
                (move_back_lem h1 p n w (p - s.ptr) xs vec v.size v.holds b1 (omega arith)
                  (omega arith))
                λ r h' m. record {
                  vec = m.moved;
                  copy_unused = λ case a lo hi. absurd (ground (arith, case));
                  copy_keeps = λ case. absurd (ground (arith, case));
                  count = λ ne more. absurd (ground (arith, more));
                  last_buffer = λ ne one'. rw (t, box) (m.place.0, m.place.1, m.owners.0);
                  last_box = λ ne e one'. rw m.owners.1 (ground arith);
                })
        | no more ↦
            let s' : Shared = record s { ref_count = s.ref_count - 1 } in
            let h1 = set_box w (some s') h in
            let bump = Keeps-bump h w (s.ref_count - 1) s box (omega arith) in
            let many : 1 < refs h w = rw (t, box) (omega arith) in
            rw
              (
                z,
                as_unpromoted-even h w even box,
                release_into_vec-shared h w s.cap box (omega arith) count',
              )
              (Ensures-mono (Copied h1 xs) (Taken h (bytes p n w) xs) _
                (copied_lem g (bytes p n w) h1 xs v.size v.holds (Serves-set_box g h w _ serves)
                  (omega (arith, v.size)))
                λ r h' c. record {
                  vec = c.vec;
                  copy_unused = λ case. c.unused;
                  copy_keeps = λ case. Keeps-trans h h1 h' bump c.keeps;
                  count = λ ne m. rw c.boxes (ground arith);
                  last_buffer = λ ne one. absurd (omega (arith, one, many));
                  last_box = λ ne e one. absurd (omega (arith, one, many));
                })
      ]

  into_vec-static : w ≡ 0 → Ensures (Taken h (bytes p n w) xs) (into_vec g (bytes p n w) h)
  unfolding into_vec
  into_vec-static e =
      let z : (w == 0) ≡ true = ground arith in
      rw z (
        Ensures-mono (Copied h xs) (Taken h (bytes p n w) xs) _
          (copied_lem g (bytes p n w) h xs v.size v.holds serves (omega (arith, v.size)))
          λ r h' c. record {
            vec = c.vec;
            copy_unused = λ case. c.unused;
            copy_keeps = λ case. c.keeps;
            count = λ ne. absurd (ne e);
            last_buffer = λ ne. absurd (ne e);
            last_box = λ ne. absurd (ne e);
          })

-- `into_vec` on a valid handle of at most 2 ^ 63 - 1 bytes, with a count below 2 ^ 64 and an
-- allocator that answers, returns a vector that has exactly the bytes that the handle showed. Of
-- the last handle on a buffer it is that buffer, and the control block is gone; of any other, and
-- of static memory, it is a copy in unused memory, the other handles stay as they were and the
-- count goes down by one.
pub into_vec_lem :
    (g : Allocator) (b : Bytes) (h : Heap) (xs : List ℕ)
    → IsBytes h b xs
    → Serves g h
    → b.len ≤ isize_max
    → refs h b.data_word < word_mod
    → Ensures (Taken h b xs) (into_vec g b h)
into_vec_lem g b h xs v serves small count = by_standing v.standing
  where
    by_standing : Standing h b → Ensures (Taken h b xs) (into_vec g b h)
    by_standing (static e) = into_vec-static g h b.ptr b.len b.data_word xs v serves small e
    by_standing (backed k) = into_vec-Backed g h b.ptr b.len b.data_word xs v serves small k count
