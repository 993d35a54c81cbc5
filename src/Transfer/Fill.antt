-- ===== src/Transfer/Fill.antt =====
-- `put` of src/bytes/bytes_mut.rs.
use tcio.Base.{
  ℕ, zero, suc, ◌+◌, ◌*◌, ◌-◌, ◌≤◌, ◌<◌, ◌≡◌, refl, sym, ap, ◌∙◌, Option, some, none, List, [],
  length, take, drop, ◌++◌, arith, true, false, ◌==◌, ltb, append_assoc, append_nil,
  take-append-drop, take_all, length-take, length-drop,
}
use tcio.Base.Words.{isize_max, word_mod}
use tcio.Memory.{Heap, Ensures, Allocator, Serves, and_then}
use tcio.Memory.Runs.{Ensures-bind, Ensures-mono}
use tcio.Shared.Backed.{refs, buffer_of}
use tcio.Buf.{Buf}
use tcio.Buf.Lawful.{Lawful, Moved}
use tcio.BytesMut.{BytesMut}
use tcio.BytesMut.Valid.{IsMut}
use tcio.BytesMut.Extend.{written, IsMut-written}
use tcio.BytesMut.Reserve.{Reserved}
use tcio.BytesMut.Room.{reserve_lem}
use tcio.Transfer.{put, put_loop, expect, Copying}
use tcio.Transfer.Room.{extend_from_slice-room, reserve-room}
use native.Mathlib.Decide.{ℕ_discrete, dec_lt}

module _ {S : Type 0} {B : Buf S} {V : S → Type 0} {content : S → List ℕ}
    (L : Lawful B V content) where
  -- All of the source stands behind what was written, the source is at its end, and neither the
  -- capacity nor a control block has changed.
  pub record Poured (h : Heap) (room : ℕ) (all : List ℕ) (r : BytesMut × S) (h' : Heap)
      : Type 0 where
    pub view : IsMut h' r.0 all
    pub valid : V r.1
    pub empty : content r.1 ≡ []
    pub boxes : h'.boxes ≡ h.boxes
    pub same_cap : r.0.cap ≡ room

  poured_none :
      (h : Heap) (m : BytesMut) (xs : List ℕ) (s : S)
      → IsMut h m xs
      → V s
      → length (content s) ≡ 0
      → Poured h m.cap (xs ++ content s) (m, s) h
  poured_none h m xs s v vs z =
      let e : content s ≡ [] = sym (take_all 0 (content s) (omega arith)) in
      record {
        view = rw (e, append_nil xs) v;
        valid = vs;
        empty = e;
        boxes = refl;
        same_cap = refl;
      }

  abbrev Induction : Allocator → ℕ → Type 0
  Induction g fuel =
      (s : S) (m : BytesMut) (xs : List ℕ) (h : Heap)
      → V s
      → IsMut h m xs
      → length (content s) ≤ fuel
      → length (content s) ≤ m.cap - m.len
      → Ensures (Poured h m.cap (xs ++ content s)) (put_loop B g fuel s m h)

  module _ (g : Allocator) (fuel : ℕ) (ih : Induction g fuel) (s : S) (m : BytesMut) (xs : List ℕ)
      (h : Heap) (vs : V s) (v : IsMut h m xs) (bound : length (content s) ≤ suc fuel)
      (room : length (content s) ≤ m.cap - m.len) (more : 0 < length (content s)) where
    abbrev src : List ℕ
    src = B.chunk s

    src_fits : length src ≤ length (content s)
    src_fits =
        omega
          (arith, ap (λ l. length l) (L.chunk_prefix s vs), length-take (length src) (content s))

    abbrev h1 : Heap
    h1 = written h (m.ptr + m.len) src

    abbrev m1 : BytesMut
    m1 = record m { len = m.len + length src }

    whole :
        (rest : List ℕ)
        → rest ≡ drop (length src) (content s)
        → (xs ++ src) ++ rest ≡ xs ++ content s
    whole rest e =
        append_assoc xs src rest
        ∙ ap (λ l. xs ++ (l ++ rest)) (L.chunk_prefix s vs)
        ∙ ap (λ l. xs ++ (take (length src) (content s) ++ l)) e
        ∙ ap (λ l. xs ++ l) (take-append-drop (length src) (content s))

    after :
        (r : Option S)
        → Moved V content (length src) (content s) r
        → Ensures
            (Poured h m.cap (xs ++ content s))
            (and_then (expect r h1) (λ src'. put_loop B g fuel src' m1))
    after none moved = absurd moved
    after (some s') (vs', e) =
        let smaller : length (content s') + length src ≡ length (content s) =
          omega (arith, ap (λ l. length l) e, length-drop (length src) (content s), src_fits) in
        Ensures-mono (Poured h1 m.cap ((xs ++ src) ++ content s'))
          (Poured h m.cap (xs ++ content s)) _
          (ih s' m1 (xs ++ src) h1 vs' (IsMut-written h m xs src v (omega (arith, src_fits)))
            (omega (arith, smaller, L.chunk_some s vs more)) (omega (arith, smaller)))
          λ r h' p. record {
            view = rw (whole (content s') e) at p.view;
            valid = p.valid;
            empty = p.empty;
            boxes = p.boxes;
            same_cap = p.same_cap;
          }

    round : Ensures (Poured h m.cap (xs ++ content s)) (put_loop B g (suc fuel) s m h)
    unfolding put_loop
    round =
        let t : ltb 0 (B.remaining s) ≡ true = ground (arith, L.remaining_length s vs) in
        rw (t, extend_from_slice-room g src m h xs v (omega (arith, src_fits)))
          (after (B.advance (length src) s) (L.advance_drop (length src) s vs src_fits))

  pub put_loop_lem : (g : Allocator) (fuel : ℕ) → Induction g fuel
  unfolding put_loop
  put_loop_lem g zero s m xs h vs v bound room =
      let t : ltb 0 (B.remaining s) ≡ false = ground (arith, L.remaining_length s vs) in
      rw t (poured_none h m xs s v vs (omega arith))
  put_loop_lem g (suc fuel) s m xs h vs v bound room = elim (dec_lt 0 (length (content s))) [
    | yes more ↦ round g fuel (put_loop_lem g fuel) s m xs h vs v bound room more
    | no none_left ↦
        let t : ltb 0 (B.remaining s) ≡ false = ground (arith, L.remaining_length s vs) in
        rw t (poured_none h m xs s v vs (omega arith))
  ]

  -- `put` into a handle that has some capacity and room for all of the source.
  pub put-room :
      (g : Allocator) (copy : Copying S) (s : S) (m : BytesMut) (xs : List ℕ) (h : Heap)
      → V s
      → IsMut h m xs
      → 0 < m.cap
      → length (content s) ≤ m.cap - m.len
      → Ensures (Poured h m.cap (xs ++ content s)) (put B g copy s m h)
  unfolding put
  put-room g copy s m xs h vs v pos room =
      let size = L.remaining_length s vs in
      elim (ℕ_discrete (B.remaining s) 0) [
        | yes z ↦
            let t : (B.remaining s == 0) ≡ true = ground arith in
            rw t (poured_none h m xs s v vs (omega arith))
        | no nz ↦
            let t : (B.remaining s == 0) ≡ false = ground arith in
            let t' : (m.cap == 0) ≡ false = ground arith in
            rw (t, t', reserve-room g (B.remaining s) m h (omega arith))
              (put_loop_lem g (B.remaining s) s m xs h vs v (omega arith) room)
      ]

  -- What `put` leaves.
  pub record Put (all : List ℕ) (r : BytesMut × S) (h' : Heap) : Type 0 where
    pub view : IsMut h' r.0 all
    pub valid : V r.1
    pub empty : content r.1 ≡ []

  -- `put` of a valid cursor of a lawful buffer into a valid handle that has some capacity, with an
  -- allocator that answers, a count below 2 ^ 64 and sizes that fit a word: all of the source
  -- stands behind what was written, in however many chunks, and the source is at its end.
  pub put_mut_lem :
      (g : Allocator) (copy : Copying S) (s : S) (m : BytesMut) (xs : List ℕ) (h : Heap)
      → V s
      → IsMut h m xs
      → 0 < m.cap
      → Serves g h
      → refs h m.data_word < word_mod
      → (buffer_of h m.data_word m.ptr m.cap).1 * 2 ≤ isize_max
      → (buffer_of h m.data_word m.ptr m.cap).1 + length (content s) ≤ isize_max
      → Ensures (Put (xs ++ content s)) (put B g copy s m h)
  unfolding put
  put_mut_lem g copy s m xs h vs v pos serves count big fits =
      let size = L.remaining_length s vs in
      elim (ℕ_discrete (B.remaining s) 0) [
        | yes z ↦
            let t : (B.remaining s == 0) ≡ true = ground arith in
            let p = poured_none h m xs s v vs (omega arith) in
            rw t (record { view = p.view; valid = p.valid; empty = p.empty })
        | no nz ↦
            let t : (B.remaining s == 0) ≡ false = ground arith in
            let t' : (m.cap == 0) ≡ false = ground arith in
            rw (t, t')
              (Ensures-bind (Reserved h m xs (B.remaining s)) (Put (xs ++ content s)) _ _
                (reserve_lem g (B.remaining s) m h xs v serves count big (omega arith))
                λ m' h' r.
                  Ensures-mono (Poured h' m'.cap (xs ++ content s)) (Put (xs ++ content s)) _
                    (put_loop_lem g (B.remaining s) s m' xs h' vs r.view (omega arith)
                      (omega (arith, r.room)))
                    λ q h'' p. record { view = p.view; valid = p.valid; empty = p.empty })
      ]
