-- ===== src/Transfer/Chained.antt =====
-- `copy_to_bytes` of src/bytes/chain.rs.
use tcio.Base.{
  ℕ, ◌+◌, ◌-◌, ◌≤◌, ◌<◌, ◌≡◌, ◌%◌, refl, sym, ap, ◌∙◌, List, [], ◌++◌, length, take, drop, arith,
  true, false, ◌==◌, leb, length-take, length-drop, length-append, take-append_le, drop-append_le,
  take-append_ge, drop-append_ge, take_all,
}
use tcio.Base.Words.{isize_max, word_mod}
use tcio.Memory.{
  Heap, Ensures, panic, Allocator, Serves, IsFreshBox, allocate, and_then, pure, IsFresh,
}
use tcio.Memory.Runs.{Ensures-bind, Ensures-mono}
use tcio.Buf.{Buf, Take, take_buf, Chain}
use tcio.Buf.Lawful.{Lawful}
use tcio.Buf.Adapters.{shown, Both, joint, chain-Lawful}
use tcio.Bytes.{Bytes}
use tcio.Bytes.Valid.{IsBytes}
use tcio.BytesMut.{BytesMut, bytes_mut}
use tcio.BytesMut.Valid.{IsMut}
use tcio.Convert.Freeze.{freeze_lem}
use tcio.Convert.{freeze}
use tcio.Transfer.{put, Copying, take_copy_to_bytes, chain_copy_to_bytes}
use tcio.Transfer.Contract.{CopiesOut}
use tcio.Transfer.Fill.{Poured, put-room}
use tcio.Transfer.Track.{IsMut-new, IsBuffer-new, Tracked, Tracked-Lawful}
use tcio.Transfer.Copy.{CopiedOut, at_limit, with_capacity_mut-some}
use native.Mathlib.Decide.{dec_le, ℕ_discrete}

module _ {S T : Type 0} {A : Buf S} {B : Buf T} {V : S → Type 0} {front : S → List ℕ}
    {W : T → Type 0} {back : T → List ℕ} (L : Lawful A V front) (M : Lawful B W back)
    (copy_a : Copying S) (copy_b : Copying T) (g : Allocator) (k n : ℕ) (c : Chain S T) (h : Heap)
    (both : Both L M c) where
  abbrev va : V c.a
  va = both.0.0

  abbrev vb : W c.b
  vb = both.0.1

  abbrev Goal : Bytes × Chain S T → Heap → Type 0
  Goal = CopiedOut (chain-Lawful L M) (joint L M c) n

  -- The first part has all of it.
  in_first :
      n ≤ length (front c.a)
      → CopiesOut L copy_a c.a h
      → Ensures Goal (and_then (copy_a n c.a h) (λ r. pure (r.0, record { a = r.1; b = c.b })))
  in_first le copies = Ensures-bind (CopiedOut L (front c.a) n) Goal _ _ (copies.out n le) λ r h' o.
      record {
        view = rw (sym (take-append_le n (front c.a) (back c.b) le)) at o.view;
        valid = (
          (o.valid, vb),
          omega (arith, both.1, ap (λ l. length l) o.rest, length-drop n (front c.a)),
        );
        rest = ap (λ l. l ++ back c.b) o.rest ∙ sym (drop-append_le n (front c.a) (back c.b) le);
      }

  -- The first part is at its end.
  in_second :
      front c.a ≡ []
      → n ≤ length (back c.b)
      → CopiesOut M copy_b c.b h
      → Ensures Goal (and_then (copy_b n c.b h) (λ r. pure (r.0, record { a = c.a; b = r.1 })))
  in_second e le copies =
      Ensures-bind (CopiedOut M (back c.b) n) Goal _ _ (copies.out n le) λ r h' o. record {
        view = rw e o.view;
        valid = (
          (va, o.valid),
          omega (arith, both.1, ap (λ l. length l) o.rest, length-drop n (back c.b)),
        );
        rest = rw e o.rest;
      }

  module _ (lt : length (front c.a) < n) (le : n ≤ length (joint L M c)) (serves : Serves g h)
      (f : IsFreshBox k h) (small : n ≤ isize_max) where
    abbrev more : ℕ
    more = n - length (front c.a)

    more-fits : more ≤ length (back c.b)
    more-fits = omega (arith, le, length-append (front c.a) (back c.b))

    abbrev h1 : Heap
    h1 = allocate (g n) h

    abbrev limited : Take T
    limited = record { inner = c.b; limit = more }

    abbrev L' : Lawful (take_buf B) (Tracked M (back c.b) more) (shown M)
    L' = Tracked-Lawful M (back c.b) more

    all_bytes : front c.a ++ shown M limited ≡ take n (joint L M c)
    all_bytes = sym (take-append_ge n (front c.a) (back c.b) (omega arith))

    -- What the two `put` leave.
    record Gathered (a : S) (r : BytesMut × Take T) (h' : Heap) : Type 0 where
      view : IsMut h' r.0 (take n (joint L M c))
      tracked : Tracked M (back c.b) more r.1
      empty : shown M r.1 ≡ []
      boxes : h'.boxes ≡ h.boxes
      first : V a
      spent : front a ≡ []

    frozen :
        (a : S) (r : BytesMut × Take T) (h' : Heap)
        → Gathered a r h'
        → Ensures Goal
            (and_then (freeze k r.0 h') (λ out. pure (out, record { a = a; b = r.1.inner })))
    frozen a (m, t) h' p =
        let end_b : back t.inner ≡ drop more (back c.b) =
          at_limit M (back c.b) more t more-fits p.tracked p.empty in
        Ensures-bind (λ b h''. IsBytes h'' b (take n (joint L M c))) Goal _ _
          (freeze_lem h' k m (take n (joint L M c)) p.view
            (record { even = f.even; positive = f.positive; new = ap (λ b. b k) p.boxes ∙ f.new }))
          λ b h'' bv. record {
            view = bv;
            valid = (
              (p.first, p.tracked.inner_valid),
              omega (
                arith,
                both.1,
                ap (λ l. length l) p.spent,
                ap (λ l. length l) end_b,
                length-drop more (back c.b),
              ),
            );
            rest =
                ap (λ l. l ++ back t.inner) p.spent
                ∙ end_b
                ∙ sym (drop-append_ge n (front c.a) (back c.b) (omega arith));
          }

    limited-Tracked : Tracked M (back c.b) more limited
    limited-Tracked =
        let z : more - more ≡ 0 = omega arith in
        record { inner_valid = vb; bound = omega arith; place = rw z refl }

    second_put :
        (a : S) (m : BytesMut) (h' : Heap)
        → Poured L h1 (g n).cap (front c.a) (m, a) h'
        → 0 < (g n).cap
        → n ≤ (g n).cap
        → Ensures (Gathered a) (put (take_buf B) g (take_copy_to_bytes copy_b) limited m h')
    second_put a m h' p some_cap enough =
        let size : length (shown M limited) ≡ more =
          length-take more (back c.b) ∙ omega (arith, more-fits) in
        Ensures-mono (Poured L' h' m.cap (front c.a ++ shown M limited)) (Gathered a) _
          (put-room L' g (take_copy_to_bytes copy_b) limited m (front c.a) h' limited-Tracked p.view
            (omega (arith, p.same_cap)) (omega (arith, p.same_cap, p.view.size, size)))
          λ r h'' q. record {
            view = rw all_bytes at q.view;
            tracked = q.valid;
            empty = q.empty;
            boxes = q.boxes ∙ p.boxes;
            first = p.valid;
            spent = p.empty;
          }

    in_both :
        0 < length (front c.a) → Ensures Goal (chain_copy_to_bytes A B copy_a copy_b g k n c h)
    unfolding chain_copy_to_bytes
    in_both pos =
        let ra = L.remaining_length c.a va in
        let rb = M.remaining_length c.b vb in
        let t1 : leb n (A.remaining c.a) ≡ false = ground arith in
        let t2 : (A.remaining c.a == 0) ≡ false = ground arith in
        let no_wrap : (A.remaining c.a + B.remaining c.b) % word_mod
            ≡ A.remaining c.a + B.remaining c.b =
          omega (arith, both.1) in
        let t3 : leb n (A.remaining c.a + B.remaining c.b) ≡ true = ground (arith, more-fits) in
        let cut : n - A.remaining c.a ≡ more = omega arith in
        let fr : IsFresh (g n) n h = serves n (omega arith) small in
        let m = bytes_mut (g n).at 0 (g n).cap 1 in
        rw (t1, t2, no_wrap, t3, with_capacity_mut-some g n h (omega arith) small, cut)
          (Ensures-bind (Poured L h1 (g n).cap (front c.a)) Goal _ _
            (put-room L g copy_a c.a m [] h1 va
              (IsMut-new h1 (g n).at (g n).cap (IsBuffer-new h (g n) n fr))
              (omega (arith, fr.enough)) (omega (arith, fr.enough)))
            λ r h' p.
              Ensures-bind (Gathered r.1) Goal _ _
                (second_put r.1 r.0 h' p (omega (arith, fr.enough)) (omega (arith, fr.enough)))
                λ q h'' j. frozen r.1 q h'' j)

  -- `copy_to_bytes` of at most 2 ^ 63 - 1 bytes from a chain of two valid cursors of lawful
  -- buffers, each with a `copy_to_bytes` that gives out what it should, with an allocator that
  -- answers and a fresh address for a control block: it gives a handle on the first `n` bytes to
  -- come, which may lie in both parts, and moves the cursor behind them, or panics if so many do
  -- not remain.
  pub chain_copy_to_bytes_lem :
      CopiesOut L copy_a c.a h
      → CopiesOut M copy_b c.b h
      → Serves g h
      → IsFreshBox k h
      → n ≤ isize_max
      → (n ≤ length (joint L M c)
          → Ensures
              (CopiedOut (chain-Lawful L M) (joint L M c) n)
              (chain_copy_to_bytes A B copy_a copy_b g k n c h))
        × (length (joint L M c) < n → chain_copy_to_bytes A B copy_a copy_b g k n c h ≡ panic)
  unfolding chain_copy_to_bytes
  chain_copy_to_bytes_lem copies copies' serves f small =
      let ra = L.remaining_length c.a va in
      let rb = M.remaining_length c.b vb in
      let size = length-append (front c.a) (back c.b) in
      (
        λ le. elim (dec_le n (length (front c.a))) [
          | yes inside ↦
              let t1 : leb n (A.remaining c.a) ≡ true = ground arith in
              rw t1 (in_first inside copies)
          | no beyond ↦ elim (ℕ_discrete (length (front c.a)) 0) [
            | yes z ↦
                let t1 : leb n (A.remaining c.a) ≡ false = ground arith in
                let t2 : (A.remaining c.a == 0) ≡ true = ground arith in
                let none_left : front c.a ≡ [] = sym (take_all 0 (front c.a) (omega arith)) in
                rw (t1, t2) (in_second none_left (omega arith) copies')
            | no nz ↦ in_both (omega arith) le serves f small (omega arith)
          ]
        ],
        λ gt.
            let t1 : leb n (A.remaining c.a) ≡ false = ground arith in
            elim (ℕ_discrete (A.remaining c.a) 0) [
              | yes z ↦
                  let t2 : (A.remaining c.a == 0) ≡ true = ground arith in
                  rw (t1, t2, copies'.short n (omega arith)) refl
              | no nz ↦
                  let t2 : (A.remaining c.a == 0) ≡ false = ground arith in
                  let no_wrap : (A.remaining c.a + B.remaining c.b) % word_mod
                      ≡ A.remaining c.a + B.remaining c.b =
                    omega (arith, both.1) in
                  let t3 : leb n (A.remaining c.a + B.remaining c.b) ≡ false = ground arith in
                  rw (t1, t2, no_wrap, t3) refl
            ],
      )
