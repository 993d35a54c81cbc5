-- ===== src/Transfer/Track.antt =====
-- The `Take` that the default `copy_to_bytes` of src/bytes/buf.rs pours, and the handle it pours into.
use tcio.Base.{
  ℕ, ◌+◌, ◌-◌, ◌≤◌, ◌≡◌, ◌/◌, inl, inr, refl, ap, ◌∙◌, Option, some, none, List, [], take, drop,
  arith, true, leb, length-take, drop-drop,
}
use tcio.Memory.{Heap, Grant, allocate, IsFresh}
use tcio.Shared.Backed.{IsBuffer, owned}
use tcio.Buf.{Buf, Take, take_buf}
use tcio.Buf.Lawful.{Lawful, Moved}
use tcio.Buf.Adapters.{take-Lawful, shown}
use tcio.BytesMut.{bytes_mut}
use tcio.BytesMut.Valid.{IsMut}

-- A new handle with nothing written.
pub IsMut-new : (h : Heap) (p c : ℕ) → IsBuffer h p c → IsMut h (bytes_mut p 0 c 1) []
IsMut-new h p c b =
    let start : p - 1 / 2 ≡ p = omega arith in
    let size : c + 1 / 2 ≡ c = omega arith in
    record {
      size = refl;
      fit = omega arith;
      holds = tt;
      standing = owned refl (omega arith) (rw (start, size) b);
    }

pub IsBuffer-none : (h : Heap) (p : ℕ) → IsBuffer h p 0
IsBuffer-none h p = record {
  mapped = λ a lo hi. absurd (omega arith);
  live = inl refl;
  small = omega arith;
}

pub IsBuffer-new :
    (h : Heap) (g : Grant) (n : ℕ) → IsFresh g n h → IsBuffer (allocate g h) g.at g.cap
IsBuffer-new h g n f = record {
  mapped = λ a lo hi. ground arith;
  live = inr (ground arith);
  small = f.bounded;
}

module _ {S : Type 0} {B : Buf S} {V : S → Type 0} {content : S → List ℕ} (L : Lawful B V content)
    (whole : List ℕ) (len : ℕ) where
  -- The inner cursor has moved as far as the limit went down.
  pub record Tracked (t : Take S) : Type 0 where
    pub inner_valid : V t.inner
    pub bound : t.limit ≤ len
    pub place : content t.inner ≡ drop (len - t.limit) whole

  Tracked-move :
      (n limit : ℕ) (s : S)
      → n ≤ limit
      → limit ≤ len
      → content s ≡ drop (len - limit) whole
      → (r : Option S)
      → Moved
          (λ (t : Take S). V t.inner)
          (shown L)
          n
          (take limit (content s))
          (elim r [ none ↦ none | some inner ↦ some (record { inner = inner; limit = limit - n }) ])
      → Moved V content n (content s) r
      → Moved Tracked
          (shown L)
          n
          (take limit (content s))
          (elim r [ none ↦ none | some inner ↦ some (record { inner = inner; limit = limit - n }) ])
  Tracked-move n limit s le bound e none m o = absurd m
  Tracked-move n limit s le bound e (some s') (v, f) (_, q) = (
    record {
      inner_valid = v;
      bound = omega arith;
      place =
          let far : len - limit + n ≡ len - (limit - n) = omega arith in
          q ∙ ap (λ l. drop n l) e ∙ drop-drop (len - limit) n whole ∙ ap (λ k. drop k whole) far;
    },
    f,
  )

  pub Tracked-Lawful : Lawful (take_buf B) Tracked (shown L)
  Tracked-Lawful =
      let base = take-Lawful L in
      record {
        remaining_length = λ t v. base.remaining_length t v.inner_valid;
        chunk_prefix = λ t v. base.chunk_prefix t v.inner_valid;
        chunk_some = λ t v. base.chunk_some t v.inner_valid;
        advance_drop = λ n t v le.
            let size = length-take t.limit (content t.inner) in
            let test : leb n t.limit ≡ true = ground (arith, size, le) in
            let moved = base.advance_drop n t v.inner_valid le in
            rw test (
              Tracked-move n t.limit t.inner (omega (arith, size)) v.bound v.place
                (B.advance n t.inner) (rw test at moved)
                (L.advance_drop n t.inner v.inner_valid (omega (arith, size))));
      }
