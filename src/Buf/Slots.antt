-- ===== src/Buf/Slots.antt =====
-- `chunks_vectored` of src/bytes/buf.rs, src/bytes/take.rs and src/bytes/chain.rs: the slices that
-- are written into `dst`, in order. The returned count is their number.
use tcio.Base.{ℕ, ◌-◌, min, List, [], ◌∷◌, ◌++◌, length, take, leb, ltb, ◌==◌, if◌then◌else◌}
use tcio.Buf.{Buf, Take, Chain}

-- How a buffer fills a `dst` of so many slices.
abbrev pub Slots : Type 0 → Type 0
Slots S = ℕ → S → List (List ℕ)

-- The default of the trait.
unfoldable pub chunks_vectored : {S : Type 0} → Buf S → Slots S
chunks_vectored B n s = if n == 0 then [] else if ltb 0 (B.remaining s) then B.chunk s ∷ [] else []

-- The loop of `Take`: `slice.get(..limit)` is there if the slice is that long.
unfoldable pub limit_slices : ℕ → List (List ℕ) → List (List ℕ)
limit_slices limit [] = []
limit_slices limit (s ∷ ss) =
    if leb limit (length s) then take limit s ∷ [] else s ∷ limit_slices (limit - length s) ss

unfoldable pub take_vectored : {S : Type 0} → Slots S → Slots (Take S)
take_vectored inner n t =
    if t.limit == 0 then [] else limit_slices t.limit (inner (min n 32) t.inner)

unfoldable pub chain_vectored : {S T : Type 0} → Slots S → Slots T → Slots (Chain S T)
chain_vectored a b n c = a n c.a ++ b (n - length (a n c.a)) c.b
