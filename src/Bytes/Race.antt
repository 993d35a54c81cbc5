-- ===== src/Bytes/Race.antt =====
-- `promote_ref` in src/bytes/bytes.rs when another thread has promoted the handle meanwhile.
use tcio.Base.{ℕ, ◌+◌, ◌-◌, ◌/◌, ◌%◌, ◌≤◌, ◌≡◌, ◌≢◌, refl, some, arith, ◌==◌, false}
use tcio.Base.Words.{isize_max}
use tcio.Memory.{Heap, Shared, Ensures, IsFreshBox, set_box}
use tcio.Shared.{promote_with_vec}
use tcio.Shared.Steps.{increment-ok, release_shared}
use tcio.Bytes.{Bytes, bytes, promote_ref, build_unpromoted_vec}

-- A thread that loses the race to promote an unpromoted handle, to a winner with an even word `t`
-- and a count that can still grow, gets two handles under `t`, and the count of `t` goes up by one.
-- The control block that it made at its fresh address `k` is still there with a count of one.
pub promote_ref-lost :
    (h : Heap) (k t : ℕ) (b : Bytes) (s : Shared)
    → IsFreshBox k h
    → b.data_word % 2 ≡ 1
    → t % 2 ≡ 0
    → h.boxes t ≡ some s
    → s.ref_count ≤ isize_max
    → Ensures
        (λ r h'.
          (r ≡ (bytes b.ptr b.len t, bytes b.ptr b.len t))
          × (h'.boxes t ≡ some (record s { ref_count = s.ref_count + 1 }))
          × (h'.boxes k
              ≡ some (record {
                ref_count = 1;
                ptr = b.ptr - b.data_word / 2;
                cap = b.len + b.data_word / 2;
              })))
        (promote_ref k t b (b.data_word / 2) b.data_word h)
unfolding promote_ref promote_with_vec build_unpromoted_vec
promote_ref-lost h k t b s f odd even box le =
    let ne : (t == b.data_word) ≡ false = ground arith in
    let mine : Shared = record {
      ref_count = 2;
      ptr = b.ptr - b.data_word / 2;
      cap = b.len + b.data_word / 2;
    } in
    let made : Heap = set_box k (some mine) h in
    let apart : t ≢ k = λ e. ground (arith, e, f.new, box) in
    let listed : made.boxes k ≡ some mine = ground arith in
    let freed : Heap = set_box k (some (record mine { ref_count = 1 })) made in
    let theirs : freed.boxes t ≡ some s = ground (arith, apart) in
    rw
      (ne, release_shared made k listed (omega arith) (omega arith), increment-ok freed t theirs le)
      (refl, ground arith, ground (arith, apart))
