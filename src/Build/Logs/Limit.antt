-- ===== src/Build/Logs/Limit.antt =====
-- Logs within the limit and beyond it, `readPodLogs` of services/build-service.
use obarena.Prelude.{
  take, ℕ, zero, suc, ◌+◌, ◌-◌, ◌≤◌, ◌<◌, ◌≡◌, refl, arith, Bool, true, false, Bool-cases, inl, inr,
  ◌==◌, List, [], ◌∷◌, ◌++◌, append_assoc, append-nil, sym, ◌∙◌, ap, length, length-append, sum_of,
  none, some,
}
use obarena.Build.Logs.{
  LimitWriter, write, copy, Stream, reason_of, read_logs, trim_loop, drop_last,
}

unfoldable pub concat : List (List ℕ) → List ℕ
concat [] = []
concat (p ∷ ps) = p ++ concat ps

-- The writer counts what it has kept, and has room.
record IsWithin (lw : LimitWriter) : Type 0 where
  counted : lw.n ≡ length lw.w
  room : lw.n ≤ lw.limit

length-take : (n : ℕ) (xs : List ℕ) → n ≤ length xs → length (take n xs) ≡ n
unfolding take
length-take zero xs h = refl
length-take (suc n) [] h = absurd (omega (arith, h))
length-take (suc n) (x ∷ xs) h = omega (arith, length-take n xs (omega (arith, h)))

write-IsWithin : (p : List ℕ) (lw : LimitWriter) → IsWithin lw → IsWithin (write p lw).1
unfolding write
write-IsWithin p lw v = ground (
  arith,
  v.counted,
  v.room,
  length-append lw.w p,
  length-append lw.w (take (lw.limit - lw.n) p),
  length-take (lw.limit - lw.n) p,
)

copy-IsWithin :
    (ps : List (List ℕ)) (ends : Bool) (lw : LimitWriter)
    → IsWithin lw
    → IsWithin (copy ps ends lw).1
unfolding copy
copy-IsWithin [] ends lw v = v
copy-IsWithin (p ∷ ps) ends lw v = elim (Bool-cases ((write p lw).0 == length p)) [
  | inl whole ↦ rw (whole, copy) (copy-IsWithin ps ends (write p lw).1 (write-IsWithin p lw v))
  | inr short ↦ rw (short, copy) (write-IsWithin p lw v)
]

copy-limit :
    (ps : List (List ℕ)) (ends : Bool) (lw : LimitWriter) → (copy ps ends lw).1.limit ≡ lw.limit
unfolding copy write
copy-limit [] ends lw = refl
copy-limit (p ∷ ps) ends lw = ground (arith, copy-limit ps ends (write p lw).1)

copy_short :
    (ps : List (List ℕ)) (p : List ℕ) (qs : List (List ℕ)) (ends : Bool) (lw : LimitWriter)
    → lw.n + sum_of length ps < lw.limit
    → lw.limit < lw.n + sum_of length ps + length p
    → (copy (ps ++ p ∷ qs) ends lw).0 ≡ false
unfolding copy write
copy_short [] p qs ends lw before after =
    ground (arith, before, after, length-take (lw.limit - lw.n) p)
copy_short (o ∷ ps) p qs ends lw before after = ground (
  arith,
  before,
  after,
  copy_short ps p qs ends (record lw { w = lw.w ++ o; n = lw.n + length o }),
)

-- If a chunk of the stream goes over the limit, the logs are not cut there: the read fails.
pub read_logs-over_limit :
    (max_log_bytes : ℕ) (ps : List (List ℕ)) (p : List ℕ) (qs : List (List ℕ)) (ends : Bool)
    → sum_of length ps < max_log_bytes
    → max_log_bytes < sum_of length ps + length p
    → read_logs max_log_bytes (record { chunks = ps ++ p ∷ qs; ends = ends }) ≡ none
unfolding read_logs reason_of
read_logs-over_limit max_log_bytes ps p qs ends before after = ground (
  arith,
  copy_short ps p qs ends (record { w = []; limit = max_log_bytes; n = 0 }) (omega (arith, before))
      (omega (arith, after)),
)

write_whole :
    (p : List ℕ) (lw : LimitWriter)
    → lw.n + length p ≤ lw.limit
    → ((write p lw).0 ≡ length p)
      × ((write p lw).1.w ≡ lw.w ++ p)
      × ((write p lw).1.n ≡ lw.n + length p)
      × ((write p lw).1.limit ≡ lw.limit)
unfolding write
write_whole [] lw room = ground (arith, room, append-nil lw.w)
write_whole (b ∷ p) lw room = ground (arith, room)

copy_whole :
    (ps : List (List ℕ)) (ends : Bool) (lw : LimitWriter)
    → lw.n + sum_of length ps ≤ lw.limit
    → (copy ps ends lw).0 ≡ ends × ((copy ps ends lw).1.w ≡ lw.w ++ concat ps)
unfolding copy write concat
copy_whole [] ends lw room = (refl, sym (append-nil lw.w))
copy_whole (p ∷ ps) ends lw room =
    let (all, kept, count, limit) = write_whole p lw (omega (arith, room)) in
    let lw' = (write p lw).1 in
    let (ok, rest) = copy_whole ps ends lw' (omega (arith, room, count, limit)) in
    elim (Bool-cases ((write p lw).0 == length p)) [
      | inl whole ↦
          rw (whole, copy)
            (ok, rest ∙ ap (λ w. w ++ concat ps) kept ∙ append_assoc lw.w p (concat ps))
      | inr short ↦ absurd (ground (arith, all, short))
    ]

-- A stream that ends well within the limit is read whole, and only trimmed at the end.
read_logs-within :
    (max_log_bytes : ℕ) (ps : List (List ℕ))
    → sum_of length ps ≤ max_log_bytes
    → read_logs max_log_bytes (record { chunks = ps; ends = true })
      ≡ some (trim_loop (length (concat ps)) (concat ps))
unfolding read_logs reason_of
read_logs-within max_log_bytes ps room =
    let (ok, whole) =
      copy_whole ps true (record { w = []; limit = max_log_bytes; n = 0 }) (omega (arith, room)) in
    rw (ok, whole) refl

length-drop_last : (bs : List ℕ) → length (drop_last bs) ≤ length bs
unfolding drop_last
length-drop_last [] = omega arith
length-drop_last (b ∷ []) = omega arith
length-drop_last (b ∷ c ∷ bs) = omega (arith, length-drop_last (c ∷ bs))

length-trim_loop : (fuel : ℕ) (bs : List ℕ) → length (trim_loop fuel bs) ≤ length bs
unfolding trim_loop
length-trim_loop zero bs = omega arith
length-trim_loop (suc fuel) bs =
    ground (arith, length-trim_loop fuel (drop_last bs), length-drop_last bs)

-- What is read is never longer than the limit.
pub length-read_logs :
    (max_log_bytes : ℕ) (s : Stream) (logs : List ℕ)
    → read_logs max_log_bytes s ≡ some logs
    → length logs ≤ max_log_bytes
unfolding read_logs reason_of
length-read_logs max_log_bytes s logs e =
    let start : LimitWriter = record { w = []; limit = max_log_bytes; n = 0 } in
    let v = copy-IsWithin s.chunks s.ends start (record { counted = refl; room = omega arith }) in
    let r = copy s.chunks s.ends start in
    ground (
      arith,
      e,
      v.counted,
      v.room,
      length-trim_loop (length r.1.w) r.1.w,
      copy-limit s.chunks s.ends start,
    )
