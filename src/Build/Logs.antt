-- ===== src/Build/Logs.antt =====
-- The logs of a build: `limitWriter` and the second half of `readPodLogs` in builder.go of
-- services/build-service. A byte is a number.
pub mod Limit
use obarena.Prelude.{
  take, ℕ, zero, suc, ◌+◌, ◌-◌, Bool, true, false, not, ◌&&◌, ◌||◌, ltb, leb, ◌==◌, if◌then◌else◌,
  List, [], ◌∷◌, ◌++◌, length, Option, none, some,
}

-- `w` is the buffer that it writes to.
pub record LimitWriter : Type 0 where
  pub w : List ℕ
  pub limit : ℕ
  pub n : ℕ

-- What it says it has written, and the writer after it. A `bytes.Buffer` takes everything.
unfoldable pub write : List ℕ → LimitWriter → ℕ × LimitWriter
unfolding take
write p lw =
    let q = if ltb lw.limit (lw.n + length p) then take (lw.limit - lw.n) p else p in
    if leb lw.limit lw.n
    then (length p, lw)
    else (length q, record lw { w = lw.w ++ q; n = lw.n + length q })

-- `io.Copy`: it stops at a write that took less than it was given. `ends` is whether the stream
-- ends with EOF and not with an error.
unfoldable pub copy : List (List ℕ) → Bool → LimitWriter → Bool × LimitWriter
unfolding write
copy [] ends lw = (ends, lw)
copy (p ∷ ps) ends lw =
    let (n, lw') = write p lw in
    let rest = copy ps ends lw' in if n == length p then rest else (false, lw')

-- Where `utf8.ValidString` is: between characters, or in one that goes on for `n` more bytes after
-- a next one between two bounds.
pub data Utf8 : Type 0 where
  boundary invalid : Utf8
  inside : ℕ → ℕ → ℕ → Utf8

abbrev between : ℕ → ℕ → ℕ → Bool
between low high b = leb low b && leb b high

abbrev first_byte : ℕ → Utf8
first_byte b =
    if ltb b 128
    then boundary
    else if between 194 223 b
    then inside 128 191 0
    else if b == 224
    then inside 160 191 1
    else if b == 237
    then inside 128 159 1
    else if between 225 239 b
    then inside 128 191 1
    else if b == 240
    then inside 144 191 2
    else if between 241 243 b
    then inside 128 191 2
    else if b == 244
    then inside 128 143 2
    else invalid

abbrev after_byte : ℕ → Utf8
after_byte zero = boundary
after_byte (suc n) = inside 128 191 n

abbrev next_byte : Utf8 → ℕ → Utf8
next_byte boundary b = first_byte b
next_byte (inside low high n) b = if between low high b then after_byte n else invalid
next_byte invalid b = invalid

is_valid_from : Utf8 → List ℕ → Bool
is_valid_from boundary [] = true
is_valid_from _ [] = false
is_valid_from s (b ∷ bs) = is_valid_from (next_byte s b) bs

unfoldable pub is_valid_utf8 : List ℕ → Bool
unfolding is_valid_from
is_valid_utf8 bs = is_valid_from boundary bs

-- `utf8.FullRuneInString` of one byte: false for the first byte of a longer character.
abbrev pub is_full_rune : ℕ → Bool
is_full_rune b = not (between 194 244 b)

unfoldable pub drop_last : List ℕ → List ℕ
drop_last [] = []
drop_last (b ∷ []) = []
drop_last (b ∷ c ∷ bs) = b ∷ drop_last (c ∷ bs)

unfoldable pub last_byte : List ℕ → ℕ
last_byte [] = 0
last_byte (b ∷ []) = b
last_byte (b ∷ c ∷ bs) = last_byte (c ∷ bs)

-- The loop that takes bytes off the end: a round takes one, so the length is rounds enough.
unfoldable pub trim_loop : ℕ → List ℕ → List ℕ
unfolding is_valid_utf8 drop_last last_byte
trim_loop zero bs = bs
trim_loop (suc fuel) bs =
    let rest = trim_loop fuel (drop_last bs) in
    if ltb 0 (length bs) && not (is_full_rune (last_byte bs)) && not (is_valid_utf8 bs)
    then rest
    else bs

-- The stream of a container, as the chunks that it is read in.
pub record Stream : Type 0 where
  pub chunks : List (List ℕ)
  pub ends : Bool

unfoldable pub reason_of : Bool × LimitWriter → Option (List ℕ)
unfolding trim_loop
reason_of (ok, lw) = if ok then some (trim_loop (length lw.w) lw.w) else none

unfoldable pub read_logs : ℕ → Stream → Option (List ℕ)
unfolding copy reason_of
read_logs max_log_bytes s =
    reason_of (copy s.chunks s.ends (record { w = []; limit = max_log_bytes; n = 0 }))
