-- ===== src/Config/Brokers.antt =====
-- The list of brokers, as bot-runner/main.go, bot-orchestrator/main.go, build-service/main.go,
-- sandbox-orchestrator/main.go and telemetry-ingester/main.go under services/ read it.
use Prim.Native.Char.{Char, code}
use Prim.Native.String.{◌++◌}
use text.Mathlib.TextLemmas.{cons-append, nil-append, nil≢cons, tail-eq_of_cons-eq}
use obarena.Prelude.{
  ◌≡◌, refl, ◌∙◌, ap, inl, inr, String, str_eq, Bool, true, false, Bool-cases, if-intro, ◌&&◌, ◌==◌,
  if◌then◌else◌, List, [], ◌∷◌, All, arith,
}
use obarena.Config.Texts.{is_space, trim_left, trim_right, trim_space, comma, split_at, split, join}

-- The loop over the parts: those that are only space are left out.
unfoldable pub clean_parts : List String → List String
unfolding trim_space
clean_parts [] = []
clean_parts (p ∷ ps) =
    let rest = clean_parts ps in if str_eq (trim_space p) "" then rest else trim_space p ∷ rest

unfoldable pub broker_list : String → List String
unfolding split clean_parts
broker_list raw = clean_parts (split raw)

abbrev has_comma : String → Bool
has_comma String.[] = false
has_comma (String.◌∷◌ c s) = let rest = has_comma s in if code c == comma then true else rest

-- Not empty, without a comma, and without space at its ends.
pub record IsClean (b : String) : Type 0 where
  pub some : str_eq b "" ≡ false
  pub one_part : has_comma b ≡ false
  pub trimmed : trim_space b ≡ b

trim_right-twice : (s : String) → trim_right (trim_right s) ≡ trim_right s
unfolding trim_right
trim_right-twice String.[] = refl
trim_right-twice (String.◌∷◌ c s) =
    elim (Bool-cases (str_eq (trim_right s) "" && is_space (code c))) [
      | inl gone ↦ rw (gone, trim_right) refl
      | inr kept ↦ let again = trim_right-twice s in rw (kept, trim_right) (rw (again, kept) refl)
    ]

trim_left-twice : (s : String) → trim_left (trim_left s) ≡ trim_left s
unfolding trim_left
trim_left-twice String.[] = refl
trim_left-twice (String.◌∷◌ c s) = elim (Bool-cases (is_space (code c))) [
  | inl gone ↦ rw (gone, trim_left) (trim_left-twice s)
  | inr kept ↦ rw (kept, trim_left) (rw (kept, trim_left) refl)
]

-- Trimming at the left leaves the right end.
trim_right-trim_left : (s : String) → trim_right s ≡ s → trim_right (trim_left s) ≡ trim_left s
unfolding trim_left trim_right
trim_right-trim_left String.[] h = refl
trim_right-trim_left (String.◌∷◌ c s) h =
    let shorter : trim_right s ≡ s =
      elim (Bool-cases (str_eq (trim_right s) "" && is_space (code c))) [
        | inl gone ↦
            let none_left : "" ≡ String.◌∷◌ c s = ground (arith, h, gone) in
            absurd (nil≢cons none_left)
        | inr kept ↦
            let same : String.◌∷◌ c (trim_right s) ≡ String.◌∷◌ c s = ground (arith, h, kept) in
            tail-eq_of_cons-eq same
      ] in
    if-intro (λ x. trim_right x ≡ x) (is_space (code c)) (trim_left s) (String.◌∷◌ c s)
      (λ _. trim_right-trim_left s shorter) (λ _. h)

trim_space-twice : (s : String) → trim_space (trim_space s) ≡ trim_space s
unfolding trim_space
trim_space-twice s =
    ap trim_left (trim_right-trim_left (trim_right s) (trim_right-twice s))
    ∙ trim_left-twice (trim_right s)

has_comma-trim_left : (s : String) → has_comma s ≡ false → has_comma (trim_left s) ≡ false
unfolding trim_left
has_comma-trim_left String.[] h = refl
has_comma-trim_left (String.◌∷◌ c s) h = ground (arith, h, has_comma-trim_left s)

has_comma-trim_right : (s : String) → has_comma s ≡ false → has_comma (trim_right s) ≡ false
unfolding trim_right
has_comma-trim_right String.[] h = refl
has_comma-trim_right (String.◌∷◌ c s) h =
    if-intro (λ x. has_comma x ≡ false) (str_eq (trim_right s) "" && is_space (code c)) ""
      (String.◌∷◌ c (trim_right s)) (λ _. refl) (λ _. ground (arith, h, has_comma-trim_right s))

split_at-one_part :
    (c : Char) (ps : List String)
    → All (λ p. has_comma p ≡ false) ps
    → All (λ p. has_comma p ≡ false) (split_at c ps)
split_at-one_part c [] all = tt
split_at-one_part c (p ∷ ps) (first, all) =
    if-intro (All (λ p. has_comma p ≡ false)) (code c == comma) ("" ∷ p ∷ ps) (String.◌∷◌ c p ∷ ps)
      (λ _. (refl, (first, all))) (λ other. (ground (arith, first, other), all))

split-one_part : (s : String) → All (λ p. has_comma p ≡ false) (split s)
unfolding split
split-one_part String.[] = (refl, tt)
split-one_part (String.◌∷◌ c s) = split_at-one_part c (split s) (split-one_part s)

clean_parts-IsClean :
    (ps : List String) → All (λ p. has_comma p ≡ false) ps → All IsClean (clean_parts ps)
unfolding clean_parts
clean_parts-IsClean [] all = tt
clean_parts-IsClean (p ∷ ps) (first, all) =
    if-intro (All IsClean) (str_eq (trim_space p) "") (clean_parts ps)
      (trim_space p ∷ clean_parts ps) (λ _. clean_parts-IsClean ps all)
      (λ some_left. (
        record {
          some = some_left;
          one_part =
              unfold trim_space in
              has_comma-trim_left (trim_right p) (has_comma-trim_right p first);
          trimmed = trim_space-twice p;
        },
        clean_parts-IsClean ps all,
      ))

clean_parts-same : (bs : List String) → All IsClean bs → clean_parts bs ≡ bs
unfolding clean_parts
clean_parts-same [] all = refl
clean_parts-same (b ∷ bs) (first, all) =
    rw (first.trimmed, first.some) (ap (◌∷◌ b) (clean_parts-same bs all))

-- There is a part, also in the empty text.
split-some : (s : String) → (p : String) × (ps : List String) × (split s ≡ p ∷ ps)
unfolding split
split-some String.[] = ("", [], refl)
split-some (String.◌∷◌ c s) =
    let (p, ps, e) = split-some s in
    elim (Bool-cases (code c == comma)) [
      | inl here ↦ ("", p ∷ ps, rw (e, here) refl)
      | inr other ↦ (String.◌∷◌ c p, ps, rw (e, other) refl)
    ]

split-one : (b : String) → has_comma b ≡ false → split b ≡ b ∷ []
unfolding split
split-one String.[] h = refl
split-one (String.◌∷◌ c b) h =
    let rest = split-one b (ground (arith, h)) in
    let other : (code c == comma) ≡ false = ground (arith, h) in rw (rest, other) refl

split-first :
    (b rest : String) → has_comma b ≡ false → split (b ++ String.◌∷◌ "," rest) ≡ b ∷ split rest
unfolding split
split-first String.[] rest h =
    let (p, ps, e) = split-some rest in rw (nil-append (String.◌∷◌ "," rest)) (rw e refl)
split-first (String.◌∷◌ c b) rest h =
    let later = split-first b rest (ground (arith, h)) in
    let other : (code c == comma) ≡ false = ground (arith, h) in
    rw (cons-append c b (String.◌∷◌ "," rest)) (rw (later, other) refl)

split-join : (b : String) (bs : List String) → All IsClean (b ∷ bs) → split (join (b ∷ bs)) ≡ b ∷ bs
unfolding join
split-join b [] (first, all) = split-one b first.one_part
split-join b (c ∷ bs) (first, all) =
    split-first b (join (c ∷ bs)) first.one_part ∙ ap (◌∷◌ b) (split-join c bs all)

broker_list-join : (bs : List String) → All IsClean bs → broker_list (join bs) ≡ bs
unfolding broker_list clean_parts join
broker_list-join [] all = refl
broker_list-join (b ∷ bs) all = ap clean_parts (split-join b bs all) ∙ clean_parts-same (b ∷ bs) all

pub broker_list-IsClean : (raw : String) → All IsClean (broker_list raw)
unfolding broker_list
broker_list-IsClean raw = clean_parts-IsClean (split raw) (split-one_part raw)

-- A list of brokers that is joined again reads as the same list.
pub broker_list-join_again : (raw : String) → broker_list (join (broker_list raw)) ≡ broker_list raw
broker_list-join_again raw = broker_list-join (broker_list raw) (broker_list-IsClean raw)
