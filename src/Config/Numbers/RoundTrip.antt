-- ===== src/Config/Numbers/RoundTrip.antt =====
-- Numbers that are printed with `%d` and read back by `strconv.Atoi`.
use Prim.Native.Char.{Char, code}
use mathlib.Core.Path.{subst}
use mathlib.Core.Option.{some-injective}
use text.Mathlib.TextLemmas.{cons≢nil, nil≢cons, head-eq_of_cons-eq}
use obarena.Prelude.{
  ℕ, zero, suc, ◌+◌, ◌/◌, ◌%◌, ◌^◌, ◌<◌, ◌≤◌, ◌≡◌, ◌≢◌, refl, sym, ◌∙◌, ap, String, str_eq, eq_iff,
  true, false, Bool-cases, if-intro, ltb→lt, ◌⊎◌, inl, inr, leb, ltb, ◌==◌, eq-cases, ℤ, pos,
  negsuc, Option, none, some, arith,
}
use obarena.Config.Numbers.{
  IsInt, is_digit, scan, scan_some, minus, positive_int, negative_int, atoi, digit, digits,
  format_nat, format_int,
}

code-digit : (n : ℕ) → n < 10 → code (digit n) ≡ b'0' + n
unfolding digit
code-digit n h = elim (eq-cases n 0) [
  | inl e ↦ rw e refl
  | inr n0 ↦ elim (eq-cases n 1) [
    | inl e ↦ rw e refl
    | inr n1 ↦ elim (eq-cases n 2) [
      | inl e ↦ rw e refl
      | inr n2 ↦ elim (eq-cases n 3) [
        | inl e ↦ rw e refl
        | inr n3 ↦ elim (eq-cases n 4) [
          | inl e ↦ rw e refl
          | inr n4 ↦ elim (eq-cases n 5) [
            | inl e ↦ rw e refl
            | inr n5 ↦ elim (eq-cases n 6) [
              | inl e ↦ rw e refl
              | inr n6 ↦ elim (eq-cases n 7) [
                | inl e ↦ rw e refl
                | inr n7 ↦ elim (eq-cases n 8) [
                  | inl e ↦ rw e refl
                  | inr n8 ↦ elim (eq-cases n 9) [
                    | inl e ↦ rw e refl
                    | inr n9 ↦ absurd (ground (arith, h, n0, n1, n2, n3, n4, n5, n6, n7, n8, n9))
                  ]
                ]
              ]
            ]
          ]
        ]
      ]
    ]
  ]
]

-- Reading the last digit of `n` after the others gives `n`.
scan-digit : (n : ℕ) (out : String) → scan (String.◌∷◌ (digit (n % 10)) out) (n / 10) ≡ scan out n
unfolding scan
scan-digit n out = let c = code-digit (n % 10) (omega arith) in ground (arith, c)

scan-digits : (fuel n : ℕ) (out : String) → n ≤ fuel → scan (digits fuel n out) 0 ≡ scan out n
unfolding digits
scan-digits zero n out h = let none_left : 0 ≡ n = omega (arith, h) in ap (scan out) none_left
scan-digits (suc fuel) n out h = elim (eq-cases n 0) [
  | inl none_left ↦ rw (none_left, digits) refl
  | inr more ↦
      rw (more, digits)
        (scan-digits fuel (n / 10) (String.◌∷◌ (digit (n % 10)) out) (omega (arith, h))
          ∙ scan-digit n out)
]

scan_some-scan : (s : String) → s ≢ "" → scan_some s ≡ scan s 0
unfolding scan_some
scan_some-scan String.[] h = absurd (h refl)
scan_some-scan (String.◌∷◌ c s) h = refl

-- The first character of a number is a digit.
record StartsWithDigit (s : String) : Type 0 where
  first : Char
  rest : String
  same : s ≡ String.◌∷◌ first rest
  is_one : is_digit (code first) ≡ true

digits-StartsWithDigit :
    (fuel n : ℕ) (out : String)
    → n ≢ 0 ⊎ StartsWithDigit out
    → n ≤ fuel
    → StartsWithDigit (digits fuel n out)
unfolding digits
digits-StartsWithDigit zero n out start h = elim start [
  | inl ne ↦ absurd (ne (omega (arith, h)))
  | inr s ↦ s
]
digits-StartsWithDigit (suc fuel) n out start h = elim (eq-cases n 0) [
  | inl none_left ↦ elim start [ inl ne ↦ absurd (ne none_left) | inr s ↦ rw (none_left, digits) s ]
  | inr more ↦
      let c = code-digit (n % 10) (omega arith) in
      rw (more, digits)
        (digits-StartsWithDigit fuel (n / 10) (String.◌∷◌ (digit (n % 10)) out)
          (inr (record {
            first = digit (n % 10);
            rest = out;
            same = refl;
            is_one = ground (arith, c);
          }))
          (omega (arith, h)))
]

format_nat-StartsWithDigit : (n : ℕ) → StartsWithDigit (format_nat n)
unfolding format_nat
format_nat-StartsWithDigit n =
    if-intro StartsWithDigit (n == 0) "0" (digits n n "")
      (λ _. record { first = "0"; rest = ""; same = refl; is_one = refl })
      (λ ne. digits-StartsWithDigit n n "" (inl (ground (arith, ne))) (omega arith))

scan-format_nat : (n : ℕ) → scan (format_nat n) 0 ≡ some n
unfolding format_nat scan
scan-format_nat n = elim (eq-cases n 0) [
  | inl e ↦ rw e refl
  | inr more ↦ rw (more, format_nat) (scan-digits n n "" (omega arith))
]

scan_some-format_nat : (n : ℕ) → scan_some (format_nat n) ≡ some n
scan_some-format_nat n =
    let s = format_nat-StartsWithDigit n in
    scan_some-scan (format_nat n) (λ e. cons≢nil (sym s.same ∙ e)) ∙ scan-format_nat n

atoi-digit : (s : String) → StartsWithDigit s → atoi s ≡ positive_int (scan_some s)
unfolding atoi
atoi-digit String.[] d = absurd (nil≢cons d.same)
atoi-digit (String.◌∷◌ c s) d =
    let same : code c ≡ code d.first = ap code (head-eq_of_cons-eq d.same) in
    ground (arith, same, d.is_one)

-- `Atoi` reads an int back as it was printed with `%d`.
pub atoi-format_int : (z : ℤ) → IsInt z → atoi (format_int z) ≡ some z
unfolding format_int atoi positive_int negative_int
atoi-format_int (pos n) h =
    atoi-digit (format_nat n) (format_nat-StartsWithDigit n)
    ∙ rw (scan_some-format_nat n) (ground (arith, h))
atoi-format_int (negsuc n) h = rw (scan_some-format_nat (n + 1)) (ground (arith, h))

positive_int-IsInt : (o : Option ℕ) (z : ℤ) → positive_int o ≡ some z → IsInt z
unfolding positive_int
positive_int-IsInt none z h = cc
positive_int-IsInt (some n) z h = elim (Bool-cases (ltb n (2 ^ 63))) [
  | inl fits ↦
      let same : some (pos n) ≡ some z = ground (arith, h, fits) in
      subst IsInt (some-injective (pos n) z same) (ltb→lt n (2 ^ 63) fits)
  | inr too_big ↦ absurd (ground (arith, h, too_big))
]

minus-IsInt : (n : ℕ) → n ≤ 2 ^ 63 → IsInt (minus n)
minus-IsInt zero h = omega arith
minus-IsInt (suc n) h = omega (arith, h)

negative_int-IsInt : (o : Option ℕ) (z : ℤ) → negative_int o ≡ some z → IsInt z
unfolding negative_int
negative_int-IsInt none z h = cc
negative_int-IsInt (some n) z h = elim (Bool-cases (leb n (2 ^ 63))) [
  | inl fits ↦
      let same : some (minus n) ≡ some z = ground (arith, h, fits) in
      subst IsInt (some-injective (minus n) z same) (minus-IsInt n (ground (arith, fits)))
  | inr too_big ↦ absurd (ground (arith, h, too_big))
]

pub atoi-IsInt : (s : String) (z : ℤ) → atoi s ≡ some z → IsInt z
unfolding atoi
atoi-IsInt String.[] z h = cc
atoi-IsInt (String.◌∷◌ c s) z h = elim (Bool-cases (code c == b'-')) [
  | inl minus_sign ↦ negative_int-IsInt (scan_some s) z (ground (arith, h, minus_sign))
  | inr no_minus ↦ elim (Bool-cases (code c == b'+')) [
    | inl plus_sign ↦ positive_int-IsInt (scan_some s) z (ground (arith, h, no_minus, plus_sign))
    | inr no_plus ↦
        positive_int-IsInt (scan_some (String.◌∷◌ c s)) z (ground (arith, h, no_minus, no_plus))
  ]
]

pub format_int-some : (z : ℤ) → str_eq (format_int z) "" ≡ false
unfolding format_int
format_int-some (pos n) =
    let s = format_nat-StartsWithDigit n in
    let ne : (str_eq (format_nat n) "" ≡ true) → ⊥ =
      λ h. cons≢nil (sym s.same ∙ (eq_iff (format_nat n) "").0 h) in
    ground (arith, ne)
format_int-some (negsuc n) =
    let ne : (str_eq (String.◌∷◌ "-" (format_nat (n + 1))) "" ≡ true) → ⊥ =
      λ h. cons≢nil ((eq_iff (String.◌∷◌ "-" (format_nat (n + 1))) "").0 h) in
    ground (arith, ne)
