-- ===== src/Text/Decimal.antt =====
-- The decimal numerals that `parse::<u64>` reads: two numerals of digits with no leading zero and
-- one value are the same text.
use mathlib.Core.List.{reverse_aux, reverse-reverse}
use native.Mathlib.Nat.{mul_comm}
use luminos.Prelude.{
  ℕ, ◌+◌, ◌-◌, ◌*◌, ◌≤◌, ◌<◌, ◌≡◌, refl, sym, ap, ◌∙◌, Bool, true, false, ◌&&◌, ◌||◌, not, some, [],
  ◌∷◌, reverse, arith, all, length, ltb, Bool-cases, inl, inr, ◌⊎◌, ◌==◌,
}
use luminos.Text.Bytes.{
  Text, is_ascii_digit, digits_value, parse_u64, u64_modulus, starts_with, is_empty,
}

-- What the version parsers refuse: an empty part, a byte that is no digit, a leading zero.
abbrev pub is_refused_part : Text → Bool
is_refused_part raw =
    is_empty raw
    || not (all is_ascii_digit raw)
    || ltb 1 (length raw) && starts_with raw (b'0' ∷ [])

-- The value of digits whose last one stands first.
rvalue : Text → ℕ
rvalue [] = 0
rvalue (d ∷ r) = 10 * rvalue r + (d - b'0')

-- The same digits, whose first one is not zero.
abbrev HasLead : Text → Type 0
HasLead [] = ⊥
HasLead (d ∷ []) = b'0' < d
HasLead (d ∷ e ∷ r) = HasLead (e ∷ r)

digits_value-cons :
    (acc b : ℕ) (s : Text) (v : ℕ)
    → digits_value acc (b ∷ s) ≡ some v
    → digits_value (10 * acc + (b - b'0')) s ≡ some v
unfolding digits_value
digits_value-cons acc b s v h = rw (mul_comm 10 acc) (ground arith)

digits_value-eq :
    (r s : Text) (v : ℕ) → digits_value (rvalue r) s ≡ some v → v ≡ rvalue (reverse_aux s r)
unfolding digits_value rvalue
digits_value-eq r [] v h = ground arith
digits_value-eq r (b ∷ s) v h = digits_value-eq (b ∷ r) s v (digits_value-cons (rvalue r) b s v h)

reverse_aux-digits :
    (s r : Text)
    → all is_ascii_digit s ≡ true
    → all is_ascii_digit r ≡ true
    → all is_ascii_digit (reverse_aux s r) ≡ true
reverse_aux-digits [] r h k = k
reverse_aux-digits (b ∷ s) r h k = reverse_aux-digits s (b ∷ r) (ground arith) (ground arith)

reverse_aux-HasLead : (s r : Text) → HasLead r → HasLead (reverse_aux s r)
reverse_aux-HasLead [] r h = h
reverse_aux-HasLead (b ∷ s) [] h = absurd h
reverse_aux-HasLead (b ∷ s) (d ∷ r) h = reverse_aux-HasLead s (b ∷ d ∷ r) h

rvalue_pos : (r : Text) → HasLead r → 0 < rvalue r
unfolding rvalue
rvalue_pos [] h = absurd h
rvalue_pos (d ∷ []) h = omega arith
rvalue_pos (d ∷ e ∷ r) h = omega (arith, rvalue_pos (e ∷ r) h)

digit_range : (d : ℕ) → is_ascii_digit d ≡ true → (b'0' ≤ d) × (d ≤ b'9')
unfolding is_ascii_digit
digit_range d h = ground arith

head_digit :
    (d : ℕ) (r : Text)
    → all is_ascii_digit (d ∷ r) ≡ true
    → (b'0' ≤ d) × (d ≤ b'9') × (all is_ascii_digit r ≡ true)
head_digit d r h = ground (arith, digit_range d)

rvalue_injective :
    (r s : Text)
    → all is_ascii_digit r ≡ true
    → all is_ascii_digit s ≡ true
    → HasLead r
    → HasLead s
    → rvalue r ≡ rvalue s
    → r ≡ s
unfolding rvalue
rvalue_injective [] s dr ds lr ls e = absurd lr
rvalue_injective (a ∷ r) [] dr ds lr ls e = absurd ls
rvalue_injective (a ∷ []) (b ∷ []) dr ds lr ls e =
    let same : a ≡ b = omega (arith, head_digit a [] dr, head_digit b [] ds) in
    ap (λ d. d ∷ []) same
rvalue_injective (a ∷ []) (b ∷ c ∷ s) dr ds lr ls e =
    absurd (omega (arith, head_digit a [] dr, head_digit b (c ∷ s) ds, rvalue_pos (c ∷ s) ls))
rvalue_injective (a ∷ c ∷ r) (b ∷ []) dr ds lr ls e =
    absurd (omega (arith, head_digit b [] ds, head_digit a (c ∷ r) dr, rvalue_pos (c ∷ r) lr))
rvalue_injective (a ∷ c ∷ r) (b ∷ d ∷ s) dr ds lr ls e =
    let da = head_digit a (c ∷ r) dr in
    let db = head_digit b (d ∷ s) ds in
    let same : a ≡ b = omega arith in
    let rest : rvalue (c ∷ r) ≡ rvalue (d ∷ s) = omega arith in
    cc (rvalue_injective (c ∷ r) (d ∷ s) da.2 db.2 lr ls rest)

-- A numeral that the parsers do not refuse is read by its digits alone.
parse_u64-digits : (raw : Text) → is_refused_part raw ≡ false → parse_u64 raw ≡ digits_value 0 raw
unfolding parse_u64 is_ascii_digit
parse_u64-digits [] k = cc
parse_u64-digits (b ∷ []) k = ground arith
parse_u64-digits (b ∷ c ∷ s) k = ground arith

parse_u64-eq :
    (raw : Text) (v : ℕ)
    → is_refused_part raw ≡ false
    → parse_u64 raw ≡ some v
    → v ≡ rvalue (reverse raw)
unfolding rvalue
parse_u64-eq raw v k h = digits_value-eq [] raw v (sym (parse_u64-digits raw k) ∙ h)

not_refused :
    (raw : Text)
    → is_refused_part raw ≡ false
    → (all is_ascii_digit raw ≡ true) × ((raw ≡ b'0' ∷ []) ⊎ HasLead (reverse raw))
unfolding is_ascii_digit starts_with
not_refused [] k = cc
not_refused (b ∷ []) k = elim (Bool-cases (b == b'0')) [
  | inl zero ↦ (ground arith, inl (ground arith))
  | inr other ↦ (ground arith, inr (ground arith))
]
not_refused (b ∷ c ∷ s) k =
    (ground arith, inr (reverse_aux-HasLead (c ∷ s) (b ∷ []) (ground arith)))

rvalue-reverse_injective :
    (s t : Text)
    → is_refused_part s ≡ false
    → is_refused_part t ≡ false
    → rvalue (reverse s) ≡ rvalue (reverse t)
    → s ≡ t
unfolding rvalue
rvalue-reverse_injective s t hs ht e =
    let (ds, ls) = not_refused s hs in
    let (dt, lt) = not_refused t ht in
    elim ls [
      | inl zs ↦ elim lt [
        | inl zt ↦ zs ∙ sym zt
        | inr pt ↦
            absurd (omega (arith, ap (λ x. rvalue (reverse x)) zs, rvalue_pos (reverse t) pt))
      ]
      | inr ps ↦ elim lt [
        | inl zt ↦
            absurd (omega (arith, ap (λ x. rvalue (reverse x)) zt, rvalue_pos (reverse s) ps))
        | inr pt ↦
            let same =
              rvalue_injective (reverse s) (reverse t) (reverse_aux-digits s [] ds refl)
                (reverse_aux-digits t [] dt refl) ps pt e in
            sym (reverse-reverse s) ∙ ap reverse same ∙ reverse-reverse t
      ]
    ]

-- Two accepted numerals of one value are the same text.
pub parse_u64_injective :
    (s t : Text) (v : ℕ)
    → is_refused_part s ≡ false
    → is_refused_part t ≡ false
    → parse_u64 s ≡ some v
    → parse_u64 t ≡ some v
    → s ≡ t
parse_u64_injective s t v hs ht ps pt =
    rvalue-reverse_injective s t hs ht (sym (parse_u64-eq s v hs ps) ∙ parse_u64-eq t v ht pt)

digits_value-lt :
    (acc : ℕ) (s : Text) (v : ℕ) → acc < u64_modulus → digits_value acc s ≡ some v → v < u64_modulus
unfolding digits_value
digits_value-lt acc [] v k h = ground arith
digits_value-lt acc (b ∷ s) v k h = ground (arith, digits_value-lt (acc * 10 + (b - b'0')) s v)

-- A value that is read fits 64 bits.
pub parse_u64-lt : (s : Text) (v : ℕ) → parse_u64 s ≡ some v → v < u64_modulus
unfolding parse_u64
parse_u64-lt [] v h = cc
parse_u64-lt (b ∷ []) v h = ground (arith, digits_value-lt 0 (b ∷ []) v)
parse_u64-lt (b ∷ c ∷ s) v h =
    ground (arith, digits_value-lt 0 (c ∷ s) v, digits_value-lt 0 (b ∷ c ∷ s) v)
