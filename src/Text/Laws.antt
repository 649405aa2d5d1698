-- ===== src/Text/Laws.antt =====
-- Laws of the text methods that the components' theorems use.
use luminos.Prelude.{ℕ, ◌++◌, ◌≡◌, refl, ◌↔◌, Bool, true, false, List, [], ◌∷◌, arith}
use luminos.Text.Bytes.{Text, text_eq, split, extend}

text_eq_sound : (s t : Text) → text_eq s t ≡ true → s ≡ t
unfolding text_eq
text_eq_sound [] [] h = refl
text_eq_sound [] (b ∷ t) h = cc
text_eq_sound (a ∷ s) [] h = cc
text_eq_sound (a ∷ s) (b ∷ t) h = ground (arith, text_eq_sound s t)

pub text_eq_refl : (s : Text) → text_eq s s ≡ true
unfolding text_eq
text_eq_refl [] = refl
text_eq_refl (a ∷ s) = ground (arith, text_eq_refl s)

pub text_eq_iff : (s t : Text) → (text_eq s t ≡ true) ↔ (s ≡ t)
text_eq_iff s t = (text_eq_sound s t, λ e. rw e (text_eq_refl t))

-- The pieces with the separator between them.
abbrev pub join : ℕ → List Text → Text
join sep [] = []
join sep (p ∷ []) = p
join sep (p ∷ q ∷ ps) = p ++ sep ∷ join sep (q ∷ ps)

abbrev is_cons : List Text → Bool
is_cons [] = false
is_cons (_ ∷ _) = true

split-is_cons : (sep : ℕ) (s : Text) → is_cons (split sep s) ≡ true
unfolding split extend
split-is_cons sep [] = refl
split-is_cons sep (b ∷ s) = ground (arith, split-is_cons sep s)

join-extend :
    (sep b : ℕ) (ps : List Text) → is_cons ps ≡ true → join sep (extend b ps) ≡ b ∷ join sep ps
unfolding extend
join-extend sep b [] h = cc
join-extend sep b (p ∷ []) h = refl
join-extend sep b (p ∷ q ∷ ps) h = refl

join-empty : (sep : ℕ) (ps : List Text) → is_cons ps ≡ true → join sep ([] ∷ ps) ≡ sep ∷ join sep ps
join-empty sep [] h = cc
join-empty sep (p ∷ ps) h = refl

-- Splitting loses nothing.
pub join-split : (sep : ℕ) (s : Text) → join sep (split sep s) ≡ s
unfolding split
join-split sep [] = refl
join-split sep (b ∷ s) = ground (
  arith,
  join-split sep s,
  split-is_cons sep s,
  join-extend sep b (split sep s),
  join-empty sep (split sep s),
)
