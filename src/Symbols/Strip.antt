-- ===== src/Symbols/Strip.antt =====
-- Stripping and upper-casing are idempotent, and the case of a text does not matter to stripping.
use lynx_monitor.Prelude.{ℕ, ◌≡◌, refl, ap, Text, [], ◌∷◌, arith, ◌∙◌}
use lynx_monitor.Symbols.{is_space, upper_char, lstrip, rstrip, strip, upper, is_empty}

is_space-upper_char : (c : ℕ) → is_space (upper_char c) ≡ is_space c
unfolding is_space upper_char
is_space-upper_char c = ground arith

upper_char_idem : (c : ℕ) → upper_char (upper_char c) ≡ upper_char c
unfolding upper_char
upper_char_idem c = ground arith

pub upper_idem : (s : Text) → upper (upper s) ≡ upper s
unfolding upper
upper_idem [] = refl
upper_idem (c ∷ s) = ground (arith, upper_char_idem c, upper_idem s)

lstrip-upper : (s : Text) → lstrip (upper s) ≡ upper (lstrip s)
unfolding lstrip upper
lstrip-upper [] = refl
lstrip-upper (c ∷ s) = ground (arith, is_space-upper_char c, lstrip-upper s)

is_empty-upper : (s : Text) → is_empty (upper s) ≡ is_empty s
unfolding upper
is_empty-upper [] = refl
is_empty-upper (c ∷ s) = refl

rstrip-upper : (s : Text) → rstrip (upper s) ≡ upper (rstrip s)
unfolding rstrip upper
rstrip-upper [] = refl
rstrip-upper (c ∷ s) =
    ground (arith, is_space-upper_char c, rstrip-upper s, is_empty-upper (rstrip s))

pub strip-upper : (s : Text) → strip (upper s) ≡ upper (strip s)
unfolding strip
strip-upper s = ap rstrip (lstrip-upper s) ∙ rstrip-upper (lstrip s)

lstrip_idem : (s : Text) → lstrip (lstrip s) ≡ lstrip s
unfolding lstrip
lstrip_idem [] = refl
lstrip_idem (c ∷ s) = ground (arith, lstrip_idem s)

rstrip_idem : (s : Text) → rstrip (rstrip s) ≡ rstrip s
unfolding rstrip
rstrip_idem [] = refl
rstrip_idem (c ∷ s) = ground (arith, rstrip_idem s)

-- What is stripped on the left has nothing to strip there once it is stripped on the right.
lstrip-rstrip-lstrip : (s : Text) → lstrip (rstrip (lstrip s)) ≡ rstrip (lstrip s)
unfolding lstrip rstrip
lstrip-rstrip-lstrip [] = refl
lstrip-rstrip-lstrip (c ∷ s) = ground (arith, lstrip-rstrip-lstrip s)

pub strip_idem : (s : Text) → strip (strip s) ≡ strip s
unfolding strip
strip_idem s = ap rstrip (lstrip-rstrip-lstrip s) ∙ rstrip_idem (lstrip s)
