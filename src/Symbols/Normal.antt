-- ===== src/Symbols/Normal.antt =====
-- Normalising a symbol: it is idempotent, bare stock codes become canonical, and canonical symbols stay.
use lynx_monitor.Prelude.{
  ℕ, zero, suc, ◌≡◌, ◌≤◌, ◌-◌, refl, ap, true, false, not, ◌&&◌, Text, [], ◌∷◌, ◌++◌, arith,
  Bool-cases, inl, inr, ◌∙◌, length, ok, raise,
}
use lynx_monitor.Symbols.{
  is_digit, lstrip, rstrip, strip, upper, is_empty, all_digits, isdigit, has_dot, zeros, zfill,
  hk_suffix, complete, normalize_subscription_symbol, normalize_symbol, is_canonical,
}
use lynx_monitor.Symbols.Strip.{strip-upper, strip_idem, upper_idem}

-- A text that neither `strip` nor `upper` changes.
record IsPlain (s : Text) : Type 0 where
  stripped : strip s ≡ s
  upper_case : upper s ≡ s

upper-strip-IsPlain : (raw : Text) → IsPlain (upper (strip raw))
upper-strip-IsPlain raw = record {
  stripped = strip-upper (strip raw) ∙ ap upper (strip_idem raw);
  upper_case = upper_idem (strip raw);
}

-- Digits before ".HK".
module _ where
  digits_hk_upper : (d : Text) → all_digits d ≡ true → upper (d ++ hk_suffix) ≡ d ++ hk_suffix
  unfolding upper is_digit
  digits_hk_upper [] h = refl
  digits_hk_upper (c ∷ d) h = ground (arith, digits_hk_upper d)

  digits_hk_rstrip : (d : Text) → rstrip (d ++ hk_suffix) ≡ d ++ hk_suffix
  unfolding rstrip
  digits_hk_rstrip [] = refl
  digits_hk_rstrip (c ∷ []) = refl
  digits_hk_rstrip (c ∷ b ∷ d) = ground (arith, digits_hk_rstrip (b ∷ d))

  digits_hk_lstrip : (d : Text) → all_digits d ≡ true → lstrip (d ++ hk_suffix) ≡ d ++ hk_suffix
  unfolding lstrip is_digit
  digits_hk_lstrip [] h = refl
  digits_hk_lstrip (c ∷ d) h = ground arith

  digits_hk_dot : (d : Text) → has_dot (d ++ hk_suffix) ≡ true
  unfolding has_dot
  digits_hk_dot [] = refl
  digits_hk_dot (c ∷ d) = ground (arith, digits_hk_dot d)

  digits_hk-IsPlain : (d : Text) → all_digits d ≡ true → IsPlain (d ++ hk_suffix)
  unfolding strip
  digits_hk-IsPlain d h = record {
    stripped = ap rstrip (digits_hk_lstrip d h) ∙ digits_hk_rstrip d;
    upper_case = digits_hk_upper d h;
  }

zfill_digits : (n : ℕ) (d : Text) → all_digits d ≡ true → all_digits (zeros n ++ d) ≡ true
unfolding is_digit
zfill_digits zero d h = h
zfill_digits (suc n) d h = ground (arith, zfill_digits n d h)

is_empty_append : (d : Text) → is_empty (d ++ hk_suffix) ≡ false
is_empty_append [] = refl
is_empty_append (c ∷ d) = refl

-- What is completed stays plain and not empty, and completing it again changes nothing.
complete_lem :
    (s : Text)
    → IsPlain s
    → is_empty s ≡ false
    → IsPlain (complete s) × (is_empty (complete s) ≡ false) × (complete (complete s) ≡ complete s)
unfolding complete
complete_lem s plain full = elim (Bool-cases (not (has_dot s) && isdigit s)) [
  | inr e ↦ rw e (plain, full, rw e refl)
  | inl e ↦
      let d = zeros (5 - length s) ++ s in
      let digits : all_digits d ≡ true = zfill_digits (5 - length s) s (ground arith) in
      rw e (digits_hk-IsPlain d digits, is_empty_append d, rw (digits_hk_dot d) refl)
]

normalize_plain :
    (s : Text) → IsPlain s → is_empty s ≡ false → normalize_subscription_symbol s ≡ ok (complete s)
unfolding normalize_subscription_symbol
normalize_plain s plain full = rw (plain.stripped, plain.upper_case, full) refl

normalize_result :
    (raw s : Text)
    → normalize_subscription_symbol raw ≡ ok s
    → (is_empty (upper (strip raw)) ≡ false) × (complete (upper (strip raw)) ≡ s)
unfolding normalize_subscription_symbol
normalize_result raw s h = ground arith

-- A symbol that the normaliser returns is returned unchanged by the normaliser.
pub normalize_subscription_symbol_idem :
    (raw s : Text)
    → normalize_subscription_symbol raw ≡ ok s
    → normalize_subscription_symbol s ≡ ok s
normalize_subscription_symbol_idem raw s h =
    let (full, made) = normalize_result raw s h in
    let (plain, full', again) = complete_lem (upper (strip raw)) (upper-strip-IsPlain raw) full in
    rw (← made) (normalize_plain (complete (upper (strip raw))) plain full' ∙ ap ok again)

-- On any text the normaliser of the gateway gives what the normaliser of subscriptions returns, and
-- the empty text where that one raises.
pub normalize_symbol_agrees :
    (raw : Text)
    → normalize_symbol raw ≡ elim (normalize_subscription_symbol raw) [ ok s ↦ s | raise _ ↦ [] ]
unfolding normalize_symbol normalize_subscription_symbol complete
normalize_symbol_agrees raw = ground arith

canonical_shape :
    (s : Text) → is_canonical s ≡ true → (d : Text) × (s ≡ d ++ hk_suffix) × (all_digits d ≡ true)
unfolding is_canonical
canonical_shape (a ∷ b ∷ c ∷ d ∷ e ∷ dot ∷ h ∷ k ∷ []) can =
    (a ∷ b ∷ c ∷ d ∷ e ∷ [], ground arith, ground arith)
canonical_shape _ can = ground arith

-- The normaliser returns a canonical symbol unchanged.
pub normalize-canonical :
    (s : Text) → is_canonical s ≡ true → normalize_subscription_symbol s ≡ ok s
unfolding complete
normalize-canonical s can =
    let (d, shape, digits) = canonical_shape s can in
    rw shape (
      normalize_plain (d ++ hk_suffix) (digits_hk-IsPlain d digits) (is_empty_append d)
      ∙ ap ok (rw (digits_hk_dot d) refl))

digits_rstrip : (d : Text) → all_digits d ≡ true → rstrip d ≡ d
unfolding rstrip is_digit
digits_rstrip [] h = refl
digits_rstrip (c ∷ d) h = ground (arith, digits_rstrip d)

digits_lstrip : (d : Text) → all_digits d ≡ true → lstrip d ≡ d
unfolding lstrip is_digit
digits_lstrip [] h = refl
digits_lstrip (c ∷ d) h = ground arith

digits_upper : (d : Text) → all_digits d ≡ true → upper d ≡ d
unfolding upper is_digit
digits_upper [] h = refl
digits_upper (c ∷ d) h = ground (arith, digits_upper d)

digits_no_dot : (d : Text) → all_digits d ≡ true → has_dot d ≡ false
unfolding has_dot is_digit
digits_no_dot [] h = refl
digits_no_dot (c ∷ d) h = ground (arith, digits_no_dot d)

short_code-canonical :
    (d : Text) → isdigit d ≡ true → length d ≤ 5 → is_canonical (zfill 5 d ++ hk_suffix) ≡ true
unfolding isdigit is_digit zfill is_canonical
short_code-canonical [] h n = ground arith
short_code-canonical (a ∷ []) h n = ground arith
short_code-canonical (a ∷ b ∷ []) h n = ground arith
short_code-canonical (a ∷ b ∷ c ∷ []) h n = ground arith
short_code-canonical (a ∷ b ∷ c ∷ d ∷ []) h n = ground arith
short_code-canonical (a ∷ b ∷ c ∷ d ∷ e ∷ []) h n = ground arith
short_code-canonical (a ∷ b ∷ c ∷ d ∷ e ∷ f ∷ r) h n = absurd (omega arith)

-- The normaliser pads a text of one to five digits with zeros and adds the suffix, and the result is
-- canonical.
pub normalize-code :
    (d : Text)
    → isdigit d ≡ true
    → length d ≤ 5
    → (normalize_subscription_symbol d ≡ ok (zfill 5 d ++ hk_suffix))
      × (is_canonical (zfill 5 d ++ hk_suffix) ≡ true)
unfolding isdigit complete strip
normalize-code d h n =
    let digits : all_digits d ≡ true = ground arith in
    let plain : IsPlain d = record {
      stripped = ap rstrip (digits_lstrip d digits) ∙ digits_rstrip d digits;
      upper_case = digits_upper d digits;
    } in
    (
      normalize_plain d plain (ground arith) ∙ ground (arith, digits_no_dot d),
      short_code-canonical d h n,
    )
