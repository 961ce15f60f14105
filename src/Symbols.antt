-- ===== src/Symbols.antt =====
-- The symbols by which every part names a stock: `normalize_subscription_symbol` of
-- backend/beast_market/runtime.py, `normalize_symbol` and `require_gateway_symbol` of
-- gateway_transport.py, and the pattern of contracts.py.
-- A `str` is the list of its code points. `strip`, `upper`, `lower`, `isdigit` and `\d` are Python's on ASCII:
-- a code point from 128 on is no space, no digit, and has no other case here.
pub mod Strip
pub mod Normal
use lynx_monitor.Prelude.{
  ℕ, zero, suc, ◌+◌, ◌-◌, String, Text, codes, Bool, true, false, not, ◌&&◌, ◌||◌, List, [], ◌∷◌,
  ◌++◌, map, leb, eqb, if◌then◌else◌, length, Result, ok, fail, value_error,
}

unfoldable pub is_space : ℕ → Bool
is_space c = (leb 9 c && leb c 13) || (leb 28 c && leb c 32)

unfoldable pub upper_char : ℕ → ℕ
upper_char c = if leb 97 c && leb c 122 then c - 32 else c

unfoldable pub lower_char : ℕ → ℕ
lower_char c = if leb 65 c && leb c 90 then c + 32 else c

unfoldable pub is_digit : ℕ → Bool
is_digit c = leb 48 c && leb c 57

-- s.lstrip()
unfoldable pub lstrip : Text → Text
unfolding is_space
lstrip [] = []
lstrip (c ∷ s) = let rest = lstrip s in if is_space c then rest else c ∷ s

abbrev pub is_empty : Text → Bool
is_empty [] = true
is_empty (c ∷ s) = false

-- s.rstrip()
unfoldable pub rstrip : Text → Text
unfolding is_space
rstrip [] = []
rstrip (c ∷ s) = let rest = rstrip s in if is_empty rest && is_space c then [] else c ∷ rest

unfoldable pub strip : Text → Text
unfolding lstrip rstrip
strip s = rstrip (lstrip s)

unfoldable pub upper : Text → Text
unfolding upper_char
upper s = map upper_char s

unfoldable pub lower : Text → Text
unfolding lower_char
lower s = map lower_char s

abbrev pub all_digits : Text → Bool
all_digits [] = true
all_digits (c ∷ s) = is_digit c && all_digits s

-- s.isdigit()
unfoldable pub isdigit : Text → Bool
unfolding is_digit
isdigit s = not (is_empty s) && all_digits s

-- "." in s
unfoldable pub has_dot : Text → Bool
has_dot [] = false
has_dot (c ∷ s) = eqb c 46 || has_dot s

abbrev pub zeros : ℕ → Text
zeros zero = []
zeros (suc n) = 48 ∷ zeros n

-- s.zfill(width), of a text that starts with no sign
unfoldable pub zfill : ℕ → Text → Text
zfill width s = zeros (width - length s) ++ s

-- ".HK"
abbrev pub hk_suffix : Text
hk_suffix = 46 ∷ 72 ∷ 75 ∷ []

-- `f"{symbol.zfill(5)}.HK"` where the symbol is bare digits
unfoldable pub complete : Text → Text
unfolding isdigit has_dot zfill
complete s = if not (has_dot s) && isdigit s then zfill 5 s ++ hk_suffix else s

unfoldable pub normalize_subscription_symbol : Text → Result Text
unfolding strip upper complete
normalize_subscription_symbol raw =
    let symbol = upper (strip raw) in
    if is_empty symbol
    then fail value_error (codes "missing subscription symbol")
    else ok (complete symbol)

-- CANONICAL_SYMBOL_PATTERN.fullmatch(s), the pattern being ^\d{5}\.HK$
unfoldable pub is_canonical : Text → Bool
unfolding is_digit
is_canonical (a ∷ b ∷ c ∷ d ∷ e ∷ dot ∷ h ∷ k ∷ []) =
    is_digit a
    && is_digit b
    && is_digit c
    && is_digit d
    && is_digit e
    && eqb dot 46
    && eqb h 72
    && eqb k 75
is_canonical _ = false

-- gateway_transport.py
unfoldable pub normalize_symbol : Text → Text
unfolding strip upper isdigit has_dot zfill
normalize_symbol symbol =
    let value = upper (strip symbol) in
    if is_empty value
    then []
    else if has_dot value
    then value
    else if isdigit value
    then zfill 5 value ++ hk_suffix
    else value

unfoldable pub require_gateway_symbol : Text → Text → Result (Unit {0})
unfolding is_canonical
require_gateway_symbol symbol action =
    if is_empty symbol
    then fail value_error (action ++ codes " requires symbol")
    else if is_canonical symbol
    then ok tt
    else fail value_error (action ++ codes " requires canonical symbol 00700.HK")
