-- ===== src/Payments/CouponCode.antt =====
-- The spelling of coupon codes in modules/payments/service.ts: `code.trim().toUpperCase()` and the
-- pattern `^[A-Z0-9_-]{3,50}$`. Letters are ASCII, and the spaces are blank, tab, line feed and
-- carriage return.
use mathlib.Core.List.{reverse, reverse-reverse, reverse-cons}
use package.ayo_snbt_backend.Common.{
  ℕ, ◌-◌, ◌≡◌, refl, sym, ap, ◌∙◌, subst, Bool, true, ◌&&◌, ◌||◌, [], ◌∷◌, ◌++◌, map, arith, leb,
  if◌then◌else◌, ◌==◌, length, all,
}
use package.ayo_snbt_backend.Common.Text.{Text, trim_start, trim}

to_upper : ℕ → ℕ
to_upper c = if leb 97 c && leb c 122 then c - 32 else c

unfoldable pub normalize : Text → Text
unfolding trim to_upper
normalize s = map to_upper (trim s)

abbrev pub is_code_char : ℕ → Bool
is_code_char c = (leb 65 c && leb c 90) || (leb 48 c && leb c 57) || c == 95 || c == 45

unfoldable pub is_valid_code : Text → Bool
is_valid_code s = leb 3 (length s) && leb (length s) 50 && all is_code_char s

trim_start-code : (s : Text) → all is_code_char s ≡ true → trim_start s ≡ s
unfolding trim_start
trim_start-code [] h = refl
trim_start-code (c ∷ s) h = ground arith

all-append : (s t : Text) → all is_code_char (s ++ t) ≡ (all is_code_char s && all is_code_char t)
all-append [] t = refl
all-append (c ∷ s) t = ground (arith, all-append s t)

all-reverse : (s : Text) → all is_code_char s ≡ true → all is_code_char (reverse s) ≡ true
all-reverse [] h = refl
all-reverse (c ∷ s) h =
    subst (λ t. all is_code_char t ≡ true) (sym (reverse-cons c s))
      (ground (arith, all-append (reverse s) (c ∷ []), all-reverse s))

trim-code : (s : Text) → all is_code_char s ≡ true → trim s ≡ s
unfolding trim
trim-code s h =
    ap (λ t. reverse (trim_start (reverse t))) (trim_start-code s h)
    ∙ ap reverse (trim_start-code (reverse s) (all-reverse s h))
    ∙ reverse-reverse s

map-to_upper : (s : Text) → all is_code_char s ≡ true → map to_upper s ≡ s
unfolding to_upper
map-to_upper [] h = refl
map-to_upper (c ∷ s) h = ground (arith, map-to_upper s)

-- A code that the pattern accepts is its own normal form: the code that `create_coupon` stores is
-- the one that `create_order` looks for.
pub normalize-valid : (s : Text) → is_valid_code s ≡ true → normalize s ≡ s
unfolding normalize is_valid_code
normalize-valid s h =
    let a : all is_code_char s ≡ true = ground arith in
    ap (map to_upper) (trim-code s a) ∙ map-to_upper s a
