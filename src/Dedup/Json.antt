-- ===== src/Dedup/Json.antt =====
-- bluewave/dedup.py, canonical_extra_data: the JSON against the two values in it.
use blue_waving.Base.{
  ℕ, ◌+◌, ◌-◌, ◌*◌, ◌/◌, ◌%◌, ◌<◌, ◌≡◌, refl, sym, ap, ◌∙◌, ◌≢◌, ◌↔◌, Option, none, some, [], ◌∷◌,
  ◌++◌, arith, leb, ◌==◌, if◌then◌else◌, drop, Text, codes,
}
use mathlib.Core.List.{append_assoc}
use blue_waving.Dedup.{
  escape_char, escape, json_string, hex_digit, kept, dump_payload, canonical_extra_data,
}

-- The character that a JSON string shows first, and what follows it.
hex_value : ℕ → ℕ
hex_value c = if leb c 57 then c - 48 else c - 87

unescape_hex : Text → Option (ℕ × Text)
unescape_hex (a ∷ b ∷ c ∷ d ∷ t) = some (hex_value c * 16 + hex_value d, t)
unescape_hex _ = none

unescape_rest : Text → Option (ℕ × Text)
unescape_rest [] = none
unescape_rest (d ∷ t) =
    if d == 34
    then some (34, t)
    else if d == 92
    then some (92, t)
    else if d == b'n'
    then some (10, t)
    else if d == b'r'
    then some (13, t)
    else if d == b't'
    then some (9, t)
    else if d == b'f'
    then some (12, t)
    else if d == b'b'
    then some (8, t)
    else unescape_hex t

unescape_char : Text → Option (ℕ × Text)
unescape_char [] = none
unescape_char (c ∷ t) = if c == 92 then unescape_rest t else some (c, t)

hex_value-hex_digit : (n : ℕ) → n < 16 → hex_value (hex_digit n) ≡ n
unfolding hex_value
hex_value-hex_digit n h = ground arith

unescape_char-escape_char : (c : ℕ) (t : Text) → unescape_char (escape_char c ++ t) ≡ some (c, t)
unfolding unescape_char escape_char unescape_rest unescape_hex
unescape_char-escape_char c t =
    ground (arith, hex_value-hex_digit (c / 16), hex_value-hex_digit (c % 16))

-- No escaped character begins with the quotation mark that ends a string.
abbrev head_or : ℕ → Text → ℕ
head_or d [] = d
head_or d (c ∷ s) = c

head-escape_char : (c : ℕ) (t : Text) → head_or 0 (escape_char c ++ t) ≢ 34
unfolding escape_char
head-escape_char c t = ground arith

pub escape_injective :
    (s t x y : Text) → escape s ++ 34 ∷ x ≡ escape t ++ 34 ∷ y → (s ≡ t) × (x ≡ y)
unfolding escape
escape_injective [] [] x y e = (refl, ground arith)
escape_injective [] (d ∷ t) x y e = absurd (
    head-escape_char d (escape t ++ 34 ∷ y)
      (sym (ap (head_or 0) (e ∙ append_assoc (escape_char d) (escape t) (34 ∷ y)))))
escape_injective (c ∷ s) [] x y e = absurd (
    head-escape_char c (escape s ++ 34 ∷ x)
      (ap (head_or 0) (sym (append_assoc (escape_char c) (escape s) (34 ∷ x)) ∙ e)))
escape_injective (c ∷ s) (d ∷ t) x y e =
    let p = ap unescape_char (
      sym (append_assoc (escape_char c) (escape s) (34 ∷ x))
      ∙ e
      ∙ append_assoc (escape_char d) (escape t) (34 ∷ y)) in
    let q =
      sym (unescape_char-escape_char c (escape s ++ 34 ∷ x))
      ∙ p
      ∙ unescape_char-escape_char d (escape t ++ 34 ∷ y) in
    let ih = escape_injective s t x y (cc q) in (cc (q, ih.0), ih.1)

json_string_injective :
    (s t x y : Text) → json_string s ++ x ≡ json_string t ++ y → (s ≡ t) × (x ≡ y)
unfolding json_string
json_string_injective s t x y e = escape_injective s t x y (
    sym (append_assoc (escape s) (34 ∷ []) x) ∙ ap (drop 1) e ∙ append_assoc (escape t) (34 ∷ []) y)

abbrev text_of : Option Text → Text
text_of none = []
text_of (some t) = t

-- The third character is that of `card_number` or that of `facility_code`.
abbrev third : Option Text → ℕ
third o = head_or 0 (drop 2 (text_of o))

third_clash : ◌≡◌ {A = ℕ} b'c' b'f' → ⊥
third_clash e = omega arith

dump_payload_injective :
    (a b a' b' : Option Text) → dump_payload a b ≡ dump_payload a' b' → (a ≡ a') × (b ≡ b')
unfolding dump_payload
dump_payload_injective none none none none e = (refl, refl)
dump_payload_injective (some a) none (some a') none e =
    let q = json_string_injective a a' (codes "}") (codes "}") (ap (λ o. drop 15 (text_of o)) e) in
    (cc q.0, refl)
dump_payload_injective none (some b) none (some b') e =
    let q = json_string_injective b b' (codes "}") (codes "}") (ap (λ o. drop 17 (text_of o)) e) in
    (refl, cc q.0)
dump_payload_injective (some a) (some b) (some a') (some b') e =
    let q = json_string_injective a a' _ _ (ap (λ o. drop 15 (text_of o)) e) in
    let r = json_string_injective b b' (codes "}") (codes "}") (ap (drop 17) q.1) in
    (cc q.0, cc r.0)
dump_payload_injective (some a) (some b) (some a') none e =
    cc (json_string_injective a a' _ _ (ap (λ o. drop 15 (text_of o)) e)).1
dump_payload_injective (some a) none (some a') (some b') e =
    cc (json_string_injective a a' _ _ (ap (λ o. drop 15 (text_of o)) e)).1
dump_payload_injective none none (some a') none e = cc e
dump_payload_injective none none none (some b') e = cc e
dump_payload_injective none none (some a') (some b') e = cc e
dump_payload_injective (some a) none none none e = cc e
dump_payload_injective (some a) none none (some b') e = absurd (third_clash (ap third e))
dump_payload_injective none (some b) none none e = cc e
dump_payload_injective none (some b) (some a') none e = absurd (third_clash (sym (ap third e)))
dump_payload_injective none (some b) (some a') (some b') e = absurd (third_clash (sym (ap third e)))
dump_payload_injective (some a) (some b) none none e = cc e
dump_payload_injective (some a) (some b) none (some b') e = absurd (third_clash (ap third e))

-- Two pairs of card number and facility code have the same canonical extra_data exactly if they
-- keep the same values, missing and blank ones counting as absent.
pub canonical_extra_data_iff :
    (card facility card' facility' : Option Text)
    → (canonical_extra_data card facility ≡ canonical_extra_data card' facility')
      ↔ ((kept card ≡ kept card') × (kept facility ≡ kept facility'))
unfolding canonical_extra_data
canonical_extra_data_iff card facility card' facility' = (
  dump_payload_injective (kept card) (kept facility) (kept card') (kept facility'),
  λ h. cc (h.0, h.1),
)
