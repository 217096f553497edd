-- ===== src/Routes/Html.antt =====
-- bluewave/routes.py: a page as its pieces, and `_esc`. html.escape is that of Python's library.
use blue_waving.Base.{
  ℕ, zero, suc, ◌+◌, ◌/◌, ◌%◌, ◌<◌, String, ◌≡◌, refl, inl, inr, Bool, false, ◌||◌, List, [], ◌∷◌,
  ◌++◌, arith, ltb, ◌==◌, if◌then◌else◌, Bool-cases, select, Text, codes, ℤ, pos, negsuc,
}

-- What an f-string is made of: its own text, a value that passes `_esc`, and a number that does not.
pub data Piece : Type 0 where
  raw : String → Piece
  shown : Text → Piece
  number : ℕ → Piece

abbrev pub Page : Type 0
Page = List Piece

unfoldable pub esc_char : ℕ → Text
esc_char c =
    if c == b'&'
    then codes "&amp;"
    else if c == b'<'
    then codes "&lt;"
    else if c == b'>'
    then codes "&gt;"
    else if c == 34
    then codes "&quot;"
    else if c == 39
    then codes "&#x27;"
    else c ∷ []

unfoldable pub esc : Text → Text
unfolding esc_char
esc [] = []
esc (c ∷ t) = esc_char c ++ esc t

-- `str` of a number, with its digits on fuel.
unfoldable pub digits_from : ℕ → ℕ → Text → Text
digits_from zero n acc = acc
digits_from (suc fuel) n acc =
    let rest = digits_from fuel (n / 10) ((48 + n % 10) ∷ acc) in
    if ltb n 10 then (48 + n) ∷ acc else rest

unfoldable pub show_nat : ℕ → Text
unfolding digits_from
show_nat n = digits_from (suc n) n []

unfoldable pub show_int : ℤ → Text
unfolding show_nat
show_int (pos n) = show_nat n
show_int (negsuc n) = b'-' ∷ show_nat (suc n)

unfoldable pub render_piece : Piece → Text
unfolding esc show_nat
render_piece (raw s) = codes s
render_piece (shown t) = esc t
render_piece (number n) = show_nat n

unfoldable pub render : Page → Text
unfolding render_piece
render [] = []
render (p ∷ ps) = render_piece p ++ render ps

-- The page's own text.
abbrev pub own_text : Page → Text
own_text [] = []
own_text (raw s ∷ ps) = codes s ++ own_text ps
own_text (shown t ∷ ps) = own_text ps
own_text (number n ∷ ps) = own_text ps

-- What opens and closes tags and attributes.
abbrev pub is_markup : ℕ → Bool
is_markup c = (c == b'<') || ((c == b'>') || ((c == 34) || (c == 39)))

select-append : (q : ℕ → Bool) (xs ys : Text) → select q (xs ++ ys) ≡ select q xs ++ select q ys
select-append q [] ys = refl
select-append q (x ∷ xs) ys = ground (arith, select-append q xs ys)

esc_char-markup : (c : ℕ) → select is_markup (esc_char c) ≡ []
unfolding esc_char
esc_char-markup c = ground arith

esc-markup : (t : Text) → select is_markup (esc t) ≡ []
unfolding esc
esc-markup [] = refl
esc-markup (c ∷ t) =
    rw (select-append is_markup (esc_char c) (esc t), esc_char-markup c) (esc-markup t)

digit-markup :
    (d : ℕ) (acc : Text)
    → d < 10
    → select is_markup acc ≡ []
    → select is_markup ((48 + d) ∷ acc) ≡ []
digit-markup d acc h e = let plain : is_markup (48 + d) ≡ false = ground arith in rw plain e

digits_from-markup :
    (fuel n : ℕ) (acc : Text)
    → select is_markup acc ≡ []
    → select is_markup (digits_from fuel n acc) ≡ []
unfolding digits_from
digits_from-markup zero n acc h = h
digits_from-markup (suc fuel) n acc h = elim (Bool-cases (ltb n 10)) [
  | inl last ↦ (let small : n < 10 = ground arith in rw last (digit-markup n acc small h))
  | inr more ↦ rw more (
      digits_from-markup fuel (n / 10) ((48 + n % 10) ∷ acc)
        (digit-markup (n % 10) acc (omega arith) h))
]

show_nat-markup : (n : ℕ) → select is_markup (show_nat n) ≡ []
unfolding show_nat
show_nat-markup n = digits_from-markup (suc n) n [] refl

pub render-markup : (p : Page) → select is_markup (render p) ≡ select is_markup (own_text p)
unfolding render render_piece
render-markup [] = refl
render-markup (raw s ∷ ps) =
    rw
      (
        select-append is_markup (codes s) (render ps),
        select-append is_markup (codes s) (own_text ps),
        render-markup ps,
      )
      refl
render-markup (shown t ∷ ps) =
    rw (select-append is_markup (esc t) (render ps), esc-markup t) (render-markup ps)
render-markup (number n ∷ ps) =
    rw (select-append is_markup (show_nat n) (render ps), show_nat-markup n) (render-markup ps)
