-- ===== src/Scrape/Inputs.antt =====
-- bluewave/scrape.py, `_set_one_date_input`: an input that is set holds the date.
use blue_waving.Action.Reaches.{
  Reaches-weaken, Reaches, Reaches-pure, Reaches-raise, Reaches-if, Reaches-catch, Reaches-bind,
  Reaches-any,
}
use blue_waving.Base.{ℕ, ◌≡◌, sym, ap, ◌∙◌, true, Option, none, some, Text, text_eq_sound}
use blue_waving.Exceptions.{failure, nav_failed, is_web_driver}
use blue_waving.Driver.{Driver}
use blue_waving.Scrape.{holds, type_value, fall_back, set_value}

holds_sound : (o : Option Text) (t : Text) → holds o t ≡ true → o ≡ some t
unfolding holds
holds_sound none t h = cc
holds_sound (some u) t h = ap some (text_eq_sound u t h)

module _ {S : Type 0} (drv : Driver S) {value : ℕ → S → Option Text}
    (reads : (el : ℕ) (s : S)
      → Reaches (λ e t. Unit {0}) (λ v t. v ≡ value el t) (drv.get_value el) s) where
  fall_back_lem :
      (el : ℕ) (text : Text) (s : S)
      → Reaches (λ e t. Unit {0}) (λ _ t. value el t ≡ some text) (fall_back drv el text) s
  unfolding fall_back type_value
  fall_back_lem el text s =
      Reaches-bind {Q = λ v t. v ≡ some text → value el t ≡ some text} _ _ s
        (Reaches-catch {F = λ e t. Unit {0}} _ _ s
          (Reaches-bind _ _ s (Reaches-any (drv.clear el) s) λ _ s1 _.
            Reaches-bind _ _ s1 (Reaches-any (drv.send_keys el text) s1) λ _ s2 _.
              Reaches-bind _ _ s2 (Reaches-any (drv.sleep 200) s2)
                λ _ s3 _. Reaches-weaken _ s3 (λ e t u. u) (λ v t q h. sym q ∙ h) (reads el s3))
          (λ e t _.
            Reaches-if (is_web_driver e) _ _ t (λ _. Reaches-pure none t (λ h. cc h))
              (λ _. Reaches-raise e t tt)))
        λ current t q.
          Reaches-if (holds current text) _ _ t
            (λ h. Reaches-pure tt t (q (holds_sound current text h)))
            (λ _. Reaches-raise (failure nav_failed) t tt)

  -- Where get_attribute reads the value of an element, setting a date ends with the element
  -- holding exactly that text, by the script or by the keys, or it raises.
  pub set_value_lem :
      (el : ℕ) (text : Text) (s : S)
      → Reaches (λ e t. Unit {0}) (λ _ t. value el t ≡ some text) (set_value drv el text) s
  unfolding set_value
  set_value_lem el text s = Reaches-bind _ _ s (Reaches-any (drv.js_set_value el text) s) λ _ s1 _.
      Reaches-bind _ _ s1 (Reaches-any (drv.sleep 300) s1) λ _ s2 _.
        Reaches-bind _ _ s2 (reads el s2) λ current t q.
          Reaches-if (holds current text) _ _ t
            (λ h. Reaches-pure tt t (sym q ∙ holds_sound current text h))
            (λ _. fall_back_lem el text t)
