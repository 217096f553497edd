-- ===== src/Login/Bounds.antt =====
-- bluewave/login.py, `_short`: a bound.
use blue_waving.Base.{
  ℕ, ◌-◌, ◌≤◌, inl, inr, [], arith, leb, Bool-cases, length, length-append, length-take, Text,
}
use blue_waving.Login.{short, words_from, unwords}

-- An excerpt for a positive limit is not longer than the limit, the ellipsis included.
pub length-short : (t : Text) (limit : ℕ) → 1 ≤ limit → length (short t limit) ≤ limit
unfolding short
length-short t limit h =
    let text = unwords (words_from [] t) in
    elim (Bool-cases (leb (length text) limit)) [
      | inl e ↦ rw e (ground arith)
      | inr e ↦ rw (e, length-append) (let m = length-take (limit - 1) text in omega arith)
    ]
