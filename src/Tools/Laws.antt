-- ===== src/Tools/Laws.antt =====
-- What the tools leave behind.
use blue_waving.Base.{
  ℕ, suc, ◌-◌, ◌<◌, ◌≡◌, refl, ap, ◌∙◌, ◌⊎◌, inl, inr, Bool, true, Option, none, some, List, [],
  ◌∷◌, arith, leb, if◌then◌else◌, Bool-cases, length, length-take, Text, Result, ok, err,
  bind-eq-ok,
}
use mathlib.Core.Path.{subst}
use blue_waving.Exceptions.{Exn}
use blue_waving.Config.{
  Config, MultiFernet, ConfigFile, parse_keys_env, load, reencrypt_all, save, save_again,
}
use blue_waving.Config.Store.{Reads, load-save}
use blue_waving.Tools.{
  rewritten, rotate_loaded, is_configured, rotate_config, Png, insert_png, sort_pngs, list_pngs,
  unlink_pngs, gc,
}

-- A rotation is done, with the settings as they were for every store that reads the new key; or the
-- file is as it was, with exit code 1 where saving raised, and with 2 for a file without settings.
abbrev pub Rotated : MultiFernet → Option Exn → ConfigFile → ℕ × ConfigFile → Type 0
Rotated mf refused file (code, file') =
    ((code ≡ 0)
      × (refused ≡ none)
      × (cfg : Config) × (load mf file ≡ ok (some cfg))
      × ((reader : MultiFernet) → Reads reader mf → load reader file' ≡ ok (some cfg)))
    ⊎ (((code ≡ 1)
          × (e : Exn) × (refused ≡ some e)
          × (cfg : Config) × (load mf file ≡ ok (some cfg))
          × (file' ≡ file))
        ⊎ ((code ≡ 2) × (load mf file ≡ ok none) × (file' ≡ file)))

reencrypted :
    (mf : MultiFernet) (file : ConfigFile) (cfg : Config)
    → load mf file ≡ ok (some cfg)
    → reencrypt_all mf none file ≡ ok (save mf cfg file)
unfolding reencrypt_all
reencrypted mf file cfg l = unfold save_again in rw l refl

not_reencrypted :
    (mf : MultiFernet) (e : Exn) (file : ConfigFile) (cfg : Config)
    → load mf file ≡ ok (some cfg)
    → reencrypt_all mf (some e) file ≡ err e
unfolding reencrypt_all
not_reencrypted mf e file cfg l = unfold save_again in rw l refl

rotate_loaded-Rotated :
    (mf : MultiFernet) (refused : Option Exn) (file : ConfigFile) (o : Option Config)
    → load mf file ≡ ok o
    → Rotated mf refused file (rotate_loaded mf refused file (is_configured o))
unfolding rotate_loaded is_configured rewritten
rotate_loaded-Rotated mf refused file none l = inr (inr (refl, l, refl))
rotate_loaded-Rotated mf none file (some cfg) l =
    rw (reencrypted mf file cfg l)
      (inl (refl, refl, cfg, l, λ reader h. load-save reader mf cfg file h))
rotate_loaded-Rotated mf (some e) file (some cfg) l =
    rw (not_reencrypted mf e file cfg l) (inr (inl (refl, e, refl, cfg, l, refl)))

-- If rotate_config ends without an exception, the keys parsed, and either the exit code is 0 and
-- every store that reads what they encrypt loads the same settings from the new file as they did
-- from the old, or it is 1, saving raised and the file is as it was, or it is 2, there are no
-- settings and the file is as it was.
pub rotate_config-Rotated :
    (build_multifernet : List Text → Result Exn MultiFernet) (refused : Option Exn)
    (raw : Option Text) (file : ConfigFile) (r : ℕ × ConfigFile)
    → rotate_config build_multifernet refused raw file ≡ ok r
    → (keys : List Text) × (mf : MultiFernet) × (parse_keys_env raw ≡ ok keys)
      × (build_multifernet keys ≡ ok mf)
      × Rotated mf refused file r
unfolding rotate_config
rotate_config-Rotated build_multifernet refused raw file r e =
    let (keys, parsed, e1) = bind-eq-ok (parse_keys_env raw) _ e in
    let (mf, built, e2) = bind-eq-ok (build_multifernet keys) _ e1 in
    let (o, loaded, e3) = bind-eq-ok (load mf file) _ e2 in
    let same : rotate_loaded mf refused file (is_configured o) ≡ r = cc e3 in
    (
      keys,
      mf,
      parsed,
      built,
      subst (Rotated mf refused file) same (rotate_loaded-Rotated mf refused file o loaded),
    )

length-insert_png : (f : Png) (fs : List Png) → length (insert_png f fs) ≡ suc (length fs)
unfolding insert_png
length-insert_png f [] = refl
length-insert_png f (g ∷ gs) = elim (Bool-cases (leb f.mtime g.mtime)) [
  | inl before ↦ rw before refl
  | inr after ↦ rw after (ap suc (length-insert_png f gs))
]

length-sort_pngs : (fs : List Png) → length (sort_pngs fs) ≡ length fs
unfolding sort_pngs
length-sort_pngs [] = refl
length-sort_pngs (f ∷ fs) = length-insert_png f (sort_pngs fs) ∙ ap suc (length-sort_pngs fs)

unlink_all_of :
    (can_unlink : ℕ → Bool) (fs : List Png)
    → ((p : ℕ) → can_unlink p ≡ true)
    → unlink_pngs can_unlink fs ≡ fs
unfolding unlink_pngs
unlink_all_of can_unlink [] h = refl
unlink_all_of can_unlink (f ∷ fs) h =
    rw (h f.path) (ap (λ r. f ∷ r) (unlink_all_of can_unlink fs h))

pub gc_keeps :
    (can_unlink : ℕ → Bool) (fs : List Png) (keep : ℕ)
    → ((p : ℕ) → can_unlink p ≡ true)
    → length fs - length (gc can_unlink (some fs) keep)
      ≡ (if leb (length fs) keep then length fs else keep)
unfolding gc list_pngs
gc_keeps can_unlink fs keep h = elim (Bool-cases (leb (length fs) keep)) [
  | inl few ↦ rw (length-sort_pngs fs, few) (omega arith)
  | inr many ↦
      rw (length-sort_pngs fs, many, unlink_all_of can_unlink _ h, length-take, length-sort_pngs fs)
        (let l : keep < length fs = ground arith in omega arith)
]
