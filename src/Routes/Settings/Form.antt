-- ===== src/Routes/Settings/Form.antt =====
-- bluewave/routes.py, ConfigPayload: what the form has to fulfil before post_config runs. A number of
-- the payload is not negative here; a negative one is below its bound in any case.
use blue_waving.Routes.Settings.Laws.{post_config-Saved}
use blue_waving.Config.{load, Config}
use blue_waving.Config.Store.{Reads}
use blue_waving.Web.{lift, lift_sound, HttpError}
use blue_waving.Routes.Settings.{
  with_passwords, has_passwords, new_config, is_schedule, http_exception, ConfigReply, post_config,
  Desk, Kept,
}
use blue_waving.Exceptions.{Exn}
use blue_waving.Scheduler.{Surroundings}
use blue_waving.Base.{
  ℕ, ◌≤◌, ◌≡◌, refl, sym, ap, ◌∙◌, inl, inr, Bool, true, ◌&&◌, ◌||◌, Option, some, arith, leb,
  if◌then◌else◌, Bool-cases, length, Text, is_empty, Result, ok, err, ◌>>=◌, bind-eq-ok,
}
use mathlib.Core.Path.{subst}

unfoldable pub between : ℕ → ℕ → ℕ → Bool
between lo hi n = leb lo n && leb n hi

-- The bounds of the fields, with `_schedule_format` and `_tz_known`.
unfoldable pub is_payload : Surroundings → Config → Bool
unfolding between
is_payload w p =
    between 1 80 (length p.site_label)
    && (between 1 65535 p.mysql_port
        && (between 1 90 p.catch_up_cap_days
            && (is_schedule p.schedule_local && w.knows_zone p.operator_timezone)))

-- A request whose dependencies raise is answered with that; a payload that is not valid, with 422.
unfoldable pub valid_or_422 :
    Surroundings → Result HttpError Text → Config → Result HttpError Config
unfolding is_payload
valid_or_422 w gate payload = do
  user ← gate
  if is_payload w payload then ok payload else err (http_exception 422)

unfoldable pub submit :
    Desk
    → Result HttpError Text
    → Result HttpError Config
    → Kept
    → Result HttpError ConfigReply × Kept
unfolding post_config
submit desk gate (err e) k = (err e, k)
submit desk gate (ok payload) k = post_config desk gate payload k

-- `POST /config` with its payload.
unfoldable pub submit_config :
    Desk → Result HttpError Text → Config → Kept → Result HttpError ConfigReply × Kept
unfolding valid_or_422 submit
submit_config desk gate payload k = submit desk gate (valid_or_422 desk.around gate payload) k

-- Settings that the form has accepted.
pub record Accepted (w : Surroundings) (cfg : Config) : Type 0 where
  pub label : (1 ≤ length cfg.site_label) × (length cfg.site_label ≤ 80)
  pub port : (1 ≤ cfg.mysql_port) × (cfg.mysql_port ≤ 65535)
  pub cap : (1 ≤ cfg.catch_up_cap_days) × (cfg.catch_up_cap_days ≤ 90)
  pub schedule : is_schedule cfg.schedule_local ≡ true
  pub zone : w.knows_zone cfg.operator_timezone ≡ true

between_sound : (lo hi n : ℕ) → between lo hi n ≡ true → (lo ≤ n) × (n ≤ hi)
unfolding between
between_sound lo hi n h = (ground (arith, h), ground (arith, h))

both : (a b : Bool) → (a && b) ≡ true → (a ≡ true) × (b ≡ true)
both a b h = (ground (arith, h), ground (arith, h))

is_payload-Accepted : (w : Surroundings) (p : Config) → is_payload w p ≡ true → Accepted w p
unfolding is_payload
is_payload-Accepted w p h =
    let (label, r1) = both _ _ h in
    let (port, r2) = both _ _ r1 in
    let (cap, r3) = both _ _ r2 in
    let (schedule, zone) = both _ _ r3 in
    record {
      label = between_sound 1 80 _ label;
      port = between_sound 1 65535 _ port;
      cap = between_sound 1 90 _ cap;
      schedule = schedule;
      zone = zone;
    }

has_passwords-same : (c cfg : Config) → has_passwords c ≡ ok cfg → c ≡ cfg
unfolding has_passwords
has_passwords-same c cfg h =
    elim (Bool-cases (is_empty c.blueweb_password || is_empty c.mysql_password)) [
      | inl lacking ↦ cc (rw lacking at h)
      | inr full ↦ cc (rw full at h)
    ]

-- The passwords are none of what the form bounds.
new_config-Accepted :
    (w : Surroundings) (gate : Result HttpError Text) (payload cfg : Config)
    (stored : Result Exn (Option Config))
    → Accepted w payload
    → new_config gate payload stored ≡ ok cfg
    → Accepted w cfg
unfolding new_config with_passwords
new_config-Accepted w gate payload cfg stored a e =
    let (user, g, rest) = bind-eq-ok gate _ e in
    let (existing, l, full) = bind-eq-ok (lift stored) _ rest in
    subst (Accepted w) (has_passwords-same (with_passwords payload existing) cfg full)
      (record { label = a.label; port = a.port; cap = a.cap; schedule = a.schedule; zone = a.zone })

valid_or_422-ok :
    (w : Surroundings) (gate : Result HttpError Text) (payload p : Config)
    → valid_or_422 w gate payload ≡ ok p
    → (payload ≡ p) × (is_payload w payload ≡ true)
unfolding valid_or_422
valid_or_422-ok w (err x) payload p e = cc e
valid_or_422-ok w (ok user) payload p e = elim (Bool-cases (is_payload w payload)) [
  | inl good ↦ (cc (rw good at e), good)
  | inr bad ↦ cc (rw bad at e)
]

-- The settings are those of the payload, with the passwords of the store where it has none.
new_config-same :
    (gate : Result HttpError Text) (payload cfg : Config) (stored : Result Exn (Option Config))
    → new_config gate payload stored ≡ ok cfg
    → (existing : Option Config) × (stored ≡ ok existing) × (cfg ≡ with_passwords payload existing)
unfolding new_config
new_config-same gate payload cfg stored e =
    let (user, g, rest) = bind-eq-ok gate _ e in
    let (existing, l, full) = bind-eq-ok (lift stored) _ rest in
    (
      existing,
      lift_sound stored existing l,
      sym (has_passwords-same (with_passwords payload existing) cfg full),
    )

-- With a store that decrypts what it encrypts: after a submitted form is answered as saved, the store
-- loads the settings of its payload, with the passwords that were stored where the payload has none,
-- and they keep all bounds of the form, with a schedule and a zone that can be used.
pub submit_config-Accepted :
    (desk : Desk) (gate : Result HttpError Text) (payload : Config) (k : Kept) (reply : ConfigReply)
    → Reads desk.keys desk.keys
    → (submit_config desk gate payload k).0 ≡ ok reply
    → reply.saved ≡ true
    → (existing : Option Config) × (load desk.keys k.file ≡ ok existing)
      × (cfg : Config) × (cfg ≡ with_passwords payload existing)
      × (load desk.keys (submit_config desk gate payload k).1.file ≡ ok (some cfg))
      × Accepted desk.around cfg
unfolding submit_config
submit_config-Accepted desk gate payload k reply reads =
    submitted (valid_or_422 desk.around gate payload) refl
  where
    submitted :
        (r : Result HttpError Config)
        → valid_or_422 desk.around gate payload ≡ r
        → (submit desk gate r k).0 ≡ ok reply
        → reply.saved ≡ true
        → (existing : Option Config) × (load desk.keys k.file ≡ ok existing)
          × (cfg : Config) × (cfg ≡ with_passwords payload existing)
          × (load desk.keys (submit desk gate r k).1.file ≡ ok (some cfg))
          × Accepted desk.around cfg
    submitted (err x) v e h = unfold submit in cc e
    submitted (ok p) v e h =
        let (same, good) = valid_or_422-ok desk.around gate payload p v in
        let accepted =
          subst (Accepted desk.around) same (is_payload-Accepted desk.around payload good) in
        let s = post_config-Saved desk gate p k reply reads (unfold submit in e) h in
        let (existing, stored, is_p) =
          new_config-same gate p s.cfg (load desk.keys k.file) s.accepted in
        (
          existing,
          stored,
          s.cfg,
          is_p ∙ ap (λ c. with_passwords c existing) (sym same),
          unfold submit in s.loads,
          new_config-Accepted desk.around gate p s.cfg (load desk.keys k.file) accepted s.accepted,
        )
