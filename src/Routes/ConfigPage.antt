-- ===== src/Routes/ConfigPage.antt =====
-- bluewave/routes.py: the form for the settings.
use blue_waving.Base.{ℕ, String, Option, none, some, [], ◌∷◌, ◌++◌, Text, codes}
use blue_waving.Config.{Config}
use blue_waving.Routes.Html.{Page, raw, shown, show_nat, esc}
use blue_waving.Routes.Pages.{Assets, page_shell}

-- `v(field)`, before its `_esc`
abbrev pub field : (Config → Text) → Option Config → Text
field get none = []
field get (some cfg) = get cfg

abbrev pub number_or : (Config → ℕ) → ℕ → Option Config → Text
number_or get default none = show_nat default
number_or get default (some cfg) = show_nat (get cfg)

abbrev pub or_text : Text → Text → Text
or_text default [] = default
or_text default (c ∷ t) = c ∷ t

-- `v('schedule_local') or "03:00"`, which is escaped once more in the form.
unfoldable pub schedule_value : Option Config → Text
unfolding esc
schedule_value cfg = or_text (codes "03:00") (esc (field (λ (c : Config). c.schedule_local) cfg))

unfoldable pub placeholder : Option Config → String → Page
placeholder none default = raw default ∷ []
placeholder (some cfg) default = shown (codes "••••••• (set, leave blank to keep)") ∷ []

unfoldable pub heading : Option Config → Page
heading none = raw "Initial setup" ∷ []
heading (some cfg) = shown cfg.site_label ∷ []

unfoldable pub site_banner : Option Config → Page
site_banner none =
    (raw
        "<div class='banner'>First-time setup. Fill all required fields, then <strong>Test</strong> and <strong>Save</strong>. Probes (BlueWeb HEAD &rarr; MySQL &rarr; Selenium login) run before any data is persisted.</div>"
      ∷ [])
site_banner (some cfg) = []

unfoldable pub config_body : Assets → Option Config → Text → Page
unfolding schedule_value placeholder heading site_banner
config_body a cfg csrf_token =
    (raw "<header>\n" ∷ raw "<h1>Configure</h1>\n" ∷ raw "<div class='meta'>" ∷ [])
    ++ (heading cfg
        ++ ((raw "</div>\n" ∷ raw "</header>\n" ∷ raw "<main>\n" ∷ [])
            ++ (site_banner cfg
                ++ ((raw "\n"
                      ∷ raw "<nav>\n"
                      ∷ raw "<a href='/'>&larr; Dashboard</a>\n"
                      ∷ raw "</nav>\n"
                      ∷ raw "\n"
                      ∷ raw "<form id='cfg' autocomplete='off'>\n"
                      ∷ raw "<input type='hidden' name='csrf_token' value='"
                      ∷ shown csrf_token
                      ∷ raw "'>\n"
                      ∷ raw "\n"
                      ∷ raw "<h2>Site</h2>\n"
                      ∷ raw "<div class='field'><label>Site label</label>\n"
                      ∷ raw "<input name='site_label' value='"
                      ∷ shown (field (λ (c : Config). c.site_label) cfg)
                      ∷ raw "' required\n"
                      ∷ raw
                          "       placeholder='e.g. Easy Foods Inc.  (shown on dashboard header)'></div>\n"
                      ∷ raw "\n"
                      ∷ raw "<h2>BlueWeb</h2>\n"
                      ∷ raw "<div class='field'><label>URL</label>\n"
                      ∷ raw "<input name='blueweb_url' value='"
                      ∷ shown (field (λ (c : Config). c.blueweb_url) cfg)
                      ∷ raw "' required\n"
                      ∷ raw
                          "       placeholder='e.g. http://blueweb.lan  or  http://10.102.1.50:8080'></div>\n"
                      ∷ raw "<div class='field'><label>Username</label>\n"
                      ∷ raw "<input name='blueweb_user' value='"
                      ∷ shown (field (λ (c : Config). c.blueweb_user) cfg)
                      ∷ raw "' required\n"
                      ∷ raw "       placeholder='e.g. Administrator'></div>\n"
                      ∷ raw "<div class='field'><label>Password</label>\n"
                      ∷ raw "<input name='blueweb_password' type='password'\n"
                      ∷ raw "       placeholder='"
                      ∷ [])
                    ++ (placeholder cfg "BlueWeb account password"
                        ++ ((raw "'></div>\n"
                              ∷ raw "<div class='field'><label>Operator timezone (IANA)</label>\n"
                              ∷ raw "<input name='operator_timezone' value='"
                              ∷ shown (field (λ (c : Config). c.operator_timezone) cfg)
                              ∷ raw "' required\n"
                              ∷ raw
                                  "       placeholder='e.g. America/New_York, America/Chicago, Europe/Madrid'></div>\n"
                              ∷ raw "\n"
                              ∷ raw "<h2>MySQL (target audit DB)</h2>\n"
                              ∷ raw "<div class='field'><label>Host</label>\n"
                              ∷ raw "<input name='mysql_host' value='"
                              ∷ shown (field (λ (c : Config). c.mysql_host) cfg)
                              ∷ raw "' required\n"
                              ∷ raw
                                  "       placeholder='e.g. mysql.internal.example  or  10.102.1.20'></div>\n"
                              ∷ raw "<div class='field'><label>Port</label>\n"
                              ∷ raw "<input name='mysql_port' type='number' value='"
                              ∷ shown (number_or (λ (c : Config). c.mysql_port) 3306 cfg)
                              ∷ raw "' required\n"
                              ∷ raw "       min='1' max='65535' placeholder='3306'></div>\n"
                              ∷ raw "<div class='field'><label>Database</label>\n"
                              ∷ raw "<input name='mysql_database' value='"
                              ∷ shown (field (λ (c : Config). c.mysql_database) cfg)
                              ∷ raw "' required\n"
                              ∷ raw
                                  "       placeholder='e.g. audit  (the schema, not the table)'></div>\n"
                              ∷ raw "<div class='field'><label>User</label>\n"
                              ∷ raw "<input name='mysql_user' value='"
                              ∷ shown (field (λ (c : Config). c.mysql_user) cfg)
                              ∷ raw "' required\n"
                              ∷ raw
                                  "       placeholder='e.g. audit_writer  (needs CREATE+INSERT+SELECT on first boot)'></div>\n"
                              ∷ raw "<div class='field'><label>Password</label>\n"
                              ∷ raw "<input name='mysql_password' type='password'\n"
                              ∷ raw "       placeholder='"
                              ∷ [])
                            ++ (placeholder cfg "DB user password"
                                ++ ((raw "'></div>\n"
                                    ∷ raw "\n"
                                    ∷ raw "<h2>Schedule</h2>\n"
                                    ∷ raw
                                        "<div class='field'><label>Daily fire (HH:MM, operator TZ)</label>\n"
                                    ∷ raw "<input name='schedule_local' value='"
                                    ∷ shown (schedule_value cfg)
                                    ∷ raw "' required\n"
                                    ∷ raw "       pattern='[0-2][0-9]:[0-5][0-9]'\n"
                                    ∷ raw
                                        "       placeholder='e.g. 03:00  (runs daily at 3:00 in the operator timezone)'></div>\n"
                                    ∷ raw "<div class='field'><label>Catch-up cap (days)</label>\n"
                                    ∷ raw "<input name='catch_up_cap_days' type='number' value='"
                                    ∷ shown (number_or (λ (c : Config). c.catch_up_cap_days) 14 cfg)
                                    ∷ raw "' required\n"
                                    ∷ raw "       min='1' max='90'\n"
                                    ∷ raw
                                        "       placeholder='14  (boot-time catch-up backfills up to N missed days)'></div>\n"
                                    ∷ raw "\n"
                                    ∷ raw "<div class='button-row'>\n"
                                    ∷ raw
                                        "<button id='test-bluewave' type='button' class='secondary'>Test BlueWeb</button>\n"
                                    ∷ raw
                                        "<button id='test-mysql' type='button' class='secondary'>Test MySQL</button>\n"
                                    ∷ raw "<button type='submit' class='primary'>Save</button>\n"
                                    ∷ raw "</div>\n"
                                    ∷ raw "</form>\n"
                                    ∷ raw "\n"
                                    ∷ raw "<div id='status' class='status'></div>\n"
                                    ∷ raw "\n"
                                    ∷ raw "<div class='footer'>\n"
                                    ∷ raw
                                        "<span>Passwords are write-only — leave blank to keep the existing value.</span>\n"
                                    ∷ raw
                                        "<span>Spec: <code>BLUEWEB_AUDIT_INGEST_SPEC.md</code> &sect;7</span>\n"
                                    ∷ raw "</div>\n"
                                    ∷ raw "</main>\n"
                                    ∷ raw "<script>"
                                    ∷ raw a.config_js
                                    ∷ raw "</script>\n"
                                    ∷ [])))))))))

unfoldable pub render_config_html : Assets → Option Config → Text → Page
unfolding page_shell config_body
render_config_html a cfg csrf_token =
    page_shell a (codes "Configure — bluewave-worker") (config_body a cfg csrf_token) []
