-- ===== src/Config/Store.antt =====
-- bluewave/config.py: saving, loading and rotating keys together.
use blue_waving.Base.{none, ◌≡◌, some, Text, ok}
use blue_waving.Config.{Config, MultiFernet, ConfigFile, load, save, save_again, reencrypt_all}

-- `reader` decrypts what `writer` encrypts, which Fernet documents for a key that both have.
abbrev pub Reads : MultiFernet → MultiFernet → Type 0
Reads reader writer = (t : Text) → reader.decrypt (writer.encrypt t) ≡ some t

-- What one store saves, a store that decrypts what the first encrypts loads: every field, whatever
-- the file held before.
pub load-save :
    (reader writer : MultiFernet) (cfg : Config) (file : ConfigFile)
    → Reads reader writer
    → load reader (save writer cfg file) ≡ ok (some cfg)
unfolding load save
load-save reader writer cfg file h = rw (h cfg.blueweb_password, h cfg.mysql_password)

-- If a file loads under a list of keys, reencrypt_all under that list succeeds, and any store that
-- decrypts what the list encrypts loads the same settings from the result.
pub load-reencrypt_all :
    (both reader : MultiFernet) (file : ConfigFile) (cfg : Config)
    → Reads reader both
    → load both file ≡ ok (some cfg)
    → (file' : ConfigFile) × (reencrypt_all both none file ≡ ok file')
      × (load reader file' ≡ ok (some cfg))
unfolding reencrypt_all
load-reencrypt_all both reader file cfg h e =
    (save both cfg file, unfold save_again in rw e, load-save reader both cfg file h)
