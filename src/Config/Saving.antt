-- ===== src/Config/Saving.antt =====
-- bluewave/config.py, `save`: its statements one by one, on a connection to SQLite.
use blue_waving.Config.{ConfigFile, StoredConfig, MultiFernet, Config, stored_of, save}
use blue_waving.Exceptions.{Exn, database_error}
use blue_waving.Base.{
  ℕ, zero, suc, ◌≡◌, refl, false, Option, none, some, List, [], ◌∷◌, arith, ltb, if◌then◌else◌,
  take, Result, ok, err, ◌>>=◌, take-nil,
}

pub data Statement : Type 0 where
  begin delete_config commit : Statement
  insert_config : StoredConfig → Statement

-- What the file holds for others, and inside a transaction what the connection sees.
pub record SqliteConn : Type 0 where
  pub committed : ConfigFile
  pub pending : Option ConfigFile

-- Closing the connection drops a transaction that is not committed.
abbrev pub open_conn : ConfigFile → SqliteConn
open_conn file = record { committed = file; pending = none }

unfoldable pub seen : SqliteConn → ConfigFile
seen c = elim c.pending [ none ↦ c.committed | some file ↦ file ]

-- A write, which with `isolation_level=None` is committed at once outside a transaction.
unfoldable pub write : ConfigFile → SqliteConn → SqliteConn
write file c = elim c.pending [
  | none ↦ record { committed = file; pending = none }
  | some before ↦ record { committed = c.committed; pending = some file }
]

-- `id INTEGER PRIMARY KEY CHECK (id = 1)`: there is no second row.
unfoldable pub insert_into : ConfigFile → StoredConfig → SqliteConn → Result Exn SqliteConn
unfolding write
insert_into none row c = ok (write (some row) c)
insert_into (some before) row c = err database_error

-- A BEGIN inside a transaction and a COMMIT outside raise.
unfoldable pub execute : Statement → SqliteConn → Result Exn SqliteConn
unfolding seen write insert_into
execute begin c = elim c.pending [
  | none ↦ ok (record { committed = c.committed; pending = some c.committed })
  | some file ↦ err database_error
]
execute delete_config c = ok (write none c)
execute (insert_config row) c = insert_into (seen c) row c
execute commit c = elim c.pending [
  | none ↦ err database_error
  | some file ↦ ok (record { committed = file; pending = none })
]

unfoldable pub execute_all : List Statement → SqliteConn → Result Exn SqliteConn
unfolding execute
execute_all [] c = ok c
execute_all (s ∷ ss) c = do c' ← execute s c; execute_all ss c'

-- The statements of `save`.
unfoldable pub save_script : MultiFernet → Config → List Statement
save_script mf cfg = begin ∷ delete_config ∷ insert_config (stored_of mf cfg) ∷ commit ∷ []

-- None of the statements of save is refused, wherever they are stopped. Stopped before the last of
-- the four they leave the file as it was, so that no reader finds it empty; with the last they
-- leave what `save` says.
pub execute_all-save_script :
    (mf : MultiFernet) (cfg : Config) (file : ConfigFile) (n : ℕ)
    → (c : SqliteConn) × (execute_all (take n (save_script mf cfg)) (open_conn file) ≡ ok c)
      × (c.committed ≡ (if ltb n 4 then file else save mf cfg file))
unfolding execute_all save_script execute seen write insert_into save
execute_all-save_script mf cfg file zero = (_, refl, refl)
execute_all-save_script mf cfg file (suc zero) = (_, refl, refl)
execute_all-save_script mf cfg file (suc (suc zero)) = (_, refl, refl)
execute_all-save_script mf cfg file (suc (suc (suc zero))) = (_, refl, refl)
execute_all-save_script mf cfg file (suc (suc (suc (suc n)))) =
    let last : ltb (suc (suc (suc (suc n)))) 4 ≡ false = ground arith in
    (open_conn (some (stored_of mf cfg)), rw (take-nil n) refl, rw last refl)
