-- ===== src/Positioned/Texts/Update.antt =====
-- The text of an update through a cursor, and the parameters that are bound for it.
use mariadb_connector_odbc.Base.{ℕ, Bool, not, Option, none, some, List, [], ◌∷◌, map, Bytes}
use mariadb_connector_odbc.Bind.{Header, Memory}
use mariadb_connector_odbc.Positioned.{Column, set_item, left_out}
use mariadb_connector_odbc.Positioned.Texts.{selected}

-- A test that is taken the other way.
abbrev pub fails : (Column → Bool) → Column → Bool
fails p c = not (p c)

module _ (mem : Memory) (h : Header) (n : ℕ) where
  abbrev pub set_columns : List Column → List Column
  set_columns cs = selected (fails (left_out mem h n)) cs

  abbrev settings : List Column → List Bytes
  settings cs = map (λ c. set_item c.field) cs

  abbrev pub unless_empty : List Column → Bytes → Option Bytes
  unless_empty [] t = none
  unless_empty (_ ∷ _) t = some t
