-- ===== src/Positioned/Where/Bound.antt =====
-- The parameters of a positioned UPDATE or DELETE and the marks of its condition.
use mariadb_connector_odbc.Base.{
  ℕ, ◌+◌, ◌-◌, ◌≡◌, some, List, [], ◌∷◌, ◌++◌, map, if◌then◌else◌, Bytes, codes, length, get_elem?,
}
use mariadb_connector_odbc.Positioned.{MysqlField}
use mariadb_connector_odbc.Positioned.Texts.{numbered}
use mariadb_connector_odbc.Positioned.Where.{KeyFlag, has_flag}

-- Columns with their places.
abbrev pub key_pairs : KeyFlag → List MysqlField → ℕ → List (ℕ × MysqlField)
key_pairs k [] i = []
key_pairs k (f ∷ fs) i =
    if has_flag k f then (i, f) ∷ key_pairs k fs (i + 1) else key_pairs k fs (i + 1)

abbrev pub all_pairs : List MysqlField → ℕ → List (ℕ × MysqlField)
all_pairs [] i = []
all_pairs (f ∷ fs) i = (i, f) ∷ all_pairs fs (i + 1)

-- A comparison with a mark for each column.
abbrev pub marked : List (ℕ × MysqlField) → Bytes
marked [] = []
marked ((i, f) ∷ ps) = (codes " AND `" ++ (f.org_name ++ codes "`=?")) ++ marked ps

abbrev pub AreIn : List MysqlField → List (ℕ × MysqlField) → Type 0
AreIn fields ps = map (λ p. get_elem? fields p.0) ps ≡ map (λ p. some p.1) ps

-- The text has one mark for each of the columns, and the parameters that are bound are these columns in the
-- same order, as the last ones of the statement.
abbrev pub Agrees : List MysqlField → Bytes → List (ℕ × ℕ) → ℕ → Type 0
Agrees fields t bound param_count =
    (ps : List (ℕ × MysqlField)) × AreIn fields ps
    × (t ≡ codes " WHERE 1" ++ (marked ps ++ codes " LIMIT 1"))
    × (bound ≡ numbered (1 + (param_count - length ps)) (map (λ p. p.0 + 1) ps))
