-- ===== src/Tests/Bind.antt =====
-- The search for parameters whose data comes at execution, at concrete bindings.
use mariadb_connector_odbc.Base.{
  ◌+◌, ◌*◌, ◌≡◌, refl, none, some, if◌then◌else◌, leb, Bool, true, false, [], ◌∷◌, ◌++◌, Bytes,
  codes, arith,
}
use mariadb_connector_odbc.Base.Int.{ℤ, pos, negsuc, minus}
use mariadb_connector_odbc.Bind.Dae.{InRows, find_next_dae_param-InRows}
use mariadb_connector_odbc.Bind.ParamData.{
  ParamDesc, ParamStmt, dae_normal, asked, param_data, param_source, next_param, Putting,
  put_success, put_pieces,
}
use mariadb_connector_odbc.Bind.ParamData.Order.{left, asked-left}
use mariadb_connector_odbc.Bind.ParamData.Pieces.{Appends, put_pieces-concat}
use mariadb_connector_odbc.Bind.{
  Memory, Desc, find_next_dae_param, find_in_rows, find_in_row, is_dae, param_is_dae,
  get_bind_offset,
}

-- Two rows of three parameters with lengths at 100, 200 and 300; the second parameter of the second
-- row, at 208, has its data at execution.
abbrev memory : Memory
memory a = if leb a 207 then pos 4 else if leb a 208 then minus 2 else pos 4

abbrev desc : Desc
desc = record {
  header = record { bind_offset = none; bind_type = 0; array_size = 2; count = 3 };
  octet_length_ptr = λ i. some (some (100 * (i + 1)));
}

find_next_dae_param-desc : find_next_dae_param memory desc (negsuc 0) (negsuc 0) ≡ some 1
unfolding find_next_dae_param find_in_rows find_in_row is_dae param_is_dae get_bind_offset
find_next_dae_param-desc = refl

find_next_dae_param-InRows_example :
    InRows memory desc 0 0 2 (find_next_dae_param memory desc (negsuc 0) (negsuc 0))
find_next_dae_param-InRows_example = find_next_dae_param-InRows memory desc (negsuc 0) (negsuc 0)

-- One row of three parameters, the first and the third of which have their data at execution.
abbrev late : Memory
late a = if leb a 199 then minus 2 else if leb a 299 then pos 4 else minus 101

abbrev params : ParamDesc
params = record { desc = desc; data_ptr = λ i. some (1000 * i); octet_length = λ i. 4 }

abbrev executing : ParamStmt
executing = record {
  data_execution_type = dae_normal;
  put_param = negsuc 0;
  param_count = 3;
  apd = some params;
  has_ard = true;
  dae_row_number = 1;
  dae_put_param = negsuc 0;
  dae_param_count = 0;
  dae_apd = none;
}

asked-executing : asked 4 late executing ≡ some (pos 0 ∷ pos 2 ∷ [])
unfolding asked param_data param_source next_param find_in_row is_dae param_is_dae get_bind_offset
asked-executing = refl

asked-left_example : asked 4 late executing ≡ some (left late executing params 3)
unfolding param_source
asked-left_example = asked-left 4 late executing params 3 refl (omega arith)

-- The library keeps what it is given.
abbrev keep : Bytes → ℤ → Bytes → Bool × Bytes
keep s param b = (false, s ++ b)

keep-Appends : Appends keep (pos 0) (λ s. s)
keep-Appends = record { accepts = λ s b. refl; appended = λ s b. refl }

abbrev unput : Putting Bytes
unput = record { is_null = false; internal_length = 0; server = [] }

put_pieces-concat_example :
    ((put_pieces keep (pos 0) (codes "ab" ∷ codes "cde" ∷ []) unput).0 ≡ put_success)
    × ((put_pieces keep (pos 0) (codes "ab" ∷ codes "cde" ∷ []) unput).1.server
        ≡ [] ++ codes "abcde")
    × ((put_pieces keep (pos 0) (codes "ab" ∷ codes "cde" ∷ []) unput).1.internal_length ≡ 0 + 5)
put_pieces-concat_example =
    put_pieces-concat keep (pos 0) (λ s. s) keep-Appends (codes "ab" ∷ codes "cde" ∷ []) unput
      (omega arith)
