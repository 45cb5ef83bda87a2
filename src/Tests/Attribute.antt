-- ===== src/Tests/Attribute.antt =====
-- Attributes of a statement that uses an explicit descriptor for its rows.
use mariadb_connector_odbc.Base.{
  ℕ, ◌≡◌, refl, true, false, some, [], ◌∷◌, ◌==◌, arith, if◌then◌else◌,
}
use mariadb_connector_odbc.Base.Int.{pos}
use mariadb_connector_odbc.Attribute.{
  DescObject, StmtObject, Store, Allows, row_array_size, in_desc, app_row_desc, set_attr, get_attr,
  place_of,
}
use mariadb_connector_odbc.Attribute.Readback.{get_attr-set_attr_shared}
use mariadb_connector_odbc.Attribute.Wired.{IsWired, set_attr-IsWired}
use mariadb_connector_odbc.Descriptor.{DescType, DescHeader, desc_apd, desc_ard, desc_ipd, desc_ird}
use mariadb_connector_odbc.Descriptor.Field.{in_header}
use mariadb_connector_odbc.Descriptor.Readback.{stored}

abbrev header : DescHeader
header = record {
  array_size = 1;
  array_status_ptr = 0;
  bind_offset_ptr = 0;
  bind_type = 0;
  count = pos 0;
  rows_processed_ptr = 0;
}

-- The statements at 100 and 200 have the explicit descriptor at 9 for their rows.
abbrev descs : ℕ → DescObject
descs a =
    if a == 9
    then record {
      is_explicit = true;
      kind = some desc_ard;
      header = header;
      stmts = 200 ∷ 100 ∷ [];
    }
    else record { is_explicit = false; kind = some (kind_of a); header = header; stmts = [] }
  where
    kind_of : ℕ → DescType
    kind_of a =
        if a == 1
        then desc_apd
        else if a == 2
        then desc_ard
        else if a == 3
        then desc_ipd
        else desc_ird

abbrev statement : ℕ → StmtObject
statement self = record {
  self = self;
  apd = 1;
  ard = 9;
  ipd = 3;
  ird = 4;
  iapd = 1;
  iard = 2;
  options = record {
    cursor_type = 0;
    simulate_cursor = 0;
    use_bookmarks = 0;
    max_length = 0;
    max_rows = 0;
    metadata_id = 0;
    timeout = 0;
    exec_direct_on_server = false;
    prepare_on_client = false;
  };
}

abbrev store : Store
store = record { descs = descs; stmt = statement 100 }

abbrev allows : Allows
allows = record { only_forward = false; dynamic = false; set_statement = true }

store-IsWired : IsWired store
store-IsWired = record {
  params = record { cur_kind = refl; own_kind = refl; is_listed = λ e. absurd (ground (arith, e)) };
  rows = record { cur_kind = refl; own_kind = refl; is_listed = λ e. refl };
}

set_attr-IsWired_example : IsWired (set_attr allows app_row_desc 0 store).1
set_attr-IsWired_example = set_attr-IsWired allows app_row_desc 0 store store-IsWired

get_attr-set_attr_shared_example :
    (((place_of row_array_size (statement 100)).0 == (place_of row_array_size (statement 200)).0)
        ≡ true
      → (get_attr
          (in_desc row_array_size)
          (record (set_attr allows (in_desc row_array_size) 50 store).1 { stmt = statement 200 })).1
        ≡ some (stored (in_header (place_of row_array_size (statement 200)).1) 50))
    × (((place_of row_array_size (statement 100)).0 == (place_of row_array_size (statement 200)).0)
          ≡ false
        → (get_attr
            (in_desc row_array_size)
            (record (set_attr allows (in_desc row_array_size) 50 store).1 {
              stmt = statement 200;
            })).1
          ≡ (get_attr (in_desc row_array_size) (record store { stmt = statement 200 })).1)
get_attr-set_attr_shared_example =
    get_attr-set_attr_shared allows row_array_size 50 store (statement 200)
