-- ===== src/Attribute.antt =====
-- MADB_StmtSetAttr and MADB_StmtGetAttr of driver/ma_statement.cpp, over a store of descriptors: several
-- statements can have the same descriptor. A value is the 64 bits of ValuePtr; the address 0 is null.
pub mod Readback
pub mod Attach
pub mod Wired
use mariadb_connector_odbc.Base.{
  ℕ, zero, suc, ◌%◌, ◌^◌, Bool, true, false, not, ◌&&◌, ◌||◌, Option, none, some, List, [], ◌∷◌,
  ◌++◌, ◌==◌, if◌then◌else◌,
}
use mariadb_connector_odbc.Base.Int.{ℤ, pos}
use mariadb_connector_odbc.Cursor.{Reply, reply, raised}
use mariadb_connector_odbc.Descriptor.{DescType, desc_apd, desc_ard, desc_ipd, desc_ird, DescHeader}
use mariadb_connector_odbc.Descriptor.Field.{
  HeaderField, array_size, array_status_ptr, bind_offset_ptr, bind_type, rows_processed_ptr,
  set_header,
}
use mariadb_connector_odbc.Error.Code.{Code, err_01s02, err_hy017, err_hy024, err_hyc00}
use mariadb_connector_odbc.Sql.{sql_success}

-- MADB_Desc: AppType, DescType (`none` is MADB_DESC_UNKNOWN), the header, and the statements that use an
-- explicit descriptor.
pub record DescObject : Type 0 where
  pub is_explicit : Bool
  pub kind : Option DescType
  pub header : DescHeader
  pub stmts : List ℕ

-- MADB_StmtOptions, those that are attributes.
pub record StmtOptions : Type 0 where
  pub cursor_type : ℕ
  pub simulate_cursor : ℕ
  pub use_bookmarks : ℕ
  pub max_length : ℕ
  pub max_rows : ℕ
  pub metadata_id : ℕ
  pub timeout : ℕ
  pub exec_direct_on_server : Bool
  pub prepare_on_client : Bool

-- A statement: its address, the addresses of its descriptors, those of its own two, and its options.
pub record StmtObject : Type 0 where
  pub self : ℕ
  pub apd : ℕ
  pub ard : ℕ
  pub ipd : ℕ
  pub ird : ℕ
  pub iapd : ℕ
  pub iard : ℕ
  pub options : StmtOptions

-- What the connection allows: the cursor types of its data source, and SET STATEMENT.
pub record Allows : Type 0 where
  pub only_forward : Bool
  pub dynamic : Bool
  pub set_statement : Bool

pub record Store : Type 0 where
  pub descs : ℕ → DescObject
  pub stmt : StmtObject

-- The attributes that are a member of a descriptor's header.
pub data DescAttr : Type 0 where
  param_bind_offset_ptr param_bind_type param_operation_ptr param_status_ptr : DescAttr
  params_processed_ptr paramset_size row_array_size row_bind_offset_ptr row_bind_type : DescAttr
  row_operation_ptr row_status_ptr rows_fetched_ptr : DescAttr

-- The attributes that are an option of the statement, and those that have one value only.
pub data OptionAttr : Type 0 where
  simulate_cursor cursor_scrollable cursor_type max_length max_rows metadata_id : OptionAttr
  query_timeout use_bookmarks exec_direct_on_server prepare_on_client : OptionAttr

pub data FixedAttr : Type 0 where
  async_enable cursor_sensitivity concurrency noscan retrieve_data : FixedAttr

-- `driver_attr` is an unknown one of the driver's range, `other_attr` any other.
pub data StmtAttr : Type 0 where
  in_desc : DescAttr → StmtAttr
  in_options : OptionAttr → StmtAttr
  fixed : FixedAttr → StmtAttr
  app_param_desc app_row_desc enable_auto_ipd fetch_bookmark_ptr driver_attr other_attr : StmtAttr

-- The descriptor and the member that MADB_StmtSetAttr sets for an attribute.
unfoldable pub place_of : DescAttr → StmtObject → ℕ × HeaderField
place_of param_bind_offset_ptr s = (s.apd, bind_offset_ptr)
place_of param_bind_type s = (s.apd, bind_type)
place_of param_operation_ptr s = (s.apd, array_status_ptr)
place_of param_status_ptr s = (s.ipd, array_status_ptr)
place_of params_processed_ptr s = (s.ipd, rows_processed_ptr)
place_of paramset_size s = (s.apd, array_size)
place_of row_array_size s = (s.ard, array_size)
place_of row_bind_offset_ptr s = (s.ard, bind_offset_ptr)
place_of row_bind_type s = (s.ard, bind_type)
place_of row_operation_ptr s = (s.ard, array_status_ptr)
place_of row_status_ptr s = (s.ird, array_status_ptr)
place_of rows_fetched_ptr s = (s.ird, rows_processed_ptr)

-- A change of the descriptor at an address.
abbrev pub update : (ℕ → DescObject) → ℕ → (DescObject → DescObject) → ℕ → DescObject
update f a change x = if a == x then change (f x) else f x

abbrev pub is_true : ℕ → Bool
is_true v = not (v == 0)

-- The type of cursor that is set: SQL_CURSOR_FORWARD_ONLY is 0, SQL_CURSOR_KEYSET_DRIVEN 1 and
-- SQL_CURSOR_STATIC 3. A value of 64 bits is stored in 32.
unfoldable pub set_cursor_type : Allows → ℕ → StmtOptions → Reply × StmtOptions
set_cursor_type c v o =
    if c.only_forward && not (v == 0)
    then (raised err_01s02, o)
    else if c.dynamic
    then (if v == 1
        then (raised err_01s02, record o { cursor_type = 3 })
        else (reply sql_success, record o { cursor_type = v % 2 ^ 32 }))
    else if not (v == 0) && not (v == 3)
    then (raised err_01s02, record o { cursor_type = 3 })
    else (reply sql_success, record o { cursor_type = v % 2 ^ 32 })

unfoldable pub set_option : Allows → OptionAttr → ℕ → StmtOptions → Reply × StmtOptions
unfolding set_cursor_type
set_option c simulate_cursor v o = (reply sql_success, record o { simulate_cursor = v })
set_option c cursor_scrollable v o =
    (reply sql_success, record o { cursor_type = if v == 0 then 0 else 3 })
set_option c cursor_type v o = set_cursor_type c v o
set_option c max_length v o = (reply sql_success, record o { max_length = v })
set_option c max_rows v o = (reply sql_success, record o { max_rows = v })
set_option c metadata_id v o = (reply sql_success, record o { metadata_id = v })
set_option c query_timeout v o =
    if c.set_statement then (reply sql_success, record o { timeout = v }) else (raised err_01s02, o)
set_option c use_bookmarks v o = (reply sql_success, record o { use_bookmarks = v % 2 ^ 32 })
set_option c exec_direct_on_server v o =
    (reply sql_success, record o { exec_direct_on_server = is_true v })
set_option c prepare_on_client v o = (reply sql_success, record o { prepare_on_client = is_true v })

-- SQL_ASYNC_ENABLE_OFF, SQL_UNSPECIFIED, SQL_CONCUR_READ_ONLY, SQL_NOSCAN_ON and SQL_RD_ON.
abbrev pub fixed_value : FixedAttr → ℕ
fixed_value async_enable = 0
fixed_value cursor_sensitivity = 0
fixed_value _ = 1

-- The first mention of a statement is taken out of the list.
abbrev pub without_first : ℕ → List ℕ → List ℕ
without_first a [] = []
without_first a (x ∷ xs) = if a == x then xs else x ∷ without_first a xs

-- RemoveStmtRefFromDesc with `all` false.
abbrev pub remove_stmt_ref : ℕ → DescObject → DescObject
remove_stmt_ref stmt d =
    if d.is_explicit then record d { stmts = without_first stmt d.stmts } else d

abbrev pub is_kind : DescType → Option DescType → Bool
is_kind t none = true
is_kind desc_apd (some desc_apd) = true
is_kind desc_ard (some desc_ard) = true
is_kind _ _ = false

-- The store after an application descriptor of the type was put at `desc`, in place of the one at `old`,
-- where the statement's own one is at `own`.
unfoldable pub attach : DescType → ℕ → ℕ → ℕ → ℕ → (ℕ → DescObject) → ℕ → DescObject
attach t stmt old own desc descs =
    let typed =
      update (update descs old (remove_stmt_ref stmt)) desc (λ d. record d { kind = some t }) in
    if desc == own
    then typed
    else update typed desc (λ d. record d { stmts = d.stmts ++ stmt ∷ [] })

-- SQL_ATTR_APP_PARAM_DESC and SQL_ATTR_APP_ROW_DESC: the new address and the store, or an error.
unfoldable pub set_app_desc :
    DescType → ℕ → ℕ → ℕ → ℕ → (ℕ → DescObject) → Reply × ℕ × (ℕ → DescObject)
unfolding attach
set_app_desc t stmt old own desc descs =
    if desc == 0
    then (reply sql_success, own, update descs old (remove_stmt_ref stmt))
    else if not (descs desc).is_explicit && not (desc == own)
    then (raised err_hy017, old, descs)
    else if not (is_kind t (descs desc).kind)
    then (raised err_hy024, old, descs)
    else (reply sql_success, desc, attach t stmt old own desc descs)

-- MADB_StmtSetAttr
unfoldable pub set_attr : Allows → StmtAttr → ℕ → Store → Reply × Store
unfolding place_of set_header set_option set_app_desc
set_attr c (in_desc a) v w = (
  reply sql_success,
  record w {
    descs =
        update w.descs (place_of a w.stmt).0
          (λ d. record d { header = set_header (place_of a w.stmt).1 v d.header });
  },
)
set_attr c (in_options a) v w =
    let set = set_option c a v w.stmt.options in
    (set.0, record w { stmt = record w.stmt { options = set.1 } })
set_attr c (fixed a) v w = (if v == fixed_value a then reply sql_success else raised err_01s02, w)
set_attr c app_param_desc v w =
    let set = set_app_desc desc_apd w.stmt.self w.stmt.apd w.stmt.iapd v w.descs in
    (set.0, record w { descs = set.2; stmt = record w.stmt { apd = set.1 } })
set_attr c app_row_desc v w =
    let set = set_app_desc desc_ard w.stmt.self w.stmt.ard w.stmt.iard v w.descs in
    (set.0, record w { descs = set.2; stmt = record w.stmt { ard = set.1 } })
set_attr c enable_auto_ipd v w = (raised err_hyc00, w)
set_attr c fetch_bookmark_ptr v w = (raised err_hyc00, w)
set_attr c driver_attr v w = (raised err_hyc00, w)
set_attr c other_attr v w = (raised err_hy024, w)

abbrev pub number : Bool → ℕ
number b = if b then 1 else 0

-- The value of an option; the case of SQL_ATTR_USE_BOOKMARKS runs on into the next one.
unfoldable pub option_value : OptionAttr → StmtOptions → ℕ
option_value use_bookmarks o = o.simulate_cursor
option_value simulate_cursor o = o.simulate_cursor
option_value cursor_scrollable o = o.cursor_type
option_value cursor_type o = o.cursor_type
option_value max_length o = o.max_length
option_value max_rows o = o.max_rows
option_value metadata_id o = o.metadata_id
option_value query_timeout o = o.timeout
option_value exec_direct_on_server o = number o.exec_direct_on_server
option_value prepare_on_client o = number o.prepare_on_client

-- The member that MADB_StmtGetAttr reads for an attribute.
unfoldable pub desc_value : DescAttr → (ℕ → DescObject) → StmtObject → ℕ
desc_value param_bind_offset_ptr f s = (f s.apd).header.bind_offset_ptr
desc_value param_bind_type f s = (f s.apd).header.bind_type
desc_value param_operation_ptr f s = (f s.apd).header.array_status_ptr
desc_value param_status_ptr f s = (f s.ipd).header.array_status_ptr
desc_value params_processed_ptr f s = (f s.ipd).header.rows_processed_ptr
desc_value paramset_size f s = (f s.apd).header.array_size
desc_value row_array_size f s = (f s.ard).header.array_size
desc_value row_bind_offset_ptr f s = (f s.ard).header.bind_offset_ptr
desc_value row_bind_type f s = (f s.ard).header.bind_type
desc_value row_operation_ptr f s = (f s.ard).header.array_status_ptr
desc_value row_status_ptr f s = (f s.ird).header.array_status_ptr
desc_value rows_fetched_ptr f s = (f s.ird).header.rows_processed_ptr

-- MADB_StmtGetAttr; `none` is an attribute for which nothing is written.
unfoldable pub get_attr : StmtAttr → Store → Reply × Option ℤ
unfolding desc_value option_value
get_attr (in_desc a) w = (reply sql_success, some (pos (desc_value a w.descs w.stmt)))
get_attr (in_options a) w = (reply sql_success, some (pos (option_value a w.stmt.options)))
get_attr (fixed a) w = (reply sql_success, some (pos (fixed_value a)))
get_attr app_param_desc w = (reply sql_success, some (pos w.stmt.apd))
get_attr app_row_desc w = (reply sql_success, some (pos w.stmt.ard))
get_attr enable_auto_ipd w = (reply sql_success, some (pos 0))
get_attr fetch_bookmark_ptr w = (reply sql_success, none)
get_attr driver_attr w = (raised err_hyc00, none)
get_attr other_attr w = (reply sql_success, none)
