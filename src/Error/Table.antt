-- ===== src/Error/Table.antt =====
-- The table MADB_ErrorList of driver/ma_error.cpp.
use Prim.Native.String.{String}
use mariadb_connector_odbc.Base.{ℕ, List, [], ◌∷◌, Bytes, codes, get_or}
use mariadb_connector_odbc.Sql.{SqlReturn, sql_success, sql_success_with_info, sql_error}

-- MADB_ERROR
pub record ErrorRecord : Type 0 where
  pub state : Bytes
  pub state_v2 : Bytes
  pub message : Bytes
  pub return_value : SqlReturn

abbrev row : String → String → String → SqlReturn → ErrorRecord
row s v m r = record { state = codes s; state_v2 = codes v; message = codes m; return_value = r }

unfoldable pub error_list : List ErrorRecord
error_list =
    row "00000" "" "" sql_success
    ∷ row "01000" "" "General warning" sql_success_with_info
    ∷ row "01001" "01S03" "Cursor operation conflict" sql_success_with_info
    ∷ row "01002" "" "Disconnect error" sql_success_with_info
    ∷ row "01003" "" "NULL value eliminated in set function" sql_success_with_info
    ∷ row "01004" "" "String data, right-truncated" sql_success_with_info
    ∷ row "01006" "" "Privilege not revoked" sql_success_with_info
    ∷ row "01007" "" "Privilege not granted" sql_success_with_info
    ∷ row "01S00" "" "Invalid connection string attribute" sql_success_with_info
    ∷ row "01S01" "" "Error in row" sql_success_with_info
    ∷ row "01S02" "" "Option value changed" sql_success_with_info
    ∷ row "01S06" "" "Attempt to fetch before the result set returned the first rowset"
        sql_success_with_info
    ∷ row "01S07" "" "Fractional truncation" sql_success_with_info
    ∷ row "01S08" "" "Error saving File DSN" sql_success_with_info
    ∷ row "01S09" "" "Invalid keyword" sql_success_with_info
    ∷ row "07001" "" "Wrong number of parameters" sql_error
    ∷ row "07002" "" "COUNT field incorrect" sql_error
    ∷ row "07005" "2400" "Prepared statement not a cursor-specification" sql_error
    ∷ row "07006" "" "Restricted data type attribute violation" sql_error
    ∷ row "07009" "S1002" "Invalid descriptor index" sql_error
    ∷ row "07S01" "" "Invalid use of default parameter" sql_error
    ∷ row "08001" "" "Client unable to establish connection" sql_error
    ∷ row "08002" "" "Connection name in use" sql_error
    ∷ row "08003" "" "Connection not open" sql_error
    ∷ row "08004" "" "Server rejected the connection" sql_error
    ∷ row "08007" "" "Connection failure during transaction" sql_error
    ∷ row "08S01" "" "Communication link failure" sql_error
    ∷ row "21S01" "" "Insert value list does not match column list" sql_error
    ∷ row "21S02" "" "Degree of derived table does not match column list" sql_error
    ∷ row "22001" "" "String data, right-truncated" sql_error
    ∷ row "22002" "" "Indicator variable required but not supplied" sql_error
    ∷ row "22003" "" "Numeric value out of range" sql_error
    ∷ row "22007" "22008" "Invalid datetime format" sql_error
    ∷ row "22008" "" "Datetime field overflow" sql_error
    ∷ row "22012" "" "Division by zero" sql_error
    ∷ row "22015" "" "Interval field overflow" sql_error
    ∷ row "22018" "22005" "Invalid character value for cast specification" sql_error
    ∷ row "22019" "" "Invalid escape character" sql_error
    ∷ row "22025" "" "Invalid escape sequence" sql_error
    ∷ row "22026" "" "String data, length mismatch" sql_error
    ∷ row "23000" "" "Integrity constraint violation" sql_error
    ∷ row "24000" "" "Invalid cursor state" sql_error
    ∷ row "25000" "" "Invalid transaction state" sql_error
    ∷ row "25S01" "" "Transaction state" sql_error
    ∷ row "25S02" "" "Transaction is still active" sql_error
    ∷ row "25S03" "" "Transaction is rolled back" sql_error
    ∷ row "28000" "" "Invalid authorization specification" sql_error
    ∷ row "34000" "" "Invalid cursor name" sql_error
    ∷ row "3C000" "" "Duplicate cursor name" sql_error
    ∷ row "3D000" "" "Invalid catalog name" sql_error
    ∷ row "3F000" "" "Invalid schema name" sql_error
    ∷ row "40001" "" "Serialization failure" sql_error
    ∷ row "40002" "" "Integrity constraint violation" sql_error
    ∷ row "40003" "" "Statement completion unknown" sql_error
    ∷ row "42000" "37000" "Syntax error or access violation" sql_error
    ∷ row "42S01" "S0001" "Base table or view already exists" sql_error
    ∷ row "42S02" "S0002" "Base table or view not found" sql_error
    ∷ row "42S11" "S0011" "Index already exists" sql_error
    ∷ row "42S12" "S0012" "Index not found" sql_error
    ∷ row "42S21" "S0021" "Column already exists" sql_error
    ∷ row "42S22" "S0022" "Column not found" sql_error
    ∷ row "44000" "" "WITH CHECK OPTION violation" sql_error
    ∷ row "HY000" "S1000" "General error" sql_error
    ∷ row "HY001" "S1001" "Memory allocation error" sql_error
    ∷ row "HY003" "S1003" "Invalid application buffer type" sql_error
    ∷ row "HY004" "S1004" "Invalid SQL data type" sql_error
    ∷ row "HY007" "S1010" "Associated statement is not prepared" sql_error
    ∷ row "HY008" "S1008" "Operation canceled" sql_error
    ∷ row "HY009" "S1009" "Invalid use of null pointer" sql_error
    ∷ row "HY010" "S1010" "Function sequence error" sql_error
    ∷ row "HY011" "S1011" "Attribute cannot be set now" sql_error
    ∷ row "HY012" "S1012" "Invalid transaction operation code" sql_error
    ∷ row "HY013" "" "Memory management error" sql_error
    ∷ row "HY014" "" "Limit on the number of handles exceeded" sql_error
    ∷ row "HY015" "" "No cursor name available" sql_error
    ∷ row "HY016" "" "Cannot modify an implementation row descriptor" sql_error
    ∷ row "HY017" "" "Invalid use of an automatically allocated descriptor handle" sql_error
    ∷ row "HY018" "70100" "Server declined cancel request" sql_error
    ∷ row "HY019" "22003" "Non-character and non-binary data sent in pieces" sql_error
    ∷ row "HY020" "" "Attempt to concatenate a null value" sql_error
    ∷ row "HY021" "" "Inconsistent descriptor information" sql_error
    ∷ row "HY024" "S1009" "Invalid attribute value" sql_error
    ∷ row "HY090" "S1009" "Invalid string or buffer length" sql_error
    ∷ row "HY091" "S1091" "Invalid descriptor field identifier" sql_error
    ∷ row "HY092" "S1092" "Invalid attribute/option identifier" sql_error
    ∷ row "HY095" "" "Function type out of range" sql_error
    ∷ row "HY096" "S1096" "Invalid information type" sql_error
    ∷ row "HY097" "S1097" "Column type out of range" sql_error
    ∷ row "HY098" "S1098" "Scope type out of range" sql_error
    ∷ row "HY099" "S1099" "Nullable type out of range" sql_error
    ∷ row "HY100" "S1100" "Uniqueness option type out of range" sql_error
    ∷ row "HY101" "S1101" "Accuracy option type out of range" sql_error
    ∷ row "HY103" "S1103" "Invalid retrieval code" sql_error
    ∷ row "HY104" "S1104" "Invalid precision or scale value" sql_error
    ∷ row "HY105" "S1105" "Invalid parameter type" sql_error
    ∷ row "HY106" "S1106" "Fetch type out of range" sql_error
    ∷ row "HY107" "S1107" "Row value out of range" sql_error
    ∷ row "HY109" "S1109" "Invalid cursor position" sql_error
    ∷ row "HY110" "S1110" "Invalid driver completion" sql_error
    ∷ row "HY111" "S1111" "Invalid bookmark value" sql_error
    ∷ row "HYC00" "S1C00" "Optional feature not implemented" sql_error
    ∷ row "HYT00" "S1T00" "Timeout expired" sql_error
    ∷ row "HYT01" "" "Connection timeout expired" sql_error
    ∷ row "IM001" "" "Driver does not support this function" sql_error
    ∷ row "IM002" "" "Data source name not found and no default driver specified" sql_error
    ∷ row "IM003" "" "Specified driver could not be loaded" sql_error
    ∷ row "IM004" "" "Driver's SQLAllocHandle on SQL_HANDLE_ENV failed" sql_error
    ∷ row "IM005" "" "Driver's SQLAllocHandle on SQL_HANDLE_DBC failed" sql_error
    ∷ row "IM006" "" "Driver's SQLSetConnectAttr failed" sql_error
    ∷ row "IM007" "" "No data source or driver specified; dialog prohibited" sql_error
    ∷ row "IM008" "" "Dialog failed" sql_error
    ∷ row "IM009" "" "Unable to load translation DL" sql_error
    ∷ row "IM010" "" "Data source name too long" sql_error
    ∷ row "IM011" "" "Driver name too long" sql_error
    ∷ row "IM012" "" "DRIVER keyword syntax error" sql_error
    ∷ row "IM013" "" "Trace file error" sql_error
    ∷ row "IM014" "" "Invalid name of File DSN" sql_error
    ∷ row "IM015" "" "Corrupt file data source" sql_error
    ∷ row "S1000" "" "General error" sql_error
    ∷ row "S1107" "" "Row value out of range" sql_error
    ∷ row "S1C00" "" "Optional feature not implemented" sql_error
    ∷ []

-- MADB_ErrorList[i]; the terminating entry stands for every place behind the last.
unfoldable pub error_at : ℕ → ErrorRecord
unfolding error_list
error_at i = get_or error_list i (row "" "" "" sql_error)
