-- ===== src/Lib.antt =====
-- A model of parts of MariaDB Connector/ODBC, and what is proved of it.
--
-- The driver takes a connection string or a data source name (driver/ma_dsn.c), opens a
-- connection, and for each statement tokenizes its text to find its type, its parameters and a
-- cursor's name (driver/ma_parse.cpp). Parameters are converted from the application's C types to
-- MYSQL_BIND structures and results are converted back (driver/ma_typeconv.cpp,
-- driver/ma_helper.cpp), values that the application keeps back are given while the statement is
-- executed, and a cursor fetches the result set in rowsets (driver/ma_statement.cpp,
-- driver/ma_result.cpp). A row of a cursor is changed or deleted by statements that find it again
-- by a key (driver/ma_string.cpp). Each handle keeps the last error (driver/ma_error.cpp); the
-- types and sizes that descriptors report come from the tables of driver/ma_helper.cpp and
-- driver/ma_desc.cpp.
--
-- Base: the numbers, lists and lemmas that all modules share. A byte is a natural number, a C
-- string a list of bytes, and a pointer into a string the suffix from there on.
-- Text: ltrim and trim of driver/ma_common.c, and the C library's functions on strings that the
-- code calls (strchr, strstr, strncasecmp).
-- Query: the structure MADB_QUERY of driver/ma_parse.h and the functions of driver/ma_parse.cpp.
-- strip_leading_comments, skip_spaces_and_comments, skip_quoted_string and get_query_type are
-- StripLeadingComments, SkipSpacesAndComments, SkipQuotedString and MADB_GetQueryType.
-- Query.Parse has ParseQuery, its loop's variables as the record Scan; Query.Cursor has
-- MADB_Token, MADB_CompareToken, MADB_FindToken and MADB_ParseCursorName; Query.Prepare has
-- FixIsoFormat, MADB_ParseQuery and SqlRtrim.
-- Dsn: Dsn.Keys has the table DsnKeys and the structure MADB_Dsn of driver/ma_dsn.h, its members
-- named by the keyword's index; Dsn.Store has MADB_DsnStoreValue, MADB_DsnSwitchDependents and
-- MADB_DsnUpdateOptionsFields; Dsn.ConnString has MADB_ParseConnString; Dsn.Print has
-- MADB_DsnToString with its buffer of 1024 bytes.
-- Types: Types.CType has the tables on C types of driver/ma_helper.cpp, Types.Column those on a
-- column's MYSQL_FIELD and MADB_FixOctetLength of driver/ma_desc.cpp, Types.Record
-- MADB_FixIrdRecord with MADB_FixDisplaySize and MADB_FixDataSize. The values of the ODBC codes
-- are those of sql.h and sqlext.h.
-- Convert: Convert.Times has the structures of date and time values and the copies between them;
-- Convert.ToSql has MADB_Timestamp2Sql, MADB_Time2Sql, MADB_IntervalHtoMS2Sql and MADB_Date2Sql
-- with the buffer they write to; Convert.FromSql has MADB_CopyMadbTimestamp.
-- Bind: GetBindOffset, MADB_ColumnIgnoredInAllRows and MADB_FindNextDaeParam of
-- driver/ma_helper.cpp, over a memory that maps an address to the length that stands there.
-- Bind.ParamData has MADB_StmtParamData, up to the execution that follows the last value, and
-- MADB_StmtPutData of driver/ma_statement.cpp; PreparedStatement::sendLongData belongs to the
-- library that is a submodule and is a parameter.
-- Sql: the return codes of the ODBC functions.
-- Error: Error.Code has the numbers enum_madb_error of driver/ma_error.h, Error.Name the SQLSTATE
-- that each is named after, and Error.Table the table MADB_ErrorList of driver/ma_error.cpp.
-- Error.Diag has the structure MADB_Error and MADB_CLEAR_ERROR, MADB_PutErrorPrefix,
-- MADB_SetError, MADB_SetNativeError, MADB_FromException and MADB_CopyError; what the server
-- library reports is an argument. Error.Record has MADB_GetDiagRec and the part of MADB_SetString
-- of driver/ma_platform_posix.cpp that an ANSI application reaches, and Error.Field has
-- MADB_GetDiagField.
-- Cursor: a statement's cursor. The parent has MADB_RowsToFetch of driver/ma_result.cpp and
-- MADB_StmtFetch of driver/ma_statement.cpp, with the members of MADB_Stmt that they change as
-- the record Fetching; Cursor.Scroll has MADB_StmtFetchScroll. Cursor.Rowset has the proofs on
-- the loop over the rows, Cursor.Next those on SQL_FETCH_NEXT and Cursor.Move those on the other
-- orientations. SQLULEN has 64 bits; a position that is not positive is 0.
-- Descriptor: Descriptor has the records of a descriptor and MADB_DescGetInternalRecord of
-- driver/ma_desc.cpp; Descriptor.Field has the table MADB_DESC_FLDID for the fields that an
-- application can set, MADB_DescSetField and MADB_DescGetField on them, and SQLSetDescField of
-- driver/odbc_3_api.cpp.
-- Attribute: MADB_StmtSetAttr and MADB_StmtGetAttr of driver/ma_statement.cpp, with
-- RemoveStmtRefFromDesc, over a store of descriptors in which several statements can share one;
-- the attributes for the descriptors of the implementation, which are only read, are left out.
--
-- Positioned: the statements that act on the row of a cursor. The parent has the texts of
-- driver/ma_string.cpp, MADB_DynStrUpdateSet, MADB_DynStrInsertSet, MADB_DynStrGetColumns,
-- MADB_DynStrGetValues, MADB_GetTableName and MADB_GetCatalogName, with the loops of
-- MADB_StmtSetPos of driver/ma_statement.cpp that bind their parameters; Positioned.Where has
-- MADB_DynStrGetWhere, MADB_KeyTypeCount of driver/ma_helper.cpp, and the loop of
-- MADB_ExecutePositionedUpdate. UniqueIndex and IndexType are one value, the data type Index, and
-- memory that was never written is none in it. Positioned.SetPos has the loops and
-- Positioned.SetPos.Call the whole of MADB_StmtSetPos for SQL_POSITION, SQL_REFRESH, SQL_UPDATE
-- and SQL_DELETE, with MADB_DaeStmt of driver/ma_helper.cpp for an update; reading memory that
-- was never written ends it with none.
-- Connection: MADB_Dbc::SetAttr and MADB_Dbc::GetAttr of driver/ma_connection.cpp.
-- Connection.Functions has MADB_Dbc::GetFunctions, Connection.Tokens MADB_Tokenize and
-- MADB_SetAttributes, Connection.Transaction MADB_Dbc::EndTran and MA_SQLEndTran of
-- driver/ma_api_internal.cpp, and Connection.Environment MADB_EnvSetAttr, MADB_EnvGetAttr and the
-- list of connections of driver/ma_environment.cpp. Connection.Connecting has the options that
-- MADB_Dbc::CoreConnect hands to the server library and the commands that MADB_Dbc::ConnectDB
-- sets up, with MADB_AddInitCommand.
-- Tests: runs of the definitions, and the theorems at concrete inputs.
--
-- Bounds. The loop of ParseQuery has two rounds at most for a byte that starts a token and moves
-- the pointer in every other round, so 2 n + 2 rounds are enough for n bytes. The loop over
-- comments, the loop over braces and the loop over a connection string's pairs shorten the text
-- in every round but the last, so its length is enough. In the two outer loops, over a
-- statement's bytes and over a connection string's pairs, running out is a result of its own
-- (none), and the theorems say that it is never met; the calls of MADB_StmtParamData are one more
-- than the parameters at most, which the theorem has as its bound; the theorems on comments and
-- on braces hold for the bounds that their loops have. The loop of MADB_Tokenize takes one
-- separator off the text in every round, so its length and one more rounds are enough. The loop
-- of MADB_StmtFetch is given as many rounds as there are rows to fetch; they are enough below 2 ^
-- 32 rows, which the theorems ask for, and with more rows its counter, an unsigned int, starts
-- again at 0 and the reply is unended. A conversion that narrows a number or a counter that can
-- go round is written out: an unsigned int and an SQLINTEGER by % 2 ^ 32, a short by % 2 ^ 16, a
-- size_t and an SQLULEN by % 2 ^ 64. The native error number, the counts of rows that were read
-- or processed, the positions in a result set and the record numbers of a descriptor are not cut:
-- they are numbers that the server library or the application gives within their types.
--
-- Parameters. SQLString is not part of the sources: its rtrim, ltrim and trim are the record
-- StringOps, and arguments in Connection.Tokens. The current day, the success of an allocation
-- and sizeof(MYSQL_TIME) are fields of the record Env. The class ResultSet belongs to the library
-- that is a submodule: its operations are the record Cursor.ResultSet, and what the theorems rely
-- on is the record Cursor.Rowset.Lawful. What a connection's object of that library does is the
-- record Connection.Protocol with the laws Connection.Readback.ReadsBack; what the server,
-- mysql_real_escape_string and MADB_StmtGetData give for a positioned statement are the fields of
-- Positioned.SetPos.SetPosEnv. The numbers of MADB_supported_api come from the headers of ODBC
-- and are an argument.
--
-- Not modelled: the ODBC entry points, the establishing of a connection beyond its options,
-- SQL_ATTR_CURRENT_CATALOG, the execution of statements, SQL_ADD of MADB_StmtSetPos but for its
-- text and its parameters, data at execution in a positioned update, bookmarks and dynamic
-- cursors, the binding of a fetched row, the fields of a descriptor that an application cannot
-- set, a descriptor that no statement has used yet when its fields are set, the copying of
-- descriptors, character sets, bulk execution, the catalog functions, diagnostics in wide
-- characters, data sources kept in odbc.ini, and the reader of dates from text. Memory is not
-- modelled beyond the buffers named above.
pub mod Base
pub mod Text
pub mod Query
pub mod Dsn
pub mod Types
pub mod Convert
pub mod Bind
pub mod Sql
pub mod Attribute
pub mod Descriptor
pub mod Cursor
pub mod Error
pub mod Positioned
pub mod Connection
pub mod Tests
