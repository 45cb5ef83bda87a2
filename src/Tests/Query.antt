-- ===== src/Tests/Query.antt =====
-- The theorems on driver/ma_parse.cpp at concrete statements.
use mariadb_connector_odbc.Base.{
  ◌-◌, ◌≡◌, refl, ◌↔◌, true, false, some, [], ◌∷◌, codes, length, arith,
}
use mariadb_connector_odbc.Query.Cursor.Found.{Search, parse_cursor_name-Search}
use mariadb_connector_odbc.Query.Cursor.{
  new_query, parse_cursor_name, find_cursor_name, cursor_name_from, compare_token, stored_offset,
}
use mariadb_connector_odbc.Query.Parse.Offsets.{IsTokenized, parse_query-IsTokenized}
use mariadb_connector_odbc.Query.Parse.Single.{parse_query-single}
use mariadb_connector_odbc.Query.Parse.{
  parse_query, parse_rounds, round_in, open_token, first_byte, breaks_token, should_try_poor_man,
}
use mariadb_connector_odbc.Query.Prepare.{StringOps, prepare, fix_iso_format, sql_rtrim}
use mariadb_connector_odbc.Query.Quotes.{Closes, skip_quoted_string_lem}
use mariadb_connector_odbc.Query.{
  Query, reset_parser, skip_spaces_and_comments, skip_quoted_string, get_query_type, insert, update,
  doesnt_return_result, classify, skip_to_alpha,
}
use mariadb_connector_odbc.Text.{ltrim, trim, strstr2, has_prefix_ci}

abbrev positioned_update : Query
positioned_update = new_query (codes "UPDATE t SET a='x;' /* WHERE */ WHERE CURRENT OF c1")

abbrev tokenized_update : Query
tokenized_update = record positioned_update {
  tokens = 0 ∷ 7 ∷ 9 ∷ 13 ∷ 15 ∷ 32 ∷ 38 ∷ 46 ∷ 49 ∷ [];
  query_type = update;
}

parse_query-update : parse_query positioned_update ≡ some tokenized_update
unfolding parse_query parse_rounds round_in open_token first_byte skip_spaces_and_comments ltrim
    breaks_token should_try_poor_man skip_quoted_string strstr2 get_query_type doesnt_return_result
    classify has_prefix_ci skip_to_alpha
parse_query-update = refl

parse_query-IsTokenized_example :
    (q' : Query) × (parse_query positioned_update ≡ some q')
    × IsTokenized positioned_update.refined_text q'
parse_query-IsTokenized_example = parse_query-IsTokenized positioned_update refl

parse_query-single_example :
    (q' : Query) × (parse_query (
        reset_parser
          (record positioned_update { query_type = insert })
          (some (codes "SELECT(1)"))
          true
          false
          false)
      ≡ some q')
    × (q'.tokens ≡ 0 ∷ [])
    × (q'.query_type ≡ insert)
    × (q'.returns_result ≡ false)
unfolding breaks_token
parse_query-single_example =
    parse_query-single (record positioned_update { query_type = insert }) b'S' (codes "ELECT(1)")
      true false false (refl, (refl, (refl, (refl, (refl, (refl, (refl, (refl, (refl, tt)))))))))
      refl

parse_cursor_name-Search_example :
    Search tokenized_update 0
      (length tokenized_update.tokens - 3)
      (parse_cursor_name tokenized_update 7).0
      (parse_cursor_name tokenized_update 7).1
parse_cursor_name-Search_example = parse_cursor_name-Search tokenized_update 7

cursor_name : find_cursor_name tokenized_update 7 ≡ (some 49, 32)
unfolding find_cursor_name parse_cursor_name cursor_name_from compare_token stored_offset
    has_prefix_ci
cursor_name = refl

skip_quoted_string_example :
    (skip_quoted_string b'"' (codes "a\\\"b\" c") ≡ b'"' ∷ codes " c")
    ↔ Closes b'"' (codes "a\\\"b\" c") (codes " c")
skip_quoted_string_example =
    skip_quoted_string_lem b'"' (codes "a\\\"b\" c") (codes " c") (λ h. omega arith)

abbrev string_ops : StringOps
string_ops = record { sql_rtrim = sql_rtrim; ltrim = ltrim; trim = trim }

abbrev iso_call : Query
iso_call = new_query (codes "{ CALL p(?) };")

iso_stripped :
    prepare string_ops iso_call
    ≡ parse_query
        (record iso_call { refined_text = codes "CALL p(?)"; original = codes "CALL p(?)" })
unfolding prepare fix_iso_format sql_rtrim ltrim trim skip_spaces_and_comments
iso_stripped = refl
