-- ===== src/Query/Prepare.antt =====
-- What MADB_ParseQuery of driver/ma_parse.cpp does to a query's text before it is tokenized, and
-- SqlRtrim of driver/ma_helper.cpp.
use mariadb_connector_odbc.Base.{
  ℕ, Bool, ◌&&◌, ◌||◌, Option, [], ◌∷◌, ltb, ◌==◌, if◌then◌else◌, Bytes, length,
}
use mariadb_connector_odbc.Query.Parse.{parse_query}
use mariadb_connector_odbc.Query.{Query, skip_spaces_and_comments}
use mariadb_connector_odbc.Text.{head_or_nul, tail, is_space}

abbrev pub ends_statement : ℕ → Bool
ends_statement c = is_space c || c == b';'

abbrev pub cons_unless_ending : ℕ → Bytes → Bytes
cons_unless_ending c [] = if ends_statement c then [] else c ∷ []
cons_unless_ending c (d ∷ ds) = c ∷ d ∷ ds

unfoldable pub drop_ending : Bytes → Bytes
drop_ending [] = []
drop_ending (c ∷ cs) = cons_unless_ending c (drop_ending cs)

-- SqlRtrim: blanks and semicolons are cut off the end, but never the first byte.
unfoldable pub sql_rtrim : Bytes → Bytes
unfolding drop_ending
sql_rtrim [] = []
sql_rtrim (c ∷ cs) = c ∷ drop_ending cs

-- Of the functions on SQLString, which the connector takes from the C++ connector's sources.
pub record StringOps : Type 0 where
  pub sql_rtrim : Bytes → Bytes
  pub ltrim : Bytes → Bytes
  pub trim : Bytes → Bytes

abbrev pub without_last : Bytes → Bytes
without_last [] = []
without_last (c ∷ []) = []
without_last (c ∷ d ∷ ds) = c ∷ without_last (d ∷ ds)

abbrev pub last_or_nul : Bytes → ℕ
last_or_nul [] = 0
last_or_nul (c ∷ []) = c
last_or_nul (c ∷ d ∷ ds) = last_or_nul (d ∷ ds)

-- FixIsoFormat
unfoldable pub fix_iso_format : StringOps → Bytes → Bytes
fix_iso_format ops s =
    if ltb 1 (length s) && (head_or_nul s == b'{' && last_or_nul s == b'}')
    then ops.trim (without_last (tail s))
    else s

-- MADB_ParseQuery; `none` stands for a loop that does not end.
unfoldable pub prepare : StringOps → Query → Option Query
unfolding fix_iso_format
prepare ops q =
    let text = fix_iso_format ops (ops.ltrim (ops.sql_rtrim q.refined_text)) in
    parse_query (record q { refined_text = skip_spaces_and_comments text; original = text })
