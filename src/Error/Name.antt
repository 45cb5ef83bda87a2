-- ===== src/Error/Name.antt =====
-- The SQLSTATE that each enumerator of enum_madb_error is named after, MADB_ERR_<state>.
use mariadb_connector_odbc.Base.{Bytes, codes}
use mariadb_connector_odbc.Error.Code.{
  Code, err_00000, err_01000, err_01001, err_01002, err_01003, err_01004, err_01006, err_01007,
  err_01s00, err_01s01, err_01s02, err_01s06, err_01s07, err_01s08, err_01s09, err_07001, err_07002,
  err_07005, err_07006, err_07009, err_07s01, err_08001, err_08002, err_08003, err_08004, err_08007,
  err_08s01, err_21s01, err_21s02, err_22001, err_22002, err_22003, err_22007, err_22008, err_22012,
  err_22015, err_22018, err_22019, err_22025, err_22026, err_23000, err_24000, err_25000, err_25s01,
  err_25s02, err_25s03, err_28000, err_34000, err_3c000, err_3d000, err_3f000, err_40001, err_40002,
  err_40003, err_42000, err_42s01, err_42s02, err_42s11, err_42s12, err_42s21, err_42s22, err_44000,
  err_hy000, err_hy001, err_hy003, err_hy004, err_hy007, err_hy008, err_hy009, err_hy010, err_hy011,
  err_hy012, err_hy013, err_hy014, err_hy015, err_hy016, err_hy017, err_hy018, err_hy019, err_hy020,
  err_hy021, err_hy024, err_hy090, err_hy091, err_hy092, err_hy095, err_hy096, err_hy097, err_hy098,
  err_hy099, err_hy100, err_hy101, err_hy103, err_hy104, err_hy105, err_hy106, err_hy107, err_hy109,
  err_hy110, err_hy111, err_hyc00, err_hyt00, err_hyt01, err_im001, err_im002, err_im003, err_im004,
  err_im005, err_im006, err_im007, err_im008, err_im009, err_im010, err_im011, err_im012, err_im013,
  err_im014, err_im015, err_s1000, err_s1107, err_s1c00,
}

unfoldable pub state_name : Code → Bytes
state_name err_00000 = codes "00000"
state_name err_01000 = codes "01000"
state_name err_01001 = codes "01001"
state_name err_01002 = codes "01002"
state_name err_01003 = codes "01003"
state_name err_01004 = codes "01004"
state_name err_01006 = codes "01006"
state_name err_01007 = codes "01007"
state_name err_01s00 = codes "01S00"
state_name err_01s01 = codes "01S01"
state_name err_01s02 = codes "01S02"
state_name err_01s06 = codes "01S06"
state_name err_01s07 = codes "01S07"
state_name err_01s08 = codes "01S08"
state_name err_01s09 = codes "01S09"
state_name err_07001 = codes "07001"
state_name err_07002 = codes "07002"
state_name err_07005 = codes "07005"
state_name err_07006 = codes "07006"
state_name err_07009 = codes "07009"
state_name err_07s01 = codes "07S01"
state_name err_08001 = codes "08001"
state_name err_08002 = codes "08002"
state_name err_08003 = codes "08003"
state_name err_08004 = codes "08004"
state_name err_08007 = codes "08007"
state_name err_08s01 = codes "08S01"
state_name err_21s01 = codes "21S01"
state_name err_21s02 = codes "21S02"
state_name err_22001 = codes "22001"
state_name err_22002 = codes "22002"
state_name err_22003 = codes "22003"
state_name err_22007 = codes "22007"
state_name err_22008 = codes "22008"
state_name err_22012 = codes "22012"
state_name err_22015 = codes "22015"
state_name err_22018 = codes "22018"
state_name err_22019 = codes "22019"
state_name err_22025 = codes "22025"
state_name err_22026 = codes "22026"
state_name err_23000 = codes "23000"
state_name err_24000 = codes "24000"
state_name err_25000 = codes "25000"
state_name err_25s01 = codes "25S01"
state_name err_25s02 = codes "25S02"
state_name err_25s03 = codes "25S03"
state_name err_28000 = codes "28000"
state_name err_34000 = codes "34000"
state_name err_3c000 = codes "3C000"
state_name err_3d000 = codes "3D000"
state_name err_3f000 = codes "3F000"
state_name err_40001 = codes "40001"
state_name err_40002 = codes "40002"
state_name err_40003 = codes "40003"
state_name err_42000 = codes "42000"
state_name err_42s01 = codes "42S01"
state_name err_42s02 = codes "42S02"
state_name err_42s11 = codes "42S11"
state_name err_42s12 = codes "42S12"
state_name err_42s21 = codes "42S21"
state_name err_42s22 = codes "42S22"
state_name err_44000 = codes "44000"
state_name err_hy000 = codes "HY000"
state_name err_hy001 = codes "HY001"
state_name err_hy003 = codes "HY003"
state_name err_hy004 = codes "HY004"
state_name err_hy007 = codes "HY007"
state_name err_hy008 = codes "HY008"
state_name err_hy009 = codes "HY009"
state_name err_hy010 = codes "HY010"
state_name err_hy011 = codes "HY011"
state_name err_hy012 = codes "HY012"
state_name err_hy013 = codes "HY013"
state_name err_hy014 = codes "HY014"
state_name err_hy015 = codes "HY015"
state_name err_hy016 = codes "HY016"
state_name err_hy017 = codes "HY017"
state_name err_hy018 = codes "HY018"
state_name err_hy019 = codes "HY019"
state_name err_hy020 = codes "HY020"
state_name err_hy021 = codes "HY021"
state_name err_hy024 = codes "HY024"
state_name err_hy090 = codes "HY090"
state_name err_hy091 = codes "HY091"
state_name err_hy092 = codes "HY092"
state_name err_hy095 = codes "HY095"
state_name err_hy096 = codes "HY096"
state_name err_hy097 = codes "HY097"
state_name err_hy098 = codes "HY098"
state_name err_hy099 = codes "HY099"
state_name err_hy100 = codes "HY100"
state_name err_hy101 = codes "HY101"
state_name err_hy103 = codes "HY103"
state_name err_hy104 = codes "HY104"
state_name err_hy105 = codes "HY105"
state_name err_hy106 = codes "HY106"
state_name err_hy107 = codes "HY107"
state_name err_hy109 = codes "HY109"
state_name err_hy110 = codes "HY110"
state_name err_hy111 = codes "HY111"
state_name err_hyc00 = codes "HYC00"
state_name err_hyt00 = codes "HYT00"
state_name err_hyt01 = codes "HYT01"
state_name err_im001 = codes "IM001"
state_name err_im002 = codes "IM002"
state_name err_im003 = codes "IM003"
state_name err_im004 = codes "IM004"
state_name err_im005 = codes "IM005"
state_name err_im006 = codes "IM006"
state_name err_im007 = codes "IM007"
state_name err_im008 = codes "IM008"
state_name err_im009 = codes "IM009"
state_name err_im010 = codes "IM010"
state_name err_im011 = codes "IM011"
state_name err_im012 = codes "IM012"
state_name err_im013 = codes "IM013"
state_name err_im014 = codes "IM014"
state_name err_im015 = codes "IM015"
state_name err_s1000 = codes "S1000"
state_name err_s1107 = codes "S1107"
state_name err_s1c00 = codes "S1C00"
