-- ===== src/Error/Code.antt =====
-- The codes enum_madb_error of driver/ma_error.h, in their order. A code's value is its place.
use mariadb_connector_odbc.Base.{ℕ}

pub data Code : Type 0 where
  err_00000 err_01000 err_01001 err_01002 err_01003 err_01004 err_01006 : Code
  err_01007 err_01s00 err_01s01 err_01s02 err_01s06 err_01s07 err_01s08 : Code
  err_01s09 err_07001 err_07002 err_07005 err_07006 err_07009 err_07s01 : Code
  err_08001 err_08002 err_08003 err_08004 err_08007 err_08s01 err_21s01 : Code
  err_21s02 err_22001 err_22002 err_22003 err_22007 err_22008 err_22012 : Code
  err_22015 err_22018 err_22019 err_22025 err_22026 err_23000 err_24000 : Code
  err_25000 err_25s01 err_25s02 err_25s03 err_28000 err_34000 err_3c000 : Code
  err_3d000 err_3f000 err_40001 err_40002 err_40003 err_42000 err_42s01 : Code
  err_42s02 err_42s11 err_42s12 err_42s21 err_42s22 err_44000 err_hy000 : Code
  err_hy001 err_hy003 err_hy004 err_hy007 err_hy008 err_hy009 err_hy010 : Code
  err_hy011 err_hy012 err_hy013 err_hy014 err_hy015 err_hy016 err_hy017 : Code
  err_hy018 err_hy019 err_hy020 err_hy021 err_hy024 err_hy090 err_hy091 : Code
  err_hy092 err_hy095 err_hy096 err_hy097 err_hy098 err_hy099 err_hy100 : Code
  err_hy101 err_hy103 err_hy104 err_hy105 err_hy106 err_hy107 err_hy109 : Code
  err_hy110 err_hy111 err_hyc00 err_hyt00 err_hyt01 err_im001 err_im002 : Code
  err_im003 err_im004 err_im005 err_im006 err_im007 err_im008 err_im009 : Code
  err_im010 err_im011 err_im012 err_im013 err_im014 err_im015 err_s1000 : Code
  err_s1107 err_s1c00 : Code

-- The enumerator's value, its place in MADB_ErrorList.
unfoldable pub value : Code → ℕ
value err_00000 = 0
value err_01000 = 1
value err_01001 = 2
value err_01002 = 3
value err_01003 = 4
value err_01004 = 5
value err_01006 = 6
value err_01007 = 7
value err_01s00 = 8
value err_01s01 = 9
value err_01s02 = 10
value err_01s06 = 11
value err_01s07 = 12
value err_01s08 = 13
value err_01s09 = 14
value err_07001 = 15
value err_07002 = 16
value err_07005 = 17
value err_07006 = 18
value err_07009 = 19
value err_07s01 = 20
value err_08001 = 21
value err_08002 = 22
value err_08003 = 23
value err_08004 = 24
value err_08007 = 25
value err_08s01 = 26
value err_21s01 = 27
value err_21s02 = 28
value err_22001 = 29
value err_22002 = 30
value err_22003 = 31
value err_22007 = 32
value err_22008 = 33
value err_22012 = 34
value err_22015 = 35
value err_22018 = 36
value err_22019 = 37
value err_22025 = 38
value err_22026 = 39
value err_23000 = 40
value err_24000 = 41
value err_25000 = 42
value err_25s01 = 43
value err_25s02 = 44
value err_25s03 = 45
value err_28000 = 46
value err_34000 = 47
value err_3c000 = 48
value err_3d000 = 49
value err_3f000 = 50
value err_40001 = 51
value err_40002 = 52
value err_40003 = 53
value err_42000 = 54
value err_42s01 = 55
value err_42s02 = 56
value err_42s11 = 57
value err_42s12 = 58
value err_42s21 = 59
value err_42s22 = 60
value err_44000 = 61
value err_hy000 = 62
value err_hy001 = 63
value err_hy003 = 64
value err_hy004 = 65
value err_hy007 = 66
value err_hy008 = 67
value err_hy009 = 68
value err_hy010 = 69
value err_hy011 = 70
value err_hy012 = 71
value err_hy013 = 72
value err_hy014 = 73
value err_hy015 = 74
value err_hy016 = 75
value err_hy017 = 76
value err_hy018 = 77
value err_hy019 = 78
value err_hy020 = 79
value err_hy021 = 80
value err_hy024 = 81
value err_hy090 = 82
value err_hy091 = 83
value err_hy092 = 84
value err_hy095 = 85
value err_hy096 = 86
value err_hy097 = 87
value err_hy098 = 88
value err_hy099 = 89
value err_hy100 = 90
value err_hy101 = 91
value err_hy103 = 92
value err_hy104 = 93
value err_hy105 = 94
value err_hy106 = 95
value err_hy107 = 96
value err_hy109 = 97
value err_hy110 = 98
value err_hy111 = 99
value err_hyc00 = 100
value err_hyt00 = 101
value err_hyt01 = 102
value err_im001 = 103
value err_im002 = 104
value err_im003 = 105
value err_im004 = 106
value err_im005 = 107
value err_im006 = 108
value err_im007 = 109
value err_im008 = 110
value err_im009 = 111
value err_im010 = 112
value err_im011 = 113
value err_im012 = 114
value err_im013 = 115
value err_im014 = 116
value err_im015 = 117
value err_s1000 = 118
value err_s1107 = 119
value err_s1c00 = 120
