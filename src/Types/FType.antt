-- ===== src/Types/FType.antt =====
-- enum class FType of types.h. A value of the enumeration is any byte, since FHdr::packUnpack reads
-- one from the wire; the enumerators are numbers.
use libixp.Base.{ℕ}

abbrev pub t_version : ℕ
t_version = 100

abbrev pub r_version : ℕ
r_version = 101

abbrev pub t_auth : ℕ
t_auth = 102

abbrev pub r_auth : ℕ
r_auth = 103

abbrev pub t_attach : ℕ
t_attach = 104

abbrev pub r_attach : ℕ
r_attach = 105

abbrev pub t_error : ℕ
t_error = 106

abbrev pub r_error : ℕ
r_error = 107

abbrev pub t_flush : ℕ
t_flush = 108

abbrev pub r_flush : ℕ
r_flush = 109

abbrev pub t_walk : ℕ
t_walk = 110

abbrev pub r_walk : ℕ
r_walk = 111

abbrev pub t_open : ℕ
t_open = 112

abbrev pub r_open : ℕ
r_open = 113

abbrev pub t_create : ℕ
t_create = 114

abbrev pub r_create : ℕ
r_create = 115

abbrev pub t_read : ℕ
t_read = 116

abbrev pub r_read : ℕ
r_read = 117

abbrev pub t_write : ℕ
t_write = 118

abbrev pub r_write : ℕ
r_write = 119

abbrev pub t_clunk : ℕ
t_clunk = 120

abbrev pub r_clunk : ℕ
r_clunk = 121

abbrev pub t_remove : ℕ
t_remove = 122

abbrev pub r_remove : ℕ
r_remove = 123

abbrev pub t_stat : ℕ
t_stat = 124

abbrev pub r_stat : ℕ
r_stat = 125

abbrev pub t_wstat : ℕ
t_wstat = 126

abbrev pub r_wstat : ℕ
r_wstat = 127
