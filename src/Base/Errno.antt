-- ===== src/Base/Errno.antt =====
-- The errno values of Linux that the program names, and src/common/error_code.h.
use Prim.Native.Nat.{ℕ}

abbrev pub enoent : ℕ
enoent = 2

abbrev pub eexist : ℕ
eexist = 17

abbrev pub enotdir : ℕ
enotdir = 20

abbrev pub einval : ℕ
einval = 22

abbrev pub ecanceled : ℕ
ecanceled = 125

abbrev pub err_no_partition : ℕ
err_no_partition = 1026

abbrev pub err_no_file : ℕ
err_no_file = 1027
