-- ===== src/Errno.antt =====
-- kernel/errno.h: the error numbers.
use alze_os.Base.{ℕ}

abbrev pub enomem : ℕ
enomem = 1

abbrev pub einval : ℕ
einval = 2

abbrev pub enoent : ℕ
enoent = 3

abbrev pub eagain : ℕ
eagain = 5

abbrev pub enospc : ℕ
enospc = 6

abbrev pub enotsup : ℕ
enotsup = 7

abbrev pub ebadf : ℕ
ebadf = 8

abbrev pub emfile : ℕ
emfile = 9

abbrev pub eio : ℕ
eio = 16
