-- ===== src/Strings/Tests.antt =====
-- kernel/string.c: memory in which each byte is its own address.
use alze_os.Base.{◌%◌, ◌≡◌, ◌==◌, if◌then◌else◌, refl, cells, [], ◌∷◌, ◌||◌, some}
use alze_os.Words.{filled}
use alze_os.Strings.Fill.{memset-filled}
use alze_os.Strings.{Memory, memset, memmove, strncpy, copy_string, rep_down, move_block}
use alze_os.Strings.Scan.{strlen, strlen_loop}
use alze_os.Strings.Search.{strchr}
use alze_os.Strings.Moves.{moved, memmove-moved}

abbrev addresses : Memory
addresses a = a

memmove-moved_example : memmove 13 10 20 addresses 21 ≡ moved 13 10 20 addresses 21
memmove-moved_example = memmove-moved 13 10 20 addresses 21

-- An overlapping move of 20 bytes up by 3.
overlap_test : cells (memmove 13 10 20 addresses) 12 4 ≡ 12 ∷ 10 ∷ 11 ∷ 12 ∷ []
unfolding memmove rep_down move_block
overlap_test = refl

-- The string of the bytes 1 and 2, copied and padded.
pad_test : cells (strncpy 20 1 4 (λ a. if a == 3 then 0 else a)) 20 5 ≡ 1 ∷ 2 ∷ 0 ∷ 0 ∷ 24 ∷ []
unfolding strncpy copy_string
pad_test = refl

memset-filled_example : memset 5 0x1FF 20 addresses 7 ≡ filled 5 20 (0x1FF % 256) addresses 7
memset-filled_example = memset-filled 5 0x1FF 20 addresses 7

-- Two strings, of the bytes 1 and 2 and of the bytes 11 to 13.
abbrev two_strings : Memory
two_strings a = if a == 3 || a == 14 then 0 else a

length_test : strlen 10 11 two_strings ≡ some 3
unfolding strlen strlen_loop
length_test = refl

search_test : strchr 10 11 12 two_strings ≡ some (some 12)
unfolding strchr
search_test = refl
