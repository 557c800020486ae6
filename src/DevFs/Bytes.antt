-- ===== src/DevFs/Bytes.antt =====
-- What reads and writes through the device files do to the bytes.
use alze_os.Base.{ℕ, zero, suc, ◌≡◌, refl, ap, List, [], ◌∷◌, pos, length, take, arith}
use alze_os.Strings.{c_string}
use alze_os.DevFs.{Devices, read_loop, serial_read, keyboard_read}

read_loop-take : (n : ℕ) (input : List ℕ) → (read_loop n input).0 ≡ take n (c_string input)
unfolding read_loop c_string
read_loop-take zero input = refl
read_loop-take (suc n) [] = refl
read_loop-take (suc n) (c ∷ input) = ground (arith, read_loop-take n input)

-- A read from the serial port or the keyboard returns the bytes that wait before the first 0, as
-- many as were asked for at most, and their number.
pub serial_read-take :
    (count : ℕ) (dev : Devices)
    → ((serial_read count dev).1 ≡ take count (c_string dev.uart_in))
      × ((serial_read count dev).0 ≡ pos (length (take count (c_string dev.uart_in))))
      × ((keyboard_read count dev).1 ≡ take count (c_string dev.kb_in))
      × ((keyboard_read count dev).0 ≡ pos (length (take count (c_string dev.kb_in))))
unfolding serial_read keyboard_read
serial_read-take count dev = (
  read_loop-take count dev.uart_in,
  ap (λ l. pos (length l)) (read_loop-take count dev.uart_in),
  read_loop-take count dev.kb_in,
  ap (λ l. pos (length l)) (read_loop-take count dev.kb_in),
)
