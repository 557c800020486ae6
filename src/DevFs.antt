-- ===== src/DevFs.antt =====
-- kernel/devfs.c: the devices that the file system starts with, as operations on the state of the
-- devices behind them: the bytes that wait at the serial port and at the keyboard, and those sent
-- to the serial port and the console. `uart_getc` and `kb_getchar` return 0 when nothing waits.
pub mod Bytes
mod Tests
use alze_os.Base.{
  ℕ, zero, suc, ◌≡◌, ◌==◌, if◌then◌else◌, Bool, true, false, List, [], ◌∷◌, ◌++◌, Option, none,
  some, ℤ, pos, length, replicate,
}
use alze_os.Vfs.{FileOps, Vfs, VnodeType, vn_chardev, vfs_register_device}

pub record Devices : Type 0 where
  pub uart_in : List ℕ
  pub uart_out : List ℕ
  pub console_out : List ℕ
  pub kb_in : List ℕ

-- The bytes of the loop that reads until a 0, and what still waits after it.
unfoldable pub read_loop : ℕ → List ℕ → List ℕ × List ℕ
read_loop zero input = ([], input)
read_loop (suc n) [] = ([], [])
read_loop (suc n) (c ∷ input) =
    let rest = read_loop n input in if c == 0 then ([], input) else (c ∷ rest.0, rest.1)

unfoldable pub serial_write : List ℕ → Devices → ℤ × Devices
serial_write buf dev = (pos (length buf), record dev { uart_out = dev.uart_out ++ buf })

unfoldable pub serial_read : ℕ → Devices → ℤ × List ℕ × Devices
serial_read count dev =
    let r = read_loop count dev.uart_in in (pos (length r.0), r.0, record dev { uart_in = r.1 })

unfoldable pub console_write_vfs : List ℕ → Devices → ℤ × Devices
console_write_vfs buf dev = (pos (length buf), record dev { console_out = dev.console_out ++ buf })

unfoldable pub keyboard_read : ℕ → Devices → ℤ × List ℕ × Devices
keyboard_read count dev =
    let r = read_loop count dev.kb_in in (pos (length r.0), r.0, record dev { kb_in = r.1 })

unfoldable pub null_write : List ℕ → Devices → ℤ × Devices
null_write buf dev = (pos (length buf), dev)

unfoldable pub null_read : ℕ → Devices → ℤ × List ℕ × Devices
null_read count dev = (pos 0, [], dev)

unfoldable pub zero_read : ℕ → Devices → ℤ × List ℕ × Devices
zero_read count dev = (pos count, replicate count 0, dev)

abbrev pub ops :
    Option (ℕ → Devices → ℤ × List ℕ × Devices)
    → Option (List ℕ → Devices → ℤ × Devices)
    → FileOps Devices
ops r w = record { open_op = none; close_op = none; read_op = r; write_op = w; ioctl_op = none }

unfoldable pub serial_ops : FileOps Devices
serial_ops = ops (some serial_read) (some serial_write)

unfoldable pub console_ops : FileOps Devices
console_ops = ops none (some console_write_vfs)

unfoldable pub keyboard_ops : FileOps Devices
keyboard_ops = ops (some keyboard_read) none

unfoldable pub null_ops : FileOps Devices
null_ops = ops (some null_read) (some null_write)

unfoldable pub zero_ops : FileOps Devices
zero_ops = ops (some zero_read) (some null_write)

abbrev pub register : List ℕ → FileOps Devices → Vfs Devices → Vfs Devices
register name o st = (vfs_register_device name vn_chardev (some o) 0 st).1

-- "serial", "console", "keyboard", "null" and "zero".
unfoldable pub devfs_init : Vfs Devices → Vfs Devices
devfs_init st = register (122 ∷ 101 ∷ 114 ∷ 111 ∷ 0 ∷ []) zero_ops (
    register (110 ∷ 117 ∷ 108 ∷ 108 ∷ 0 ∷ []) null_ops (
      register (107 ∷ 101 ∷ 121 ∷ 98 ∷ 111 ∷ 97 ∷ 114 ∷ 100 ∷ 0 ∷ []) keyboard_ops (
        register (99 ∷ 111 ∷ 110 ∷ 115 ∷ 111 ∷ 108 ∷ 101 ∷ 0 ∷ []) console_ops
          (register (115 ∷ 101 ∷ 114 ∷ 105 ∷ 97 ∷ 108 ∷ 0 ∷ []) serial_ops st))))
