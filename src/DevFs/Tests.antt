-- ===== src/DevFs/Tests.antt =====
-- kernel/devfs.c: the device files after they are registered.
use alze_os.Base.{◌≡◌, refl, [], ◌∷◌, some}
use alze_os.Strings.{c_string, same_string}
use alze_os.Vfs.{vfs_init, vfs_lookup, lookup_from, vfs_register_device}
use alze_os.DevFs.{Devices, devfs_init}

abbrev devices : Devices
devices = record {
  uart_in = 65 ∷ 66 ∷ 0 ∷ 67 ∷ [];
  uart_out = [];
  console_out = [];
  kb_in = 10 ∷ [];
}

-- "null"
lookup_test : vfs_lookup (110 ∷ 117 ∷ 108 ∷ 108 ∷ 0 ∷ []) (devfs_init vfs_init) ≡ some 3
unfolding vfs_lookup lookup_from devfs_init vfs_init vfs_register_device same_string c_string
lookup_test = refl
