-- ===== src/Vfs/Tests.antt =====
-- kernel/vfs.c: one device that counts the bytes written to it.
use alze_os.Base.{ℕ, ◌+◌, not, ◌==◌, [], ◌∷◌, none, some, pos, length}
use alze_os.IdPool.Alloc as Pool
use alze_os.Vfs.{FileOps, vn_chardev, Vfs}

abbrev counting : FileOps ℕ
counting = record {
  open_op = none;
  close_op = none;
  read_op = none;
  write_op = some (λ buf n. (pos (length buf), n + length buf));
  ioctl_op = none;
}

-- Descriptor 0 is free, and the others are open on the device.
abbrev table : Vfs ℕ
table = record {
  devices = λ i. record {
    name = 110 ∷ [];
    type = vn_chardev;
    ops = some counting;
    private_data = 0;
    refcount = 15;
  };
  device_count = 1;
  fd_table = λ fd. record { vnode = some 0; flags = 2; offset = 0; in_use = not (fd == 0) };
  fd_pool = record { bitmap = 1 };
}
