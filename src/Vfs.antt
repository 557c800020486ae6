-- ===== src/Vfs.antt =====
-- kernel/vfs.c, kernel/vfs.h: the table of devices, and the file descriptors on top of the id pool.
-- A pointer to a vnode is its place in the table. Each function runs under `vfs_rwlock`, and calls
-- the device after it, so the device's state, a parameter here, changes last.
pub mod Descriptors
mod Tests
use alze_os.Base.{
  ℕ, zero, suc, ◌+◌, ◌-◌, ◌%◌, ◌^◌, Bool, true, false, not, ◌&&◌, ◌||◌, ltb, leb, ◌==◌,
  if◌then◌else◌, List, [], ◌∷◌, Option, none, some, ℤ, pos, negsuc, neg, update, take,
}
use alze_os.Errno.{enoent, enospc, enotsup, ebadf, emfile, eio}
use alze_os.IdPool.{IdPool, id_pool_init, id_alloc, id_free}
use alze_os.Strings.{c_string, same_string}

pub data VnodeType : Type 0 where
  vn_none vn_chardev vn_blockdev vn_pipe vn_file vn_dir : VnodeType

-- The operations of a device with the state `D`: what each returns, the bytes that `read` puts at
-- the start of the buffer, and the state after it.
pub record FileOps (D : Type 0) : Type 0 where
  pub open_op : Option (ℕ → D → ℤ × D)
  pub close_op : Option (D → ℤ × D)
  pub read_op : Option (ℕ → D → ℤ × List ℕ × D)
  pub write_op : Option (List ℕ → D → ℤ × D)
  pub ioctl_op : Option (ℕ → D → ℤ × D)

-- The name up to its terminator; `ops` is none for NULL.
pub record Vnode (D : Type 0) : Type 0 where
  pub name : List ℕ
  pub type : VnodeType
  pub ops : Option (FileOps D)
  pub private_data : ℕ
  pub refcount : ℕ

pub record File : Type 0 where
  pub vnode : Option ℕ
  pub flags : ℕ
  pub offset : ℕ
  pub in_use : Bool

abbrev pub vfs_max_fds : ℕ
vfs_max_fds = 16

abbrev pub vfs_max_devices : ℕ
vfs_max_devices = 16

abbrev pub vn_name_max : ℕ
vn_name_max = 32

pub record Vfs (D : Type 0) : Type 0 where
  pub devices : ℕ → Vnode D
  pub device_count : ℕ
  pub fd_table : ℕ → File
  pub fd_pool : IdPool

abbrev pub is_negative : ℤ → Bool
is_negative (pos n) = false
is_negative (negsuc n) = true

module _ {D : Type 0} where
  unfoldable pub vfs_init : Vfs D
  vfs_init = record {
    devices = λ i. record { name = []; type = vn_none; ops = none; private_data = 0; refcount = 0 };
    device_count = 0;
    fd_table = λ fd. record { vnode = none; flags = 0; offset = 0; in_use = false };
    fd_pool = id_pool_init;
  }

  unfoldable pub vfs_register_device :
      List ℕ → VnodeType → Option (FileOps D) → ℕ → Vfs D → ℤ × Vfs D
  vfs_register_device name type ops private_data st =
      if leb vfs_max_devices st.device_count then (neg enospc, st) else (
        pos 0,
        record st {
          devices = update st.devices st.device_count (record {
            name = take (vn_name_max - 1) (c_string name);
            type = type;
            ops = ops;
            private_data = private_data;
            refcount = 0;
          });
          device_count = suc st.device_count;
        },
      )

  -- The loop of `vfs_lookup` from device `i` on, with `n` left.
  unfoldable pub lookup_from : (ℕ → Vnode D) → List ℕ → ℕ → ℕ → Option ℕ
  lookup_from devices name i zero = none
  lookup_from devices name i (suc n) =
      let rest = lookup_from devices name (suc i) n in
      if same_string (devices i).name (c_string name) then some i else rest

  unfoldable pub vfs_lookup : List ℕ → Vfs D → Option ℕ
  vfs_lookup name st = lookup_from st.devices name 0 st.device_count

  unfoldable pub add_ref : ℕ → Vfs D → Vfs D
  add_ref vn st = record st {
    devices =
        update st.devices vn
          (record (st.devices vn) { refcount = ((st.devices vn).refcount + 1) % 2 ^ 32 });
  }

  unfoldable pub drop_ref : ℕ → Vfs D → Vfs D
  drop_ref vn st = record st {
    devices =
        update st.devices vn
          (record (st.devices vn) { refcount = ((st.devices vn).refcount + 2 ^ 32 - 1) % 2 ^ 32 });
  }

  -- The descriptor that the id pool gives, set up for the device.
  unfoldable pub open_fd : ℕ → ℕ → ℕ → IdPool → Vfs D → Vfs D
  open_fd fd vn flags pool st = add_ref vn (record st {
    fd_table =
        update st.fd_table fd
          (record { vnode = some vn; flags = flags; offset = 0; in_use = true });
    fd_pool = pool;
  })

  -- What `vfs_open` takes back when the device refuses.
  unfoldable pub undo_open : ℕ → ℕ → Vfs D → Vfs D
  undo_open fd vn st =
      let closed = drop_ref vn (record st {
        fd_table = update st.fd_table fd (record (st.fd_table fd) { in_use = false });
      }) in
      record closed { fd_pool = id_free closed.fd_pool (pos fd) }

  abbrev pub open_of : Option (FileOps D) → Option (ℕ → D → ℤ × D)
  open_of none = none
  open_of (some ops) = ops.open_op

  unfoldable pub call_open : ℕ → ℕ → ℕ → Vfs D → D → ℤ × Vfs D × D
  call_open fd vn flags st dev = elim (open_of (st.devices vn).ops) [
    | none ↦ (pos fd, st, dev)
    | some device_open ↦
        if is_negative (device_open flags dev).0
        then (neg eio, undo_open fd vn st, (device_open flags dev).1)
        else (pos fd, st, (device_open flags dev).1)
  ]

  -- With the id that `id_alloc` returns.
  unfoldable pub open_with : ℤ → IdPool → ℕ → ℕ → Vfs D → D → ℤ × Vfs D × D
  open_with (negsuc n) pool vn flags st dev = (neg emfile, record st { fd_pool = pool }, dev)
  open_with (pos fd) pool vn flags st dev =
      if leb vfs_max_fds fd
      then (neg emfile, record st { fd_pool = pool }, dev)
      else call_open fd vn flags (open_fd fd vn flags pool st) dev

  unfoldable pub vfs_open : List ℕ → ℕ → Vfs D → D → ℤ × Vfs D × D
  vfs_open path flags st dev = elim (vfs_lookup path st) [
    | none ↦ (neg enoent, st, dev)
    | some vn ↦ open_with (id_alloc st.fd_pool).0 (id_alloc st.fd_pool).1 vn flags st dev
  ]

  -- A descriptor in range that is in use, with the device behind it: one in use has a device.
  unfoldable pub open_vnode : ℤ → Vfs D → Option (ℕ × ℕ)
  open_vnode (negsuc n) st = none
  open_vnode (pos fd) st =
      if leb vfs_max_fds fd || not (st.fd_table fd).in_use
      then none
      else elim (st.fd_table fd).vnode [ none ↦ none | some vn ↦ some (fd, vn) ]

  abbrev pub close_of : Option (FileOps D) → Option (D → ℤ × D)
  close_of none = none
  close_of (some ops) = ops.close_op

  unfoldable pub call_close : Option (D → ℤ × D) → D → D
  call_close none dev = dev
  call_close (some device_close) dev = (device_close dev).1

  unfoldable pub close_fd : ℕ → ℕ → Vfs D → Vfs D
  close_fd fd vn st =
      let closed = drop_ref vn (record st {
        fd_table = update st.fd_table fd (record (st.fd_table fd) { in_use = false; vnode = none });
      }) in
      record closed { fd_pool = id_free closed.fd_pool (pos fd) }

  unfoldable pub vfs_close : ℤ → Vfs D → D → ℤ × Vfs D × D
  vfs_close fd st dev = elim (open_vnode fd st) [
    | none ↦ (neg ebadf, st, dev)
    | some (i, vn) ↦ (pos 0, close_fd i vn st, call_close (close_of (st.devices vn).ops) dev)
  ]

  abbrev pub read_of : Option (FileOps D) → Option (ℕ → D → ℤ × List ℕ × D)
  read_of none = none
  read_of (some ops) = ops.read_op

  unfoldable pub vfs_read : ℤ → ℕ → Vfs D → D → ℤ × List ℕ × D
  vfs_read fd count st dev = elim (open_vnode fd st) [
    | none ↦ (neg ebadf, [], dev)
    | some (i, vn) ↦ elim (read_of (st.devices vn).ops) [
      | none ↦ (neg enotsup, [], dev)
      | some device_read ↦ device_read count dev
    ]
  ]

  abbrev pub write_of : Option (FileOps D) → Option (List ℕ → D → ℤ × D)
  write_of none = none
  write_of (some ops) = ops.write_op

  unfoldable pub vfs_write : ℤ → List ℕ → Vfs D → D → ℤ × D
  vfs_write fd buf st dev = elim (open_vnode fd st) [
    | none ↦ (neg ebadf, dev)
    | some (i, vn) ↦ elim (write_of (st.devices vn).ops) [
      | none ↦ (neg enotsup, dev)
      | some device_write ↦ device_write buf dev
    ]
  ]

  abbrev pub ioctl_of : Option (FileOps D) → Option (ℕ → D → ℤ × D)
  ioctl_of none = none
  ioctl_of (some ops) = ops.ioctl_op

  unfoldable pub vfs_ioctl : ℤ → ℕ → Vfs D → D → ℤ × D
  vfs_ioctl fd cmd st dev = elim (open_vnode fd st) [
    | none ↦ (neg ebadf, dev)
    | some (i, vn) ↦ elim (ioctl_of (st.devices vn).ops) [
      | none ↦ (neg enotsup, dev)
      | some device_ioctl ↦ device_ioctl cmd dev
    ]
  ]
