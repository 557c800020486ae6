-- ===== src/Vfs/Descriptors.antt =====
-- Opening and closing files: which descriptor is handed out, and what is restored.
use alze_os.Base.{
  ℕ, ◌^◌, ◌≡◌, ◌<◌, refl, ◌⊎◌, true, false, not, ◌||◌, leb, List, [], none, some, ℤ, pos, negsuc,
  neg, arith,
}
use alze_os.Errno.{ebadf, eio}
use alze_os.IdPool.{IdPool, id_is_used}
use alze_os.IdPool.Alloc as Pool
use alze_os.Vfs.{Vfs, vfs_close, open_vnode, vfs_read, vfs_write, vfs_ioctl}

module _ {D : Type 0} where
  pub record IsValid (st : Vfs D) : Type 0 where
    pub pool : Pool.IsValid st.fd_pool
    pub agree : (fd : ℕ) → fd < 16 → (st.fd_table fd).in_use ≡ id_is_used st.fd_pool (pos fd)
    pub refs : (i : ℕ) → (st.devices i).refcount < 2 ^ 32

  -- The same descriptors are in use, and each device is referred to as often.
  pub record Restored (before after : Vfs D) : Type 0 where
    pub pool : after.fd_pool ≡ before.fd_pool
    pub in_use : (fd : ℕ) → (after.fd_table fd).in_use ≡ (before.fd_table fd).in_use
    pub refs : (i : ℕ) → (after.devices i).refcount ≡ (before.devices i).refcount

  -- The three ends of an open that finds its device and a descriptor.
  pub record Opened (st : Vfs D) (vn flags fd : ℕ) (dev : D) (r : ℤ × Vfs D × D) : Type 0 where
    pub inside : fd < 16
    pub was_free : (st.fd_table fd).in_use ≡ false
    pub least : (i : ℕ) → i < fd → (st.fd_table i).in_use ≡ true
    pub ends :
        ((r.0 ≡ neg eio) × Restored st r.1)
        ⊎ ((r.0 ≡ pos fd)
            × IsValid r.1
            × (r.1.fd_table fd
                ≡ record { vnode = some vn; flags = flags; offset = 0; in_use = true })
            × ((after : Vfs D) × (dev' : D) × (vfs_close (pos fd) r.1 r.2 ≡ (pos 0, after, dev'))
                × Restored st after))

  open_vnode-none :
      (st : Vfs D) (fd : ℤ)
      → ((n : ℕ) → fd ≡ pos n → n < 16 → (st.fd_table n).in_use ≡ false)
      → open_vnode fd st ≡ none
  unfolding open_vnode
  open_vnode-none st (negsuc n) h = refl
  open_vnode-none st (pos n) h =
      let bad : leb 16 n || not (st.fd_table n).in_use ≡ true = ground (arith, h n refl) in
      rw bad refl

  -- A descriptor that is out of range or not in use: every operation on it returns -EBADF, and
  -- neither the table nor the device changes.
  pub bad_descriptor :
      (st : Vfs D) (fd : ℤ) (dev : D) (count cmd : ℕ) (buf : List ℕ)
      → ((n : ℕ) → fd ≡ pos n → n < 16 → (st.fd_table n).in_use ≡ false)
      → (vfs_close fd st dev ≡ (neg ebadf, st, dev))
        × (vfs_read fd count st dev ≡ (neg ebadf, [], dev))
        × (vfs_write fd buf st dev ≡ (neg ebadf, dev))
        × (vfs_ioctl fd cmd st dev ≡ (neg ebadf, dev))
  unfolding vfs_close vfs_read vfs_write vfs_ioctl
  bad_descriptor st fd dev count cmd buf h =
      rw (open_vnode-none st fd h, vfs_close, vfs_read, vfs_write, vfs_ioctl)
        (refl, refl, refl, refl)
