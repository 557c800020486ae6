-- ===== src/Kmalloc/Delay.antt =====
-- kernel/kmalloc.c: the quarantine hands a pointer back after 32 more have been freed.
use alze_os.Base.{
  ℕ, zero, suc, ◌+◌, ◌-◌, ◌%◌, ◌≤◌, ◌<◌, ◌≡◌, refl, sym, ap, ap₂, ◌∙◌, List, [], ◌∷◌, ◌++◌, ltb,
  if◌then◌else◌, length, keep_last, drop, update, update_self, length-append, min, drop-append,
  window, window-snoc, window-update, window_mod, drop-window, length-window, arith,
}
use alze_os.Kmalloc.{Quarantine, quarantine_size}
use alze_os.Kmalloc.Free.{quarantine_put}

pub record IsValid (q : Quarantine) : Type 0 where
  pub head_in : q.head < quarantine_size
  pub count_in : q.count ≤ quarantine_size

-- The pointers in the ring, the oldest first.
unfoldable pub waiting : Quarantine → List ℕ
waiting q = window q.entries quarantine_size (q.head + quarantine_size - q.count) q.count

-- The first item, 0 for none.
abbrev pub first : List ℕ → ℕ
first [] = 0
first (p ∷ ps) = p

first-window : (f : ℕ → ℕ) (s t n : ℕ) → 0 < n → first (window f s t n) ≡ f (t % s)
first-window f s t zero h = absurd (omega arith)
first-window f s t (suc n) h = refl

put_window :
    (f : ℕ → ℕ) (p head n : ℕ)
    → head < 32
    → n ≤ 31
    → window (update f head p) 32 ((head + 1) % 32 + 32 - suc n) (suc n)
      ≡ window f 32 (head + 32 - n) n ++ (p ∷ [])
put_window f p head n l m =
    let t = head + 32 - n in
    let back : (t + n) % 32 ≡ head = omega arith in
    window_mod (update f head p) 32 ((head + 1) % 32 + 32 - suc n) t (suc n) (omega arith)
    ∙ window-snoc (update f head p) 32 t n
    ∙ ap₂ (λ ps x. ps ++ (x ∷ []))
        (ap (λ k. window (update f k p) 32 t n) {y = (head + 32) % 32} (omega arith)
          ∙ window-update f 32 t n (head + 32) p (omega arith) (omega arith))
        (ap (update f head p) back ∙ update_self f head p)

-- A pointer that is freed goes to the end of the quarantine. As long as the ring has room nothing
-- leaves it, and after that the pointer leaves that has waited for 32 others.
pub quarantine_put-keep_last :
    (p : ℕ) (q : Quarantine)
    → IsValid q
    → let (evicted, q') = quarantine_put p q in
      IsValid q'
      × (waiting q' ≡ keep_last quarantine_size (waiting q ++ (p ∷ [])))
      × (evicted ≡ (if ltb (length (waiting q)) quarantine_size then 0 else first (waiting q)))
unfolding quarantine_put waiting
quarantine_put-keep_last p q v = (
  record { head_in = omega arith; count_in = ground arith },
  ap (λ k. window (update q.entries q.head p) 32 ((q.head + 1) % 32 + 32 - k) k) {y = suc n}
        (ground arith)
      ∙ put_window q.entries p q.head n v.head_in (omega arith)
      ∙ ap (λ ps. ps ++ (p ∷ [])) (sym kept)
      ∙ sym (drop-append (q.count - n) (waiting q) (p ∷ []) (omega (arith, length_waiting)))
      ∙ ap (λ k. drop k (waiting q ++ (p ∷ [])))
          (omega (arith, length_waiting, length-append (waiting q) (p ∷ []))),
  ground (arith, length_waiting, oldest),
)
  where
    n : ℕ
    n = min q.count 31

    length_waiting : length (waiting q) ≡ q.count
    length_waiting = length-window q.entries 32 (q.head + 32 - q.count) q.count

    oldest : q.count ≡ 32 → first (waiting q) ≡ q.entries q.head
    oldest e =
        first-window q.entries 32 (q.head + 32 - q.count) q.count (omega arith)
        ∙ ap q.entries (omega arith)

    kept : drop (q.count - n) (waiting q) ≡ window q.entries 32 (q.head + 32 - n) n
    kept =
        drop-window q.entries 32 (q.head + 32 - q.count) q.count (q.count - n) (omega arith)
        ∙ ap₂ (λ t k. window q.entries 32 t k) (omega arith) (omega arith)
