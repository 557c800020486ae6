-- ===== src/Pmm/Chain/Unlink.antt =====
-- kernel/pmm.c: what `list_remove` does to a free list.
use alze_os.Base.{
  ℕ, ◌≡◌, refl, true, false, ◌==◌, ==_iff, if◌then◌else◌, Bool-cases, inl, inr, ◌⊎◌, Option, none,
  some, List, [], ◌∷◌, arith,
}
use mathlib.Core.Path.{subst}
use alze_os.Pmm.{Page, remove_links, remove_head}
use alze_os.Pmm.Chain.Links.{has, Distinct, Chain, Chain-ext, without, is_at}

-- The links after `list_remove`, page by page.
pub remove_links-at :
    (pages : ℕ → Page) (pg y : ℕ)
    → is_at (pages pg).prev pg ≡ false
    → is_at (pages pg).next pg ≡ false
    → ((remove_links pages pg y).next ≡ (
        if y == pg
        then none
        else if is_at (pages pg).prev y
        then (pages pg).next
        else (pages y).next))
      × ((remove_links pages pg y).prev ≡ (
          if y == pg
          then none
          else if is_at (pages pg).next y
          then (pages pg).prev
          else (pages y).prev))
unfolding remove_links
remove_links-at pages pg y p n = (ground arith, ground arith)

-- Where the links of a listed page lead.
prev-in :
    (pages : ℕ → Page) (before head : Option ℕ) (xs : List ℕ) (pg : ℕ)
    → Chain pages before head xs
    → has pg xs ≡ true
    → ((pages pg).prev ≡ before) ⊎ ((z : ℕ) × ((pages pg).prev ≡ some z) × (has z xs ≡ true))
prev-in pages before head [] pg c h = cc
prev-in pages before head (x ∷ xs) pg (e, p, c) h =
    ground (arith, prev-in pages (some x) (pages x).next xs pg c)

next-in :
    (pages : ℕ → Page) (before head : Option ℕ) (xs : List ℕ) (pg y : ℕ)
    → Chain pages before head xs
    → has pg xs ≡ true
    → has y xs ≡ false
    → is_at (pages pg).next y ≡ false
next-in pages before head [] pg y c h o = cc
next-in pages before head (x ∷ []) pg y (e, p, c) h o = ground arith
next-in pages before head (x ∷ z ∷ xs) pg y (e, p, c) h o =
    ground (arith, next-in pages (some x) (pages x).next (z ∷ xs) pg y c, c.0)

-- Where the walk stands once `pg` is out.
abbrev head_after : (ℕ → Page) → ℕ → Option ℕ → List ℕ → Option ℕ
head_after pages pg head [] = head
head_after pages pg head (x ∷ xs) = if x == pg then (pages pg).next else head

next_self :
    (pages : ℕ → Page) (before head : Option ℕ) (xs : List ℕ) (pg : ℕ)
    → Chain pages before head xs
    → Distinct xs
    → has pg xs ≡ true
    → is_at (pages pg).next pg ≡ false
next_self pages before head [] pg c d h = cc
next_self pages before head (x ∷ []) pg (e, p, c) d h = ground arith
next_self pages before head (x ∷ z ∷ xs) pg (e, p, c) (o, d) h =
    ground (arith, next_self pages (some x) (pages x).next (z ∷ xs) pg c d, c.0)

prev_self :
    (pages : ℕ → Page) (before head : Option ℕ) (xs : List ℕ) (pg : ℕ)
    → Chain pages before head xs
    → Distinct xs
    → has pg xs ≡ true
    → is_at before pg ≡ false
    → is_at (pages pg).prev pg ≡ false
prev_self pages before head [] pg c d h b = cc
prev_self pages before head (x ∷ xs) pg (e, p, c) (o, d) h b =
    ground (arith, prev_self pages (some x) (pages x).next xs pg c d)

module _ (pages : ℕ → Page) (pg : ℕ) (own_prev : is_at (pages pg).prev pg ≡ false)
    (own_next : is_at (pages pg).next pg ≡ false) where
  abbrev after : ℕ → Page
  after = remove_links pages pg

  at :
      (y : ℕ)
      → ((after y).next ≡ (
          if y == pg
          then none
          else if is_at (pages pg).prev y
          then (pages pg).next
          else (pages y).next))
        × ((after y).prev ≡ (
            if y == pg
            then none
            else if is_at (pages pg).next y
            then (pages pg).prev
            else (pages y).prev))
  at y = remove_links-at pages pg y own_prev own_next

  -- The part behind `pg`.
  Chain-behind :
      (before : Option ℕ) (xs : List ℕ)
      → (pages pg).prev ≡ before
      → has pg xs ≡ false
      → Distinct xs
      → ((y : ℕ) → has y xs ≡ true → is_at before y ≡ false)
      → Chain pages (some pg) (pages pg).next xs
      → Chain after before (pages pg).next xs
  Chain-behind before [] b o d out c = c
  Chain-behind before (x ∷ xs) b o d out (e, p, c) = (
    e,
    ground (arith, at x),
    subst (λ n. Chain after (some x) n xs) (ground (arith, at x, out x))
        (Chain-ext pages after (some x) (pages x).next xs
          (λ y m. (ground (arith, at y, out y), ground (arith, at y, out y))) c),
  )

  next-before :
      (x : ℕ) (xs : List ℕ)
      → (x == pg) ≡ false
      → has pg xs ≡ true
      → has x xs ≡ false
      → Chain pages (some x) (pages x).next xs
      → head_after pages pg (pages x).next xs ≡ (after x).next
  next-before x [] n h o c = cc
  next-before x (r ∷ rs) n h o (e, p, c) = elim (Bool-cases (r == pg)) [
    | inl here ↦ rw here (ground (arith, at x, (==_iff r pg).0 here))
    | inr there ↦ rw there (ground (arith, at x, prev-in pages (some r) (pages r).next rs pg c))
  ]

  Chain-out :
      (before head : Option ℕ) (xs : List ℕ)
      → has pg xs ≡ true
      → Distinct xs
      → ((y : ℕ) → has y xs ≡ true → is_at before y ≡ false)
      → Chain pages before head xs
      → Chain after before (head_after pages pg head xs) (without pg xs)
  Chain-out before head [] h d out c = cc
  Chain-out before head (x ∷ xs) h (o, d) out (e, p, c) = elim (Bool-cases (x == pg)) [
    | inl here ↦ rw here (
        let same = (==_iff x pg).0 here in
        Chain-behind before xs (subst (λ z. (pages z).prev ≡ before) same p)
          (subst (λ z. has z xs ≡ false) same o) d (λ y m. out y (ground arith))
          (subst (λ z. Chain pages (some z) (pages z).next xs) same c))
    | inr there ↦ rw there (
      e,
      ground (arith, at x, next-in pages (some x) (pages x).next xs pg x c),
      subst (λ n. Chain after (some x) n (without pg xs))
          (next-before x xs there (ground arith) o c)
          (Chain-out (some x) (pages x).next xs (ground arith) d (λ y m. ground arith) c),
    )
  ]

head_after-eq :
    (pages : ℕ → Page) (head : Option ℕ) (xs : List ℕ) (pg : ℕ)
    → Chain pages none head xs
    → has pg xs ≡ true
    → head_after pages pg head xs ≡ remove_head pages pg head
unfolding remove_head
head_after-eq pages head [] pg c h = cc
head_after-eq pages head (x ∷ xs) pg (e, p, c) h =
    ground (arith, prev-in pages (some x) (pages x).next xs pg c)

-- `list_remove` takes out just that page, wherever it stands.
pub Chain-remove_links :
    (pages : ℕ → Page) (head : Option ℕ) (xs : List ℕ) (pg : ℕ)
    → has pg xs ≡ true
    → Distinct xs
    → Chain pages none head xs
    → Chain (remove_links pages pg) none (remove_head pages pg head) (without pg xs)
Chain-remove_links pages head xs pg h d c =
    subst (λ n. Chain (remove_links pages pg) none n (without pg xs))
      (head_after-eq pages head xs pg c h)
      (Chain-out pages pg (prev_self pages none head xs pg c d h refl)
        (next_self pages none head xs pg c d h) none head xs h d (λ y m. refl) c)

-- A page outside the list is neither neighbour of a page inside it.
pub links-out :
    (pages : ℕ → Page) (head : Option ℕ) (xs : List ℕ) (pg y : ℕ)
    → Chain pages none head xs
    → has pg xs ≡ true
    → has y xs ≡ false
    → (is_at (pages pg).prev y ≡ false) × (is_at (pages pg).next y ≡ false)
links-out pages head xs pg y c h o =
    (ground (arith, prev-in pages none head xs pg c h), next-in pages none head xs pg y c h o)

pub links_self :
    (pages : ℕ → Page) (head : Option ℕ) (xs : List ℕ) (pg : ℕ)
    → Chain pages none head xs
    → Distinct xs
    → has pg xs ≡ true
    → (is_at (pages pg).prev pg ≡ false) × (is_at (pages pg).next pg ≡ false)
links_self pages head xs pg c d h =
    (prev_self pages none head xs pg c d h refl, next_self pages none head xs pg c d h)

pub head-in :
    (pages : ℕ → Page) (head : Option ℕ) (xs : List ℕ) (y : ℕ)
    → Chain pages none head xs
    → has y xs ≡ false
    → is_at head y ≡ false
head-in pages head [] y c o = rw c refl
head-in pages head (x ∷ xs) y (e, p, c) o = ground arith
