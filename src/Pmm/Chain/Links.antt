-- ===== src/Pmm/Chain/Links.antt =====
-- kernel/pmm.c: a free list as it stands in the links of the pages, and what `list_add` does to it.
use alze_os.Base.{
  ℕ, ◌+◌, ◌≡◌, refl, ◌∙◌, Bool, true, false, ◌||◌, ◌&&◌, not, ◌==◌, if◌then◌else◌, Bool-cases, inl,
  inr, Option, none, some, List, [], ◌∷◌, length, arith,
}
use mathlib.Core.Path.{subst}
use alze_os.Pmm.{Page, add_links}

abbrev pub has : ℕ → List ℕ → Bool
has x [] = false
has x (y ∷ ys) = (y == x) || has x ys

-- No block stands twice in a list.
abbrev pub Distinct : List ℕ → Type 0
Distinct [] = Unit {0}
Distinct (x ∷ xs) = (has x xs ≡ false) × Distinct xs

-- From `head` the `next` links lead through `xs` to NULL, and each `prev` link leads back;
-- that of the first leads to `before`.
abbrev pub Chain : (ℕ → Page) → Option ℕ → Option ℕ → List ℕ → Type 0
Chain pages before head [] = head ≡ none
Chain pages before head (x ∷ xs) =
    (head ≡ some x) × ((pages x).prev ≡ before) × Chain pages (some x) (pages x).next xs

abbrev pub SameLinks : Page → Page → Type 0
SameLinks p q = (p.next ≡ q.next) × (p.prev ≡ q.prev)

-- A chain depends on the links of its own pages only.
pub Chain-ext :
    (pages other : ℕ → Page) (before head : Option ℕ) (xs : List ℕ)
    → ((x : ℕ) → has x xs ≡ true → SameLinks (other x) (pages x))
    → Chain pages before head xs
    → Chain other before head xs
Chain-ext pages other before head [] same c = c
Chain-ext pages other before head (x ∷ xs) same (e, p, c) =
    let (n, q) = same x (ground arith) in
    (
      e,
      q ∙ p,
      rw n (Chain-ext pages other (some x) (pages x).next xs (λ y m. same y (ground arith)) c),
    )

-- The list without `x`.
abbrev pub without : ℕ → List ℕ → List ℕ
without x [] = []
without x (y ∷ ys) = if y == x then ys else y ∷ without x ys

pub length-without : (x : ℕ) (xs : List ℕ) → has x xs ≡ true → length (without x xs) + 1 ≡ length xs
length-without x [] h = cc
length-without x (y ∷ ys) h = ground (arith, length-without x ys)

pub has-without :
    (x y : ℕ) (xs : List ℕ) → Distinct xs → has y (without x xs) ≡ (has y xs && not (x == y))
has-without x y [] d = refl
has-without x y (z ∷ zs) d = ground (arith, has-without x y zs)

pub Distinct-without : (x : ℕ) (xs : List ℕ) → Distinct xs → Distinct (without x xs)
Distinct-without x [] d = d
Distinct-without x (y ∷ ys) (o, d) = elim (Bool-cases (y == x)) [
  | inl here ↦ rw here d
  | inr there ↦ rw there (ground (arith, has-without x y ys d), Distinct-without x ys d)
]

abbrev pub is_at : Option ℕ → ℕ → Bool
is_at none y = false
is_at (some x) y = x == y

pub add_links-at :
    (pages : ℕ → Page) (head : Option ℕ) (pg y : ℕ)
    → is_at head pg ≡ false
    → ((add_links pages head pg y).next ≡ (if y == pg then head else (pages y).next))
      × ((add_links pages head pg y).prev
          ≡ (if is_at head y then some pg else if y == pg then none else (pages y).prev))
unfolding add_links
add_links-at pages head pg y h = (ground arith, ground arith)

-- `list_add` puts the page in front.
pub Chain-add_links :
    (pages : ℕ → Page) (head : Option ℕ) (xs : List ℕ) (pg : ℕ)
    → has pg xs ≡ false
    → Distinct xs
    → Chain pages none head xs
    → Chain (add_links pages head pg) none (some pg) (pg ∷ xs)
Chain-add_links pages head [] pg out d c = (
  refl,
  ground (arith, add_links-at pages head pg pg),
  ground (arith, add_links-at pages head pg pg),
)
Chain-add_links pages head (x ∷ xs) pg out d (e, p, c) = (
  refl,
  ground (arith, add_links-at pages head pg pg),
  (
    ground (arith, add_links-at pages head pg pg),
    ground (arith, add_links-at pages head pg x),
    subst (λ n. Chain (add_links pages head pg) (some x) n xs)
        (ground (arith, add_links-at pages head pg x))
        (Chain-ext pages (add_links pages head pg) (some x) (pages x).next xs
          (λ y m. (
            ground (arith, add_links-at pages head pg y),
            ground (arith, add_links-at pages head pg y),
          ))
          c),
  ),
)
