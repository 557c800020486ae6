-- ===== src/Strings/Order.antt =====
-- kernel/string.c, `strcmp`: it ends, and returns 0 for equal strings only.
use alze_os.Base.{
  ℕ, zero, suc, ◌+◌, ◌≤◌, ◌<◌, ◌≡◌, ◌≢◌, ◌↔◌, refl, sym, ap, ◌∙◌, ◌==◌, ==_iff, ◌&&◌, not, false,
  if◌then◌else◌, Bool-cases, inl, inr, Option, none, some, arith, ℤ, pos,
}
use alze_os.Strings.{Memory, difference}
use alze_os.Strings.Scan.{IsString, IsString-suc}

unfoldable pub strcmp : ℕ → ℕ → ℕ → Memory → Option ℤ
strcmp zero a b mem = none
strcmp (suc fuel) a b mem =
    let rest = strcmp fuel (a + 1) (b + 1) mem in
    if not (mem a == 0) && mem a == mem b then rest else some (difference (mem a) (mem b))

-- The strings have the same length and the same bytes.
pub record SameString (mem : Memory) (a n b m : ℕ) : Type 0 where
  pub length : n ≡ m
  pub bytes : (i : ℕ) → i ≤ n → mem (a + i) ≡ mem (b + i)

difference-zero : (x y : ℕ) → difference x y ≡ pos 0 → x ≡ y
difference-zero x y e = ground (arith, e)

bytes-suc :
    (mem : Memory) (a b n : ℕ)
    → mem a ≡ mem b
    → ((i : ℕ) → i ≤ n → mem (a + 1 + i) ≡ mem (b + 1 + i))
    → (i : ℕ) → i ≤ suc n
    → mem (a + i) ≡ mem (b + i)
bytes-suc mem a b n e s zero l =
    ap mem {x = a + 0} {y = a} (omega arith) ∙ e ∙ ap mem {x = b} {y = b + 0} (omega arith)
bytes-suc mem a b n e s (suc i) l =
    ap mem {x = a + suc i} {y = a + 1 + i} (omega arith)
    ∙ s i (omega arith)
    ∙ ap mem {x = b + 1 + i} {y = b + suc i} (omega arith)

-- Two strings that go on with the same bytes after the first.
step :
    (mem : Memory) (a n b m : ℕ)
    → mem a ≡ mem b
    → SameString mem (a + 1) n (b + 1) m ↔ SameString mem a (suc n) b (suc m)
step mem a n b m e = (
  λ s. record { length = omega (arith, s.length); bytes = bytes-suc mem a b n e s.bytes },
  λ s. record {
    length = omega (arith, s.length);
    bytes = λ i l.
        ap mem {x = a + 1 + i} {y = a + suc i} (omega arith)
        ∙ s.bytes (suc i) (omega arith)
        ∙ ap mem {x = b + suc i} {y = b + 1 + i} (omega arith);
  },
)

first : (mem : Memory) (a n b m : ℕ) → SameString mem a n b m → mem a ≡ mem b
first mem a n b m s =
    ap mem {x = a} {y = a + 0} (omega arith)
    ∙ s.bytes 0 (omega arith)
    ∙ ap mem {x = b + 0} {y = b} (omega arith)

first-ends : (mem : Memory) (a : ℕ) → IsString mem a 0 → mem a ≡ 0
first-ends mem a h = ap mem {x = a} {y = a + 0} (omega arith) ∙ h.ends

first-inside : (mem : Memory) (a n : ℕ) → IsString mem a (suc n) → mem a ≢ 0
first-inside mem a n h e = h.inside 0 (omega arith) (ap mem {x = a + 0} {y = a} (omega arith) ∙ e)

both_end :
    (mem : Memory) (a b m : ℕ) → mem a ≡ 0 → IsString mem b m → mem b ≡ 0 → SameString mem a 0 b m
both_end mem a b zero at_end k e = record {
  length = refl;
  bytes = λ i l.
      ap mem {x = a + i} {y = a} (omega arith)
      ∙ at_end
      ∙ sym e
      ∙ ap mem {x = b} {y = b + i} (omega arith);
}
both_end mem a b (suc m) at_end k e = absurd (first-inside mem b m k e)

-- The strings differ in their first bytes.
differ :
    (mem : Memory) (a n b m : ℕ)
    → mem a ≢ mem b
    → (difference (mem a) (mem b) ≡ pos 0) ↔ SameString mem a n b m
differ mem a n b m f =
    (λ e. absurd (f (difference-zero (mem a) (mem b) e)), λ s. absurd (f (first mem a n b m s)))

-- `strcmp` of two strings ends, and returns 0 exactly when they are the same.
pub strcmp_iff :
    (fuel a n b m : ℕ) (mem : Memory)
    → IsString mem a n
    → IsString mem b m
    → n < fuel
    → (r : ℤ) × (strcmp fuel a b mem ≡ some r) × ((r ≡ pos 0) ↔ SameString mem a n b m)
unfolding strcmp
strcmp_iff zero a n b m mem h k l = absurd (omega arith)
strcmp_iff (suc fuel) a zero b m mem h k l =
    let at_end = first-ends mem a h in
    (
      difference (mem a) (mem b),
      rw at_end refl,
      (
        λ e. both_end mem a b m at_end k (sym (difference-zero (mem a) (mem b) e) ∙ at_end),
        λ s. ground (arith, first mem a 0 b m s),
      ),
    )
strcmp_iff (suc fuel) a (suc n) b zero mem h k l =
    let f : mem a ≢ mem b = λ e. first-inside mem a n h (e ∙ first-ends mem b k) in
    let unlike : (mem a == mem b) ≡ false = ground (arith, f) in
    let more : (mem a == 0) ≡ false = ground (arith, first-inside mem a n h) in
    (difference (mem a) (mem b), rw (more, unlike) refl, differ mem a (suc n) b zero f)
strcmp_iff (suc fuel) a (suc n) b (suc m) mem h k l =
    let more : (mem a == 0) ≡ false = ground (arith, first-inside mem a n h) in
    elim (Bool-cases (mem a == mem b)) [
      | inl like ↦
          let e = (==_iff _ _).0 like in
          let (r, returns, same) =
            strcmp_iff fuel (a + 1) n (b + 1) m mem (IsString-suc mem a n h)
              (IsString-suc mem b m k) (omega arith) in
          (
            r,
            rw (more, like) returns,
            (λ z. (step mem a n b m e).0 (same.0 z), λ s. same.1 ((step mem a n b m e).1 s)),
          )
      | inr unlike ↦ (
        difference (mem a) (mem b),
        rw (more, unlike) refl,
        differ mem a (suc n) b (suc m) (λ (e : mem a ≡ mem b). ground (arith, unlike, e)),
      )
    ]
