-- ===== src/Strings.antt =====
-- kernel/string.c: the functions on bytes and strings. Memory is a function from addresses, and no
-- object reaches past the last address.
pub mod Moves
pub mod Compare
pub mod Fill
pub mod Scan
pub mod Search
pub mod Order
mod Tests
use alze_os.Words.{store}
use alze_os.Base.{
  ◌^◌, bit_or, ℕ, zero, suc, ◌+◌, ◌-◌, ◌*◌, ◌/◌, ◌%◌, ◌==◌, ◌&&◌, ◌||◌, ltb, leb, if◌then◌else◌,
  List, [], ◌∷◌, Bool, true, false, ℤ, pos, neg,
}

-- The bytes before the terminator.
unfoldable pub c_string : List ℕ → List ℕ
c_string [] = []
c_string (c ∷ msg) = if c == 0 then [] else c ∷ c_string msg

-- Whether `strcmp` returns 0, for the bytes before the two terminators.
unfoldable pub same_string : List ℕ → List ℕ → Bool
same_string [] [] = true
same_string [] (_ ∷ _) = false
same_string (_ ∷ _) [] = false
same_string (a ∷ x) (b ∷ y) = let rest = same_string x y in if a == b then rest else false

abbrev pub Memory : Type 0
Memory = ℕ → ℕ

-- `w` bytes are read from `s` and then written to `d`: `movsb` for 1, `movsq` for 8.
unfoldable pub move_block : ℕ → ℕ → ℕ → Memory → Memory
move_block w d s mem a = if leb d a && ltb a (d + w) then mem (s + (a - d)) else mem a

-- `rep`: `n` blocks, with the pointers going up.
unfoldable pub rep_up : ℕ → ℕ → ℕ → ℕ → Memory → Memory
rep_up w zero d s mem = mem
rep_up w (suc n) d s mem = rep_up w n (d + w) (s + w) (move_block w d s mem)

-- The pointers going down, from the ends of the two objects.
unfoldable pub rep_down : ℕ → ℕ → ℕ → ℕ → Memory → Memory
rep_down w zero d s mem = mem
rep_down w (suc n) d s mem = rep_down w n (d - w) (s - w) (move_block w (d - w) (s - w) mem)

-- `rep stos`: `n` times the word `v` of `w` bytes.
unfoldable pub rep_store : ℕ → ℕ → ℕ → ℕ → Memory → Memory
rep_store w zero d v mem = mem
rep_store w (suc n) d v mem = rep_store w n (d + w) v (store w mem d v)

-- A byte broadcast to eight: `qval |= qval << 8`, and again by 16 and by 32 bits.
unfoldable pub broadcast : ℕ → ℕ
broadcast v =
    let twice = bit_or v (v * 2 ^ 8 % 2 ^ 64) in
    let four = bit_or twice (twice * 2 ^ 16 % 2 ^ 64) in bit_or four (four * 2 ^ 32 % 2 ^ 64)

unfoldable pub memset : ℕ → ℕ → ℕ → Memory → Memory
memset dest val n mem =
    let v = val % 256 in
    if leb 8 n
    then rep_store 1 (n % 8) (dest + 8 * (n / 8)) v (rep_store 8 (n / 8) dest (broadcast v) mem)
    else rep_store 1 n dest v mem

unfoldable pub memcpy : ℕ → ℕ → ℕ → Memory → Memory
memcpy dest src n mem =
    if leb 8 n
    then rep_up 1 (n % 8) (dest + 8 * (n / 8)) (src + 8 * (n / 8)) (rep_up 8 (n / 8) dest src mem)
    else rep_up 1 n dest src mem

unfoldable pub memmove : ℕ → ℕ → ℕ → Memory → Memory
memmove dest src n mem =
    if dest == src || n == 0
    then mem
    else if ltb dest src || leb (src + n) dest
    then memcpy dest src n mem
    else if leb 8 n
    then rep_down 8 (n / 8) (dest + n - n % 8) (src + n - n % 8)
        (rep_down 1 (n % 8) (dest + n) (src + n) mem)
    else rep_down 1 n (dest + n) (src + n) mem

-- `(int)x - (int)y` for two bytes.
abbrev pub difference : ℕ → ℕ → ℤ
difference x y = if leb y x then pos (x - y) else neg (y - x)

unfoldable pub memcmp : ℕ → ℕ → ℕ → Memory → ℤ
memcmp a b zero mem = pos 0
memcmp a b (suc n) mem =
    let rest = memcmp (suc a) (suc b) n mem in
    if mem a == mem b then rest else difference (mem a) (mem b)

unfoldable pub strncmp : ℕ → ℕ → ℕ → Memory → ℤ
strncmp a b zero mem = pos 0
strncmp a b (suc n) mem =
    let rest = strncmp (suc a) (suc b) n mem in
    if mem a == mem b then (if mem a == 0 then pos 0 else rest) else difference (mem a) (mem b)

-- The `n` bytes at `dest` after `strncpy`: those of the string at `src`, and then zeros. `ended`
-- says that the string has ended already.
unfoldable pub copy_string : Bool → ℕ → ℕ → ℕ → Memory → Memory
copy_string ended dest src zero mem = mem
copy_string ended dest src (suc n) mem =
    let rest = λ (over : Bool) (next : Memory). copy_string over (suc dest) (suc src) n next in
    if ended || mem src == 0
    then rest true (λ a. if a == dest then 0 else mem a)
    else rest false (λ a. if a == dest then mem src else mem a)

unfoldable pub strncpy : ℕ → ℕ → ℕ → Memory → Memory
strncpy dest src n mem = copy_string false dest src n mem
