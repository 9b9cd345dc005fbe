-- ===== src/Base/Bits.antt =====
-- The bitwise operations as arithmetic, at every width. A word is a native number; a shift by a
-- constant is a product or a quotient by a power of two.
use Prim.Native.Nat.{digits, min, max, bit_and-bitwise, bit_or-bitwise}
use Prim.Native.Nat.{bit_and as land, bit_or as lor}
use native.Mathlib.Nat.{pow-suc, one-le-pow}
use Prim.Native.Nat.{ℕ, zero, suc, ◌+◌, ◌-◌, ◌*◌, ◌/◌, ◌%◌, ◌^◌, ◌≤◌, ◌<◌}
use mathlib.Core.Path.{◌≡◌, refl, ap, ◌∙◌}
use mathlib.Core.Bool.{Bool, true, ◌&&◌}
use native.Mathlib.Omega.{arith}

abbrev and_fuel : ℕ → ℕ → ℕ → ℕ
and_fuel n a b = digits (λ y. zero) min n a b

abbrev or_fuel : ℕ → ℕ → ℕ → ℕ
or_fuel n a b = digits (λ y. y) max n a b

and_fuel_enough : (n m a b : ℕ) → a ≤ n → a ≤ m → and_fuel n a b ≡ and_fuel m a b
and_fuel_enough zero zero a b p q = refl
and_fuel_enough zero (suc m) zero b p q = refl
and_fuel_enough zero (suc m) (suc a) b p q = absurd (omega arith)
and_fuel_enough (suc n) zero zero b p q = refl
and_fuel_enough (suc n) zero (suc a) b p q = absurd (omega arith)
and_fuel_enough (suc n) (suc m) zero b p q = refl
and_fuel_enough (suc n) (suc m) (suc a) b p q =
    omega (arith, and_fuel_enough n m (suc a / 2) (b / 2) (omega arith) (omega arith))

or_fuel_enough : (n m a b : ℕ) → a ≤ n → a ≤ m → or_fuel n a b ≡ or_fuel m a b
or_fuel_enough zero zero a b p q = refl
or_fuel_enough zero (suc m) zero b p q = refl
or_fuel_enough zero (suc m) (suc a) b p q = absurd (omega arith)
or_fuel_enough (suc n) zero zero b p q = refl
or_fuel_enough (suc n) zero (suc a) b p q = absurd (omega arith)
or_fuel_enough (suc n) (suc m) zero b p q = refl
or_fuel_enough (suc n) (suc m) (suc a) b p q =
    omega (arith, or_fuel_enough n m (suc a / 2) (b / 2) (omega arith) (omega arith))

pub zero-land : (b : ℕ) → land 0 b ≡ 0
zero-land b = bit_and-bitwise 0 b

pub zero-lor : (b : ℕ) → lor 0 b ≡ b
zero-lor b = bit_or-bitwise 0 b

-- The law for the lowest digit.
land_step : (a b : ℕ) → land a b ≡ land (a / 2) (b / 2) * 2 + min (a % 2) (b % 2)
land_step zero b = omega (arith, zero-land b, zero-land (b / 2))
land_step (suc a) b = omega (
  arith,
  bit_and-bitwise (suc a) b,
  bit_and-bitwise (suc a / 2) (b / 2),
  and_fuel_enough a (suc a / 2) (suc a / 2) (b / 2) (omega arith) (omega arith),
)

lor_step : (a b : ℕ) → lor a b ≡ lor (a / 2) (b / 2) * 2 + max (a % 2) (b % 2)
lor_step zero b = omega (arith, zero-lor b, zero-lor (b / 2))
lor_step (suc a) b = omega (
  arith,
  bit_or-bitwise (suc a) b,
  bit_or-bitwise (suc a / 2) (b / 2),
  or_fuel_enough a (suc a / 2) (suc a / 2) (b / 2) (omega arith) (omega arith),
)

land-zero_below : (n a : ℕ) → a ≤ n → land a 0 ≡ 0
land-zero_below n zero h = refl
land-zero_below zero (suc a) h = absurd (omega arith)
land-zero_below (suc n) (suc a) h =
    omega (arith, land_step (suc a) 0, land-zero_below n (suc a / 2) (omega arith))

pub land-zero : (a : ℕ) → land a 0 ≡ 0
land-zero a = land-zero_below a a (omega arith)

lor-zero_below : (n a : ℕ) → a ≤ n → lor a 0 ≡ a
lor-zero_below n zero h = refl
lor-zero_below zero (suc a) h = absurd (omega arith)
lor-zero_below (suc n) (suc a) h =
    omega (arith, lor_step (suc a) 0, lor-zero_below n (suc a / 2) (omega arith))

pub lor-zero : (a : ℕ) → lor a 0 ≡ a
lor-zero a = lor-zero_below a a (omega arith)

pub one-le-two_pow : (k : ℕ) → 1 ≤ 2 ^ k
one-le-two_pow k = one-le-pow k 2 (omega arith)

twice_shift : (q k : ℕ) → q * 2 ^ suc k ≡ 2 * (q * 2 ^ k)
twice_shift q k = omega (arith, ap (λ (t : ℕ). q * t) (pow-suc 2 k))

-- A word is a high and a low part, and the operations work on the parts.
pub land_parts :
    (s a l b m : ℕ)
    → l < 2 ^ s
    → m < 2 ^ s
    → land (a * 2 ^ s + l) (b * 2 ^ s + m) ≡ land a b * 2 ^ s + land l m
land_parts zero a l b m h k =
    let l0 : l ≡ 0 = omega arith in
    let m0 : m ≡ 0 = omega arith in
    let e : a * 2 ^ 0 + l ≡ a = omega arith in
    let f : b * 2 ^ 0 + m ≡ b = omega arith in rw (e, f) (rw (l0, m0) (omega (arith, zero-land 0)))
land_parts (suc s) a l b m h k =
    let e : (a * 2 ^ suc s + l) / 2 ≡ a * 2 ^ s + l / 2 = omega (arith, twice_shift a s) in
    let f : (b * 2 ^ suc s + m) / 2 ≡ b * 2 ^ s + m / 2 = omega (arith, twice_shift b s) in
    let ih =
      land_parts s a (l / 2) b (m / 2) (omega (arith, pow-suc 2 s)) (omega (arith, pow-suc 2 s)) in
    omega (
      arith,
      land_step (a * 2 ^ suc s + l) (b * 2 ^ suc s + m),
      land_step l m,
      twice_shift a s,
      twice_shift b s,
      twice_shift (land a b) s,
      ap (λ (t : ℕ). land t ((b * 2 ^ suc s + m) / 2)) e,
      ap (λ (t : ℕ). land (a * 2 ^ s + l / 2) t) f,
      ih,
    )

pub lor_parts :
    (s a l b m : ℕ)
    → l < 2 ^ s
    → m < 2 ^ s
    → lor (a * 2 ^ s + l) (b * 2 ^ s + m) ≡ lor a b * 2 ^ s + lor l m
lor_parts zero a l b m h k =
    let l0 : l ≡ 0 = omega arith in
    let m0 : m ≡ 0 = omega arith in
    let e : a * 2 ^ 0 + l ≡ a = omega arith in
    let f : b * 2 ^ 0 + m ≡ b = omega arith in rw (e, f) (rw (l0, m0) (omega (arith, zero-lor 0)))
lor_parts (suc s) a l b m h k =
    let e : (a * 2 ^ suc s + l) / 2 ≡ a * 2 ^ s + l / 2 = omega (arith, twice_shift a s) in
    let f : (b * 2 ^ suc s + m) / 2 ≡ b * 2 ^ s + m / 2 = omega (arith, twice_shift b s) in
    let ih =
      lor_parts s a (l / 2) b (m / 2) (omega (arith, pow-suc 2 s)) (omega (arith, pow-suc 2 s)) in
    omega (
      arith,
      lor_step (a * 2 ^ suc s + l) (b * 2 ^ suc s + m),
      lor_step l m,
      twice_shift a s,
      twice_shift b s,
      twice_shift (lor a b) s,
      ap (λ (t : ℕ). lor t ((b * 2 ^ suc s + m) / 2)) e,
      ap (λ (t : ℕ). lor (a * 2 ^ s + l / 2) t) f,
      ih,
    )

-- A mask of `k` ones keeps a word below `2 ^ k`.
land_ones : (k a : ℕ) → a < 2 ^ k → land a (2 ^ k - 1) ≡ a
land_ones zero a h = let e : a ≡ 0 = omega arith in rw e (zero-land 0)
land_ones (suc k) a h =
    let half : (2 ^ suc k - 1) / 2 ≡ 2 ^ k - 1 = omega (arith, pow-suc 2 k, one-le-two_pow k) in
    omega (
      arith,
      land_step a (2 ^ suc k - 1),
      ap (λ (t : ℕ). land (a / 2) t) half,
      land_ones k (a / 2) (omega (arith, pow-suc 2 k)),
      pow-suc 2 k,
      one-le-two_pow k,
    )

-- `a & (2^k - 1)` is the remainder by `2 ^ k`.
pub land_mask : (k a : ℕ) → land a (2 ^ k - 1) ≡ a % 2 ^ k
land_mask k a =
    let pos : 1 ≤ 2 ^ k = one-le-two_pow k in
    let low : a % 2 ^ k < 2 ^ k = omega arith in
    let whole : a ≡ (a / 2 ^ k) * 2 ^ k + a % 2 ^ k = omega arith in
    let mask : 2 ^ k - 1 ≡ 0 * 2 ^ k + (2 ^ k - 1) = omega arith in
    ap (λ (t : ℕ). land t (2 ^ k - 1)) whole
    ∙ ap (λ (t : ℕ). land ((a / 2 ^ k) * 2 ^ k + a % 2 ^ k) t) mask
    ∙ land_parts k (a / 2 ^ k) (a % 2 ^ k) 0 (2 ^ k - 1) low (omega arith)
    ∙ omega (arith, ap (λ (t : ℕ). t * 2 ^ k) (land-zero (a / 2 ^ k)), land_ones k (a % 2 ^ k) low)

-- `(q << k) | r` is a sum where `r` fits the low `k` bits.
pub lor_fields : (k q r : ℕ) → r < 2 ^ k → lor (q * 2 ^ k) r ≡ q * 2 ^ k + r
lor_fields k q r h =
    let pos : 1 ≤ 2 ^ k = one-le-two_pow k in
    let left : q * 2 ^ k ≡ q * 2 ^ k + 0 = omega arith in
    let right : r ≡ 0 * 2 ^ k + r = omega arith in
    ap (λ (t : ℕ). lor t r) left
    ∙ ap (λ (t : ℕ). lor (q * 2 ^ k + 0) t) right
    ∙ lor_parts k q 0 0 r (omega arith) h
    ∙ omega (arith, ap (λ (t : ℕ). t * 2 ^ k) (lor-zero q), zero-lor r)

-- `r | (q << k)`, the same sum.
pub lor_fields' : (k q r : ℕ) → r < 2 ^ k → lor r (q * 2 ^ k) ≡ q * 2 ^ k + r
lor_fields' k q r h =
    let pos : 1 ≤ 2 ^ k = one-le-two_pow k in
    let right : q * 2 ^ k ≡ q * 2 ^ k + 0 = omega arith in
    let left : r ≡ 0 * 2 ^ k + r = omega arith in
    ap (λ (t : ℕ). lor t (q * 2 ^ k)) left
    ∙ ap (λ (t : ℕ). lor (0 * 2 ^ k + r) t) right
    ∙ lor_parts k 0 r q 0 h (omega arith)
    ∙ omega (arith, ap (λ (t : ℕ). t * 2 ^ k) (zero-lor q), lor-zero r)

-- A field of `k` bits above `s` lower ones, under `t` higher ones: clearing it, and writing it.
pub land_clear :
    (s k t hi mid lo : ℕ)
    → hi < 2 ^ t
    → mid < 2 ^ k
    → lo < 2 ^ s
    → land ((hi * 2 ^ k + mid) * 2 ^ s + lo) (((2 ^ t - 1) * 2 ^ k + 0) * 2 ^ s + (2 ^ s - 1))
      ≡ (hi * 2 ^ k + 0) * 2 ^ s + lo
land_clear s k t hi mid lo h m l =
    land_parts s (hi * 2 ^ k + mid) lo ((2 ^ t - 1) * 2 ^ k + 0) (2 ^ s - 1) l
      (omega (arith, one-le-two_pow s))
    ∙ ap (λ (x : ℕ). x * 2 ^ s + land lo (2 ^ s - 1))
        (land_parts k hi mid (2 ^ t - 1) 0 m (omega (arith, one-le-two_pow k))
          ∙ ap (λ (x : ℕ). x * 2 ^ k + land mid 0) (land_ones t hi h)
          ∙ ap (λ (x : ℕ). hi * 2 ^ k + x) (land-zero mid))
    ∙ ap (λ (x : ℕ). (hi * 2 ^ k + 0) * 2 ^ s + x) (land_ones s lo l)

pub lor_insert :
    (s k hi mid lo : ℕ)
    → mid < 2 ^ k
    → lo < 2 ^ s
    → lor ((hi * 2 ^ k + 0) * 2 ^ s + lo) (mid * 2 ^ s) ≡ (hi * 2 ^ k + mid) * 2 ^ s + lo
lor_insert s k hi mid lo m l =
    let pos : 1 ≤ 2 ^ s = one-le-two_pow s in
    let pos' : 1 ≤ 2 ^ k = one-le-two_pow k in
    let right : mid * 2 ^ s ≡ mid * 2 ^ s + 0 = omega arith in
    let whole : hi * 2 ^ k + 0 ≡ hi * 2 ^ k = omega arith in
    ap (λ (x : ℕ). lor ((hi * 2 ^ k + 0) * 2 ^ s + lo) x) right
    ∙ lor_parts s (hi * 2 ^ k + 0) lo mid 0 l (omega arith)
    ∙ ap (λ (x : ℕ). x * 2 ^ s + lor lo 0) (ap (λ (x : ℕ). lor x mid) whole ∙ lor_fields k hi mid m)
    ∙ ap (λ (x : ℕ). (hi * 2 ^ k + mid) * 2 ^ s + x) (lor-zero lo)

-- Over a small range, every value is checked by evaluation.
abbrev pub all_below : ℕ → (ℕ → Bool) → Bool
all_below zero p = true
all_below (suc n) p = p n && all_below n p

pub all_below_sound : (n : ℕ) (p : ℕ → Bool) (x : ℕ) → all_below n p ≡ true → x < n → p x ≡ true
all_below_sound zero p x h lt = absurd (omega arith)
all_below_sound (suc n) p x h lt = ground (arith, all_below_sound n p x)
