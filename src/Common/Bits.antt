-- ===== src/Common/Bits.antt =====
-- Shifts, masks and unions of disjoint bit fields.
use Prim.Native.Nat.{ℕ, zero, suc, ◌+◌, ◌*◌, ◌/◌, ◌%◌, ◌^◌, ◌<◌, bit_or}
use mathlib.Core.Path.{◌≡◌, refl}
use mathlib.Core.Bool.{Bool, true, false}
use native.Mathlib.Omega.{arith}
use mini_jvm.Common.Tests.{if◌then◌else◌, ◌==◌, ==_iff}

-- x >> k
abbrev pub shr : ℕ → ℕ → ℕ
shr x k = x / 2 ^ k

-- x & (2^k - 1)
abbrev pub low_bits : ℕ → ℕ → ℕ
low_bits x k = x % 2 ^ k

-- x & 2^k, as a test
abbrev pub has_bit : ℕ → ℕ → Bool
has_bit x k = x / 2 ^ k % 2 == 1

-- A test of every number below a bound, as one computation.
unfoldable pub every : (ℕ → Bool) → ℕ → Bool
every test zero = true
every test (suc k) = if test k then every test k else false

pub every-at : (test : ℕ → Bool) (k x : ℕ) → x < k → every test k ≡ true → test x ≡ true
unfolding every
every-at test zero x lt h = absurd (omega arith)
every-at test (suc k) x lt h = ground (arith, every-at test k x)

-- Whether `m` shares no bit with the numbers below `k`.
adds : ℕ → ℕ → Bool
unfolding every
adds m k = every (λ x. bit_or m x == m + x) k

adds-at : (m k x : ℕ) → x < k → adds m k ≡ true → bit_or m x ≡ m + x
unfolding adds
adds-at m k x lt h = (==_iff _ _).0 (every-at (λ y. bit_or m y == m + y) k x lt h)

-- The tags of the UTF-8 bytes share no bit with what they mark.
pub or_0x80 : (x : ℕ) → x < 64 → bit_or 0x80 x ≡ 0x80 + x
unfolding adds
or_0x80 x lt = adds-at 0x80 64 x lt refl

pub or_0xc0 : (x : ℕ) → x < 32 → bit_or 0xc0 x ≡ 0xc0 + x
unfolding adds
or_0xc0 x lt = adds-at 0xc0 32 x lt refl

pub or_0xe0 : (x : ℕ) → x < 16 → bit_or 0xe0 x ≡ 0xe0 + x
unfolding adds
or_0xe0 x lt = adds-at 0xe0 16 x lt refl

-- A byte put together from its three fields.
joined : ℕ → Bool
joined n = bit_or (bit_or (n / 64 * 64) (n / 8 % 8 * 8)) (n % 8) == n

every-joined : every joined 256 ≡ true
unfolding every joined
every-joined = refl

-- The three fields of a ModR/M or SIB byte.
pub or_fields :
    (a b c : ℕ) → a < 4 → b < 8 → c < 8 → bit_or (bit_or (a * 64) (b * 8)) c ≡ a * 64 + b * 8 + c
unfolding joined
or_fields a b c ha hb hc =
    let n : ℕ = a * 64 + b * 8 + c in
    let ea : n / 64 ≡ a = omega arith in
    let eb : n / 8 % 8 ≡ b = omega arith in
    let ec : n % 8 ≡ c = omega arith in
    rw (ea, eb, ec) at
      ((==_iff (bit_or (bit_or (n / 64 * 64) (n / 8 % 8 * 8)) (n % 8)) n).0
        (every-at joined 256 n (omega arith) every-joined))
