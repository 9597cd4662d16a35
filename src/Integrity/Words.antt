-- ===== src/Integrity/Words.antt =====
-- `std::uint32_t` as src/PackageIntegrity.cpp uses it: sums wrap around at 2 ^ 32.
use simp.Base.{ℕ, zero, suc, ◌+◌, ◌*◌, ◌/◌, ◌%◌, ◌-◌, ◌^◌, Bool, not, ◌&&◌, ◌==◌, if◌then◌else◌}

-- The last `n` bits of the operation `f`, bit by bit.
abbrev bitwise : (Bool → Bool → Bool) → ℕ → ℕ → ℕ → ℕ
bitwise f zero a b = 0
bitwise f (suc n) a b =
    let rest = bitwise f n (a / 2) (b / 2) in
    if f (a % 2 == 1) (b % 2 == 1) then 1 + 2 * rest else 2 * rest

abbrev pub sum : ℕ → ℕ → ℕ
sum a b = (a + b) % 2 ^ 32

-- `^`, `&` and `~` of the language.
abbrev pub xor : ℕ → ℕ → ℕ
xor = bitwise (λ p q. if p then not q else q) 32

abbrev pub conj : ℕ → ℕ → ℕ
conj = bitwise (λ p q. p && q) 32

abbrev pub complement : ℕ → ℕ
complement a = 2 ^ 32 - 1 - a

abbrev pub shift_right : ℕ → ℕ → ℕ
shift_right a n = a / 2 ^ n

abbrev pub shift_left : ℕ → ℕ → ℕ
shift_left a n = (a * 2 ^ n) % 2 ^ 32

-- The two shifts of a rotation have no bit in common, so that `|` is the sum.
abbrev pub rotate : ℕ → ℕ → ℕ
rotate value count = shift_right value count + shift_left value (32 - count)
