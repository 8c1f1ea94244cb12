-- ===== src/Doubles.antt =====
-- `double` and the engine std::mt19937_64, which are not the program's own: a type and the
-- operations that the source uses of it. A conversion out of range gives whatever `to_nat` says,
-- and the laws below say nothing of it.
use atlas_simulator.Prelude.{
  ℕ, ◌-◌, ◌*◌, ◌/◌, ◌%◌, ◌+◌, ◌^◌, ◌≤◌, ◌<◌, ◌≡◌, Bool, true, ltb, leb, lt→ltb, le→leb, leb→le,
  arith, u64_mod,
}

pub record Doubles (W : Type 0) : Type 0 where
  -- static_cast<double> and static_cast<Tick>.
  pub of_nat : ℕ → W
  pub to_nat : W → ℕ
  pub add : W → W → W
  pub sub : W → W → W
  pub mul : W → W → W
  pub div : W → W → W
  pub neg : W → W
  pub log : W → W
  pub sqrt : W → W
  pub lt : W → W → Bool
  pub le : W → W → Bool

-- What IEEE 754 says of finite numbers: a whole number up to 2^53 is a double, rounding keeps an
-- order against such a number, and the conversions are those of a value in range.
pub record IsRounded {W : Type 0} (d : Doubles W) : Type 0 where
  pub pos : (n : ℕ) → 0 < n → n ≤ 2 ^ 53 → d.lt (d.of_nat 0) (d.of_nat n) ≡ true
  -- A quotient of a number by one that is no smaller is between 0 and 1.
  pub unit :
      (a b : ℕ)
      → a ≤ b
      → 0 < b
      → b ≤ 2 ^ 53
      → (d.le (d.of_nat 0) (d.div (d.of_nat a) (d.of_nat b)) ≡ true)
        × (d.le (d.div (d.of_nat a) (d.of_nat b)) (d.of_nat 1) ≡ true)
  -- A number from 0 to m, times one from 0 to 1.
  pub mul_unit :
      (m : ℕ) (a u : W)
      → m ≤ 2 ^ 53
      → d.le (d.of_nat 0) a ≡ true
      → d.le a (d.of_nat m) ≡ true
      → d.le (d.of_nat 0) u ≡ true
      → d.le u (d.of_nat 1) ≡ true
      → (d.le (d.of_nat 0) (d.mul a u) ≡ true) × (d.le (d.mul a u) (d.of_nat m) ≡ true)
  pub add_one :
      (m : ℕ) (a : W)
      → m + 1 ≤ 2 ^ 53
      → d.le (d.of_nat 0) a ≡ true
      → d.le a (d.of_nat m) ≡ true
      → (d.le (d.of_nat 1) (d.add (d.of_nat 1) a) ≡ true)
        × (d.le (d.add (d.of_nat 1) a) (d.of_nat (m + 1)) ≡ true)
  -- A product that fits in 64 bits is no less than a factor when the other is at least 1.
  pub mul_grows :
      (n k : ℕ) (a : W)
      → n ≤ 2 ^ 53
      → k ≤ 2 ^ 53
      → n * k ≤ 2 ^ 63
      → d.le (d.of_nat 1) a ≡ true
      → d.le a (d.of_nat k) ≡ true
      → n ≤ d.to_nat (d.mul (d.of_nat n) a)
  pub to_nat_le :
      (n : ℕ) (a : W)
      → n ≤ 2 ^ 53
      → d.le (d.of_nat 0) a ≡ true
      → d.le a (d.of_nat n) ≡ true
      → d.to_nat a ≤ n

-- std::mt19937_64: the constructor from a seed, and the call, with its documented range.
pub record Engine (E : Type 0) : Type 0 where
  pub start : ℕ → E
  pub next : E → ℕ × E
  -- A value of mt19937_64 is one of 64 bits.
  pub below : (e : E) → (next e).0 < u64_mod

-- Whole numbers meet the laws, with a logarithm of 1 and no sign.
abbrev pub whole : Doubles ℕ
whole = record {
  of_nat = λ n. n;
  to_nat = λ n. n;
  add = λ a b. a + b;
  sub = λ a b. a - b;
  mul = λ a b. a * b;
  div = λ a b. a / b;
  neg = λ a. a;
  log = λ a. 1;
  sqrt = λ a. a;
  lt = ltb;
  le = leb;
}

whole_grows : (n a : ℕ) → leb 1 a ≡ true → n ≤ n * a
whole_grows n a h = let one : 1 ≤ a = leb→le 1 a h in grind arith

whole_unit : (a b : ℕ) → a ≤ b → 0 < b → a / b ≤ 1
whole_unit a b h k = grind arith

whole_mul : (m a u : ℕ) → leb a m ≡ true → leb u 1 ≡ true → a * u ≤ m
whole_mul m a u h k =
    let small : a ≤ m = leb→le a m h in let one : u ≤ 1 = leb→le u 1 k in grind arith

pub whole-IsRounded : IsRounded whole
whole-IsRounded = record {
  pos = λ n h small. lt→ltb 0 n h;
  unit = λ a b h k small. (le→leb 0 (a / b) (omega arith), le→leb (a / b) 1 (whole_unit a b h k));
  mul_unit = λ m a u small h k i j.
      (le→leb 0 (a * u) (omega arith), le→leb (a * u) m (whole_mul m a u k j));
  add_one = λ m a small h k.
      (le→leb 1 (1 + a) (omega arith), le→leb (1 + a) (m + 1) (omega (arith, leb→le a m k)));
  mul_grows = λ n k a small few room h top. whole_grows n a h;
  to_nat_le = λ n a small h k. leb→le a n k;
}

-- An engine that counts.
abbrev pub counter : Engine ℕ
counter = record { start = λ s. s; next = λ e. (e % u64_mod, e + 1); below = λ e. grind arith }
