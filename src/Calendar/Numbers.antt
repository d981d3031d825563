-- ===== src/Calendar/Numbers.antt =====
-- Shifting a signed number into the calendar and back.
use nihao_github_io.Base.{ℕ, ◌+◌, ◌-◌, ◌≤◌, ◌<◌, ◌≡◌, refl, none, some, true, false, arith}
use nihao_github_io.Base.Int.{ℤ, pos, negsuc, sub_ℕ, ltb_ℤ, ◌≤ℤ◌, pos_part, neg_part}
use nihao_github_io.Calendar.{shift, fit_int}

pub fit_int-some : (limit n : ℕ) → n < limit → fit_int limit (some n) ≡ some n
unfolding fit_int
fit_int-some limit n h = ground (arith, h)

pub shift-sub_ℕ : (a k : ℕ) → shift k (sub_ℕ a k) ≡ some a
unfolding shift
shift-sub_ℕ a k = ground arith

pub shift_lem : (k d : ℕ) (v : ℤ) → shift k v ≡ some d → v ≡ sub_ℕ d k
unfolding shift
shift_lem k d (pos n) h = ground arith
shift_lem k d (negsuc n) h = ground arith

-- `v + k` where `-k ≤ v`.
pub shift-some : (k : ℕ) (v : ℤ) → neg_part v ≤ k → shift k v ≡ some (pos_part v + k - neg_part v)
unfolding shift
shift-some k (pos n) h = ground arith
shift-some k (negsuc n) h = ground arith

pub sub_ℕ-suc : (a b k : ℕ) → a ≡ b + 1 → sub_ℕ a (k + 1) ≡ sub_ℕ b k
sub_ℕ-suc a b k h = ground arith

pub ltb_ℤ-sub_ℕ : (a k c : ℕ) → a + c + 1 < k → ltb_ℤ (sub_ℕ a k) (negsuc c) ≡ true
ltb_ℤ-sub_ℕ a k c h = ground arith

pub ltb_ℤ-sub_ℕ_ge : (a k c : ℕ) → k ≤ a + c + 1 → ltb_ℤ (sub_ℕ a k) (negsuc c) ≡ false
ltb_ℤ-sub_ℕ_ge a k c h = ground arith

-- A number in shifted form.
pub parts-sub_ℕ : (n : ℤ) (k : ℕ) → neg_part n ≤ k → n ≡ sub_ℕ (pos_part n + k - neg_part n) k
parts-sub_ℕ (pos n) k h = ground arith
parts-sub_ℕ (negsuc n) k h = ground arith

-- The shifted number of a day from the reform on.
pub reform_shift :
    (n : ℤ)
    → negsuc 141426 ≤ℤ n
    → (neg_part n ≤ 40896202) × (40754775 ≤ pos_part n + 40896202 - neg_part n)
reform_shift (pos n) h = ground arith
reform_shift (negsuc n) h = ground arith

pub shift-none : (k : ℕ) (v : ℤ) → k < neg_part v → shift k v ≡ none
unfolding shift
shift-none k (pos n) h = absurd (omega arith)
shift-none k (negsuc n) h = ground arith

pub ltb_ℤ→lt : (n : ℤ) (c : ℕ) → ltb_ℤ n (negsuc c) ≡ true → c + 1 < neg_part n
ltb_ℤ→lt (pos n) c h = ground arith
ltb_ℤ→lt (negsuc n) c h = ground arith

pub ltb_ℤ→ge : (n : ℤ) (c : ℕ) → ltb_ℤ n (negsuc c) ≡ false → negsuc c ≤ℤ n
ltb_ℤ→ge n c h = ground arith

pub whole_parts : (n : ℤ) → n ≡ sub_ℕ (pos_part n) (neg_part n)
whole_parts (pos n) = ground arith
whole_parts (negsuc n) = ground arith

-- One of the two parts is zero.
pub no_pos_part : (n : ℤ) → 0 < neg_part n → pos_part n ≡ 0
no_pos_part (pos n) h = absurd (omega arith)
no_pos_part (negsuc n) h = refl
