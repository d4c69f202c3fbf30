-- ===== src/Base/Ints.antt =====
-- Go's `int` where a count may fall below zero, under the library's names. `negsuc n` is -(n + 1).
use Prim.Native.Nat.{ℕ, zero, suc}
use mathlib.Core.Path.{◌≡◌, refl}
use mathlib.Core.Bool.{Bool, true, false}

pub data ℤ : Type 0 where
  pos : ℕ → ℤ
  negsuc : ℕ → ℤ

-- `n--`
unfoldable pub pred_ℤ : ℤ → ℤ
pred_ℤ (pos zero) = negsuc 0
pred_ℤ (pos (suc n)) = pos n
pred_ℤ (negsuc n) = negsuc (suc n)

abbrev pub is_zero : ℤ → Bool
is_zero (pos zero) = true
is_zero _ = false

abbrev pub is_negative : ℤ → Bool
is_negative (pos n) = false
is_negative (negsuc n) = true

pub pred_ℤ-is_negative : (n : ℤ) → is_negative n ≡ true → is_negative (pred_ℤ n) ≡ true
unfolding pred_ℤ
pred_ℤ-is_negative (pos n) h = cc
pred_ℤ-is_negative (negsuc n) h = refl

pub is_zero-pos : (n : ℤ) → is_zero n ≡ true → n ≡ pos 0
is_zero-pos (pos zero) h = refl
is_zero-pos (pos (suc n)) h = cc
is_zero-pos (negsuc n) h = cc

pub pred_ℤ-suc : (n : ℕ) → pred_ℤ (pos (suc n)) ≡ pos n
unfolding pred_ℤ
pred_ℤ-suc n = refl
