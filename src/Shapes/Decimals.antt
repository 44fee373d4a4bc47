-- ===== src/Shapes/Decimals.antt =====
-- The decimal texts of numbers differ: reading one gives the number back.
use Prim.Native.Char.{code}
use Prim.Native.String.{◌++◌}
use text.Mathlib.TextLemmas.{nil-append, cons-append}
use base_search.Prelude.{
  ℕ, zero, suc, ◌+◌, ◌-◌, ◌*◌, ◌/◌, ◌%◌, ◌<◌, ◌≡◌, refl, ap, sym, ◌∙◌, String, arith, leb,
  Bool-cases, inl, inr,
}
use base_search.Prelude.Texts.{decimal, decimal_fuel, digit_text}
use base_search.Values.Keys.{decimal_value}

decimal_value-append :
    (v : ℕ) (s t : String) → decimal_value v (s ++ t) ≡ decimal_value (decimal_value v s) t
unfolding decimal_value
decimal_value-append v String.[] t = rw nil-append refl
decimal_value-append v (String.◌∷◌ c s) t =
    rw cons-append (decimal_value-append (v * 10 + (code c - 48)) s t)

decimal_value-digit_text : (v d : ℕ) → d < 10 → decimal_value v (digit_text d) ≡ v * 10 + d
unfolding decimal_value digit_text
decimal_value-digit_text v zero h = refl
decimal_value-digit_text v (suc zero) h = refl
decimal_value-digit_text v (suc (suc zero)) h = refl
decimal_value-digit_text v (suc (suc (suc zero))) h = refl
decimal_value-digit_text v (suc (suc (suc (suc zero)))) h = refl
decimal_value-digit_text v (suc (suc (suc (suc (suc zero))))) h = refl
decimal_value-digit_text v (suc (suc (suc (suc (suc (suc zero)))))) h = refl
decimal_value-digit_text v (suc (suc (suc (suc (suc (suc (suc zero))))))) h = refl
decimal_value-digit_text v (suc (suc (suc (suc (suc (suc (suc (suc zero)))))))) h = refl
decimal_value-digit_text v (suc (suc (suc (suc (suc (suc (suc (suc (suc zero))))))))) h = refl
decimal_value-digit_text v (suc (suc (suc (suc (suc (suc (suc (suc (suc (suc n)))))))))) h =
    absurd (omega arith)

decimal_value-decimal_fuel : (fuel n : ℕ) → n < fuel → decimal_value 0 (decimal_fuel fuel n) ≡ n
unfolding decimal_fuel
decimal_value-decimal_fuel zero n h = absurd (omega arith)
decimal_value-decimal_fuel (suc fuel) n h = elim (Bool-cases (leb n 9)) [
  | inl small ↦ rw small (decimal_value-digit_text 0 n (ground arith) ∙ omega arith)
  | inr large ↦ rw large (
      decimal_value-append 0 (decimal_fuel fuel (n / 10)) (digit_text (n % 10))
      ∙ rw (decimal_value-decimal_fuel fuel (n / 10) (ground arith))
          (decimal_value-digit_text (n / 10) (n % 10) (omega arith) ∙ omega arith))
]

-- Different numbers have different texts.
pub decimal_inj : (m n : ℕ) → decimal m ≡ decimal n → m ≡ n
unfolding decimal
decimal_inj m n e =
    sym (decimal_value-decimal_fuel (m + 1) m (omega arith))
    ∙ ap (decimal_value 0) e
    ∙ decimal_value-decimal_fuel (n + 1) n (omega arith)
