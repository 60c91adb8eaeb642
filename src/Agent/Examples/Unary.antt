-- ===== src/Agent/Examples/Unary.antt =====
-- Numbers as texts, in unary, after a 0.
use Prim.Native.String.{String, [], ◌∷◌}
use corpus.Prelude.{ℕ, zero, suc, ◌-◌, ◌≡◌, refl, ap, arith, some}
use corpus.Agent.State.Identity.{Decimal}

unary : ℕ → String
unary zero = "0"
unary (suc n) = "1" ∷ unary n

chars : String → ℕ
chars [] = 0
chars (c ∷ s) = suc (chars s)

chars-unary : (n : ℕ) → chars (unary n) ≡ suc n
unfolding unary chars
chars-unary zero = refl
chars-unary (suc n) = ap suc (chars-unary n)

unary_back : (n : ℕ) → chars (unary n) - 1 ≡ n
unary_back n = omega (arith, chars-unary n)

pub example_decimal : Decimal
unfolding unary
example_decimal = record {
  to_text = unary;
  to_int = λ s. chars s - 1;
  parse = λ s. some (chars s - 1);
  to_text_zero = refl;
  to_int-to_text = unary_back;
  parse-to_text = λ n. ap (λ k. some k) (unary_back n);
}
