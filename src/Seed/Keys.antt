-- ===== src/Seed/Keys.antt =====
-- The idempotency keys of src/seed.py are distinct.
use Prim.Native.Char.{code}
use Prim.Native.String.{◌++◌}
use flyrank_capstone_meterin.Prelude.{
  ℕ, String, ◌≡◌, refl, sym, ap, ◌∙◌, Bool, false, ◌||◌, arith, ◌==◌, if◌then◌else◌,
}
use text.Mathlib.TextLemmas.{nil-append, cons-append, append_cancel_left}
use flyrank_capstone_meterin.Seed.{SeedEnv, api_key, token_key}

unfoldable pub has_dash : String → Bool
has_dash String.[] = false
has_dash (String.◌∷◌ c s) = code c == b'-' || has_dash s

before_dash : String → String
before_dash String.[] = String.[]
before_dash (String.◌∷◌ c s) =
    let rest = before_dash s in if code c == b'-' then String.[] else String.◌∷◌ c rest

before_dash_lem : (a b : String) → has_dash a ≡ false → before_dash (a ++ ("-" ++ b)) ≡ a
unfolding before_dash has_dash
before_dash_lem String.[] b h = rw (nil-append ("-" ++ b), cons-append "-" "" b) refl
before_dash_lem (String.◌∷◌ c a) b h =
    rw (cons-append c a ("-" ++ b)) (ground (arith, before_dash_lem a b))

-- The text of a number says which number it is, and has no dash.
pub record IsNumbering (str : ℕ → String) : Type 0 where
  pub apart : (i j : ℕ) → str i ≡ str j → i ≡ j
  pub plain : (i : ℕ) → has_dash (str i) ≡ false

module _ (env : SeedEnv) (numbering : IsNumbering env.str) where
  pub api_key_apart : (i j : ℕ) → api_key env i ≡ api_key env j → i ≡ j
  api_key_apart i j h =
      numbering.apart i j (append_cancel_left "seed-api-" (env.str i) (env.str j) h)

  pub token_key_batch : (b c i j : ℕ) → token_key env b i ≡ token_key env c j → b ≡ c
  token_key_batch b c i j h =
      let same = append_cancel_left "seed-token-" _ _ h in
      numbering.apart b c (
        sym (before_dash_lem (env.str b) (env.str i) (numbering.plain b))
        ∙ ap before_dash same
        ∙ before_dash_lem (env.str c) (env.str j) (numbering.plain c))

  pub token_key_apart : (b i j : ℕ) → token_key env b i ≡ token_key env b j → i ≡ j
  token_key_apart b i j h =
      let same = append_cancel_left "seed-token-" _ _ h in
      numbering.apart i j (append_cancel_left "-" _ _ (append_cancel_left (env.str b) _ _ same))
