-- ===== src/Prelude/Text/Ascii.antt =====
-- Tests of the bytes of a text that only ASCII characters pass.
use Prim.Native.Nat.{ℕ, ◌+◌, ◌/◌, ◌<◌}
use mathlib.Core.Path.{◌≡◌, refl, ap₂, ◌∙◌}
use mathlib.Core.Bool.{Bool, true, ◌&&◌}
use mathlib.Core.List.{List, [], ◌∷◌, ◌++◌}
use native.Mathlib.Omega.{arith}
use nix_project_cache.Prelude.Lists.{all}
use nix_project_cache.Prelude.Text.{Text, utf8, bytes}

all-append : (p : ℕ → Bool) (xs ys : List ℕ) → all p (xs ++ ys) ≡ (all p xs && all p ys)
all-append p [] ys = refl
all-append p (x ∷ xs) ys = ground (arith, all-append p xs ys)

module _ (p : ℕ → Bool) (ascii : (c : ℕ) → p c ≡ true → c < 128) where
  all-utf8 : (c : ℕ) → all p (utf8 c) ≡ p c
  all-utf8 c =
      ground
        (arith, ascii c, ascii (192 + c / 64), ascii (224 + c / 4096), ascii (240 + c / 262144))

  -- The bytes pass the test if the characters do.
  pub all-bytes : (s : Text) → all p (bytes s) ≡ all p s
  unfolding bytes
  all-bytes [] = refl
  all-bytes (c ∷ s) =
      all-append p (utf8 c) (bytes s) ∙ ap₂ (λ x y. x && y) (all-utf8 c) (all-bytes s)
