-- ===== src/Vault/Find/Edit.antt =====
-- What one replacement does to a text.
use attndb.Prelude.{
  ◌≡◌, refl, ap, true, false, [], ◌∷◌, ◌++◌, length, drop, ◌==◌, arith, Bool-cases, inl, inr,
}
use attndb.Prelude.Text.{Bytes, has_prefix}
use attndb.Vault.Find.{count_from, count_string, replace_first}

-- The text has the old string somewhere, and the result has the new string in its place.
abbrev pub Replaced : Bytes → Bytes → Bytes → Bytes → Type 0
Replaced old new text out =
    (pre : Bytes) × (post : Bytes) × (text ≡ pre ++ (old ++ post)) × (out ≡ pre ++ (new ++ post))

has_prefix-drop : (s p : Bytes) → has_prefix s p ≡ true → s ≡ p ++ drop (length p) s
unfolding has_prefix
has_prefix-drop s [] e = refl
has_prefix-drop [] (p ∷ ps) e = cc
has_prefix-drop (c ∷ s) (p ∷ ps) e = ground (arith, has_prefix-drop s ps)

pub replace_first-Replaced :
    (text old new : Bytes)
    → (count_string text old == 0) ≡ false
    → Replaced old new text (replace_first text old new)
unfolding count_string count_from replace_first
replace_first-Replaced [] old new some_match = absurd (ground arith)
replace_first-Replaced (c ∷ text) old new some_match =
    elim (Bool-cases (has_prefix (c ∷ text) old)) [
      | inl here ↦
          rw here ([], drop (length old) (c ∷ text), has_prefix-drop (c ∷ text) old here, refl)
      | inr further ↦
          let (pre, post, e, f) = replace_first-Replaced text old new (rw further at some_match) in
          rw further (c ∷ pre, post, ap (λ t. c ∷ t) e, ap (λ t. c ∷ t) f)
    ]
