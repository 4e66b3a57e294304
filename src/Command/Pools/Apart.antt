-- ===== src/Command/Pools/Apart.antt =====
-- No two pools share a collection.
use attndb.Prelude.{
  ℕ, suc, ◌≡◌, refl, sym, ap, ◌∙◌, ◌⊎◌, inl, inr, [], ◌∷◌, ◌++◌, append_assoc, length,
  length-append, arith,
}
use attndb.Prelude.Text.{Bytes, codes}
use attndb.Command.Pools.{PoolKind, tok, para, doc, kind_name, name_prefix, pool_name}

-- Two texts with endings of one length have the same endings, and the same beginnings.
ending : (p q s t : Bytes) → length s ≡ length t → p ++ s ≡ q ++ t → (p ≡ q) × (s ≡ t)
ending [] [] s t n e = (refl, e)
ending [] (y ∷ q) s t n e =
    let m = ap length e in let k = length-append q t in absurd (omega (arith, m, k, n))
ending (x ∷ p) [] s t n e =
    let m = ap length e in let k = length-append p s in absurd (omega (arith, m, k, n))
ending (x ∷ p) (y ∷ q) s t n e = let (a, b) = ending p q s t n (cc) in let c : x ≡ y = cc in (cc, b)

name_prefix_injective : (ns ns' : Bytes) → name_prefix ns ≡ name_prefix ns' → ns ≡ ns'
unfolding name_prefix
name_prefix_injective [] [] e = refl
name_prefix_injective [] (c ∷ ns) e = absurd (cc)
name_prefix_injective (c ∷ ns) [] e = absurd (cc)
name_prefix_injective (c ∷ ns) (d ∷ ns') e = cc

-- The first of four letters at the end.
same_letter :
    (p q a b : Bytes) (c d : ℕ) (s t : Bytes)
    → length s ≡ length t
    → p ++ (a ++ c ∷ s) ≡ q ++ (b ++ d ∷ t)
    → c ≡ d
same_letter p q a b c d s t n e =
    let (front, tails) =
      ending (p ++ a) (q ++ b) (c ∷ s) (d ∷ t) (ap suc n)
        (append_assoc p a (c ∷ s) ∙ e ∙ sym (append_assoc q b (d ∷ t))) in
    cc

-- The kinds end in different letters.
kinds_apart :
    (p q : Bytes) (k k' : PoolKind) → p ++ kind_name k ≡ q ++ kind_name k' → (k ≡ k') × (p ≡ q)
unfolding kind_name
kinds_apart p q tok tok e =
    (refl, (ending p q (codes "_tok_section") (codes "_tok_section") refl e).0)
kinds_apart p q tok para e =
    let h =
      same_letter p q (codes "_tok_sec") (codes "_") b't' b'p' (codes "ion") (codes "ara") refl e in
    absurd (omega arith)
kinds_apart p q tok doc e =
    let h =
      same_letter p q (codes "_tok_sec") (codes "") b't' b'_' (codes "ion") (codes "doc") refl e in
    absurd (omega arith)
kinds_apart p q para tok e =
    let h =
      same_letter p q (codes "_") (codes "_tok_sec") b'p' b't' (codes "ara") (codes "ion") refl e in
    absurd (omega arith)
kinds_apart p q para para e = (refl, (ending p q (codes "_para") (codes "_para") refl e).0)
kinds_apart p q para doc e =
    let h = same_letter p q (codes "_") (codes "") b'p' b'_' (codes "ara") (codes "doc") refl e in
    absurd (omega arith)
kinds_apart p q doc tok e =
    let h =
      same_letter p q (codes "") (codes "_tok_sec") b'_' b't' (codes "doc") (codes "ion") refl e in
    absurd (omega arith)
kinds_apart p q doc para e =
    let h = same_letter p q (codes "") (codes "_") b'_' b'p' (codes "doc") (codes "ara") refl e in
    absurd (omega arith)
kinds_apart p q doc doc e = (refl, (ending p q (codes "_doc") (codes "_doc") refl e).0)

-- The encoders that there are.
abbrev pub IsEncoder : Bytes → Type 0
IsEncoder enc = (enc ≡ codes "stub") ⊎ (enc ≡ codes "onnx")

IsEncoder-length : (enc : Bytes) → IsEncoder enc → length enc ≡ 4
IsEncoder-length enc (inl e) = ap length e
IsEncoder-length enc (inr e) = ap length e

-- With the encoders that the program has, two collections have one name only if they are of the
-- same encoder, of the same namespace and of the same pass.
pub pool_name_injective :
    (enc enc' ns ns' : Bytes) (k k' : PoolKind)
    → IsEncoder enc
    → IsEncoder enc'
    → pool_name enc ns k ≡ pool_name enc' ns' k'
    → (enc ≡ enc') × (ns ≡ ns') × (k ≡ k')
unfolding pool_name
pool_name_injective enc enc' ns ns' k k' a b e =
    let n : length (b'_' ∷ enc) ≡ length (b'_' ∷ enc') =
      ap suc (IsEncoder-length enc a ∙ sym (IsEncoder-length enc' b)) in
    let (front, back) =
      ending (name_prefix ns ++ kind_name k) (name_prefix ns' ++ kind_name k') (b'_' ∷ enc)
        (b'_' ∷ enc') n e in
    let (kind, base) = kinds_apart (name_prefix ns) (name_prefix ns') k k' front in
    (cc, name_prefix_injective ns ns' base, kind)
