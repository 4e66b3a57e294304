-- ===== src/Vault/Path/Plain.antt =====
-- The names that `vaultName` gives: plain paths of the vault, which name the same file again.
use mathlib.Core.List.{reverse, reverse-cons, reverse-reverse}
use attndb.Prelude.{
  ◌≡◌, refl, sym, ◌∙◌, ap, true, false, ◌||◌, List, [], ◌∷◌, ◌++◌, drop, if◌then◌else◌, ◌==◌, arith,
  Bool-cases, inl, inr, All, All-append, All-map, append_assoc, append-nil, List-cases,
}
use attndb.Prelude.Text.{Bytes, codes, bytes_eq, has_prefix, split, join}
use attndb.Corpus.{is_indexable, is_hidden}
use attndb.Vault.Fault.{done}
use attndb.Vault.Path.{clean_from, clean, any_hidden, checked_name, vault_name}

-- No slash stands in the component.
abbrev Unslashed : Bytes → Type 0
Unslashed = All (λ c. (c == b'/') ≡ false)

abbrev Part : Bytes → Type 0
Part part = Unslashed part × (bytes_eq part [] ≡ false)

-- A component that is not empty, and not hidden, so that it is neither "." nor "..".
abbrev pub Plain : Bytes → Type 0
Plain part = (bytes_eq part [] ≡ false) × (is_hidden part ≡ false)

split-Unslashed : (s : Bytes) → All Unslashed (split b'/' s)
unfolding split
split-Unslashed [] = (tt, tt)
split-Unslashed (c ∷ s) = elim (List-cases (split b'/' s)) [
  | inl e ↦ rw (e, split) (tt, tt)
  | inr (p, ps, e) ↦
      let below = rw e at (split-Unslashed s) in
      elim (Bool-cases (c == b'/')) [
        | inl slash ↦ rw (e, split) (rw (slash, if◌then◌else◌) (tt, below))
        | inr other ↦ rw (e, split) (rw (other, if◌then◌else◌) ((other, below.0), below.1))
      ]
]

split-join :
    (part : Bytes) (parts : List Bytes)
    → All Unslashed (part ∷ parts)
    → split b'/' (join (b'/' ∷ []) (part ∷ parts)) ≡ part ∷ parts
unfolding split join
split-join [] [] h = refl
split-join (c ∷ part) [] h =
    rw (split-join part [] (h.0.1, tt), split) (rw (h.0.0, if◌then◌else◌) refl)
split-join [] (q ∷ parts) h = rw (split-join q parts h.1, split) refl
split-join (c ∷ part) (q ∷ parts) h =
    rw (split-join part (q ∷ parts) (h.0.1, h.1), split) (rw (h.0.0, if◌then◌else◌) refl)

climb-Part : (kept : List Bytes) → All Part kept → All Part (drop 1 kept)
climb-Part [] k = tt
climb-Part (part ∷ kept) k = k.1

clean_from-Part :
    (kept parts : List Bytes)
    → All Part kept
    → All Unslashed parts
    → All Part (clean_from kept parts)
unfolding clean_from
clean_from-Part kept [] k h = k
clean_from-Part kept (part ∷ parts) k h =
    elim (Bool-cases (bytes_eq part [] || bytes_eq part (codes "."))) [
      | inl skip ↦ rw skip (clean_from-Part kept parts k h.1)
      | inr real ↦ elim (Bool-cases (bytes_eq part (codes ".."))) [
        | inl up ↦ rw (real, up) (clean_from-Part (drop 1 kept) parts (climb-Part kept k) h.1)
        | inr down ↦
            let full : bytes_eq part [] ≡ false = ground arith in
            rw (real, down) (clean_from-Part (part ∷ kept) parts ((h.0, full), k) h.1)
      ]
    ]

no_dots :
    (part : Bytes)
    → Plain part
    → ((bytes_eq part [] || bytes_eq part (codes ".")) ≡ false)
      × (bytes_eq part (codes "..") ≡ false)
unfolding is_hidden bytes_eq has_prefix
no_dots [] h = absurd (cc h.0)
no_dots (c ∷ part) h = ground arith

clean_from-Plain :
    (kept parts : List Bytes) → All Plain parts → clean_from kept parts ≡ reverse parts ++ kept
unfolding clean_from
clean_from-Plain kept [] h = refl
clean_from-Plain kept (part ∷ parts) h =
    let (real, down) = no_dots part h.0 in
    rw (real, down)
      (clean_from-Plain (part ∷ kept) parts h.1
        ∙ rw reverse-cons (sym (append_assoc (reverse parts) (part ∷ []) kept)))

reverse-Part : (parts : List Bytes) → All Part parts → All Part (reverse parts)
reverse-Part [] h = tt
reverse-Part (part ∷ parts) h =
    rw reverse-cons (All-append Part (reverse parts) (part ∷ []) (reverse-Part parts h.1) (h.0, tt))

Part-Plain : (parts : List Bytes) → All Part parts → any_hidden parts ≡ false → All Plain parts
unfolding any_hidden
Part-Plain [] h e = tt
Part-Plain (part ∷ parts) h e =
    let here : is_hidden part ≡ false = ground arith in
    ((h.0.1, here), Part-Plain parts h.1 (ground arith))

Part-Unslashed : (parts : List Bytes) → All Part parts → All Unslashed parts
Part-Unslashed parts h = All-map (λ part g. g.0) parts h

-- What a name that passes the checks is like.
checked_name-done :
    (name out : Bytes)
    → checked_name name ≡ done out
    → (name ≡ out)
      × (bytes_eq name [] ≡ false)
      × (is_indexable name ≡ true)
      × (any_hidden (split b'/' name) ≡ false)
unfolding checked_name
checked_name-done name out e = ground arith

clean_from-empty : (parts : List Bytes) → clean_from [] ([] ∷ parts) ≡ clean_from [] parts
unfolding clean_from bytes_eq
clean_from-empty parts = refl

split-slash :
    (part : Bytes) (parts : List Bytes) (name : Bytes)
    → split b'/' name ≡ part ∷ parts
    → split b'/' (b'/' ∷ name) ≡ [] ∷ part ∷ parts
unfolding split
split-slash part parts name e = rw (e, split) refl

-- A clean path is left as it is.
clean-join :
    (part : Bytes) (parts : List Bytes)
    → All Unslashed (part ∷ parts)
    → All Plain (part ∷ parts)
    → clean (b'/' ∷ join (b'/' ∷ []) (part ∷ parts)) ≡ part ∷ parts
unfolding clean
clean-join part parts unslashed plain =
    ap reverse (
      ap (clean_from [])
        (split-slash part parts (join (b'/' ∷ []) (part ∷ parts)) (split-join part parts unslashed))
      ∙ clean_from-empty (part ∷ parts)
      ∙ clean_from-Plain [] (part ∷ parts) plain
      ∙ append-nil (reverse (part ∷ parts)))
    ∙ reverse-reverse (part ∷ parts)

clean-Part : (p : Bytes) → All Part (clean p)
unfolding clean
clean-Part p =
    reverse-Part (clean_from [] (split b'/' p))
      (clean_from-Part [] (split b'/' p) tt (split-Unslashed p))

-- The name that joins some components, once it has passed the checks.
joined-Plain :
    (parts : List Bytes) (name : Bytes)
    → All Part parts
    → checked_name (join (b'/' ∷ []) parts) ≡ done name
    → All Plain (split b'/' name)
      × (is_indexable name ≡ true)
      × (checked_name (join (b'/' ∷ []) (clean (b'/' ∷ name))) ≡ done name)
joined-Plain [] name h e =
    absurd (unfold join bytes_eq in cc ((checked_name-done (join (b'/' ∷ []) []) name e).1))
joined-Plain (part ∷ parts) name h e =
    let (same, full, markdown, shown) =
      checked_name-done (join (b'/' ∷ []) (part ∷ parts)) name e in
    let unslashed = Part-Unslashed (part ∷ parts) h in
    let apart = split-join part parts unslashed in
    let plain = Part-Plain (part ∷ parts) h (rw apart at shown) in
    rw (← same) (
      rw apart plain,
      markdown,
      rw (clean-join part parts unslashed plain) (e ∙ ap done (sym same)),
    )

-- A name that `vaultName` gives has no empty component and no hidden one, so neither "." nor "..",
-- and ends in ".md"; as an absolute path it gives the same name again.
pub vault_name-Plain :
    (p name : Bytes)
    → vault_name p ≡ done name
    → All Plain (split b'/' name)
      × (is_indexable name ≡ true)
      × (vault_name (b'/' ∷ name) ≡ done name)
unfolding vault_name
vault_name-Plain p name e = elim (Bool-cases (has_prefix p (codes "/"))) [
  | inl absolute ↦ joined-Plain (clean p) name (clean-Part p) (rw absolute at e)
  | inr relative ↦ absurd (cc (rw relative at e))
]
