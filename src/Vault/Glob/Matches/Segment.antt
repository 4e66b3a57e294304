-- ===== src/Vault/Glob/Matches/Segment.antt =====
-- The expression of one segment of a pattern.
use attndb.Prelude.{
  ℕ, ◌≡◌, ◌≢◌, refl, ap, Bool, true, false, [], ◌∷◌, ◌++◌, ◌||◌, ◌&&◌, subst, ◌⊎◌, if◌then◌else◌,
  ◌==◌, arith, Bool-cases, inl, inr,
}
use attndb.Vault.Glob.{Runes, Behind, not_slash, many, one_of, run, char_item, segment_items}
use attndb.Vault.Glob.Matches.{InSegment, nil, star_end, star_more, one, same}

-- The text starts with something that the segment matches, and what follows is accepted.
pub record Split (p : Runes) (k : Behind) (s : Runes) : Type 0 where
  pub front : Runes
  pub back : Runes
  pub joined : s ≡ front ++ back
  pub matched : InSegment p front
  pub accepted : k back ≡ true

pub or_true : (a b : Bool) → (a || b) ≡ true → (a ≡ true) ⊎ (b ≡ true)
or_true true b h = inl refl
or_true false b h = inr h

pub or_left : (a b : Bool) → a ≡ true → (a || b) ≡ true
or_left a b h = ground (arith, h)

pub or_right : (a b : Bool) → b ≡ true → (a || b) ≡ true
or_right true b h = refl
or_right false b h = h

pub and_true : (a b : Bool) → (a && b) ≡ true → (a ≡ true) × (b ≡ true)
and_true true b h = (refl, h)
and_true false b h = absurd (cc)

pub is_plain : (c : ℕ) → not_slash c ≡ true → c ≢ b'/'
is_plain c h = ground arith

pub plain_is : (c : ℕ) → c ≢ b'/' → not_slash c ≡ true
plain_is c h = ground arith

star_splits :
    (p : Runes) (k l : Behind)
    → ((s : Runes) → k s ≡ true → Split p l s)
    → (s : Runes) → many not_slash k s ≡ true
    → Split (b'*' ∷ p) l s
unfolding many
star_splits p k l ends [] h =
    let e = ends [] h in
    record {
      front = e.front;
      back = e.back;
      joined = e.joined;
      matched = star_end e.matched;
      accepted = e.accepted;
    }
star_splits p k l ends (c ∷ s) h =
    elim (or_true (k (c ∷ s)) (not_slash c && many not_slash k s) h) [
      | inl now ↦
          let e = ends (c ∷ s) now in
          record {
            front = e.front;
            back = e.back;
            joined = e.joined;
            matched = star_end e.matched;
            accepted = e.accepted;
          }
      | inr later ↦
          let (plain, rest) = and_true (not_slash c) (many not_slash k s) later in
          let e = star_splits p k l ends s rest in
          record {
            front = c ∷ e.front;
            back = e.back;
            joined = ap (λ t. c ∷ t) e.joined;
            matched = star_more c (is_plain c plain) e.matched;
            accepted = e.accepted;
          }
    ]

one_splits :
    (p : Runes) (k l : Behind)
    → ((s : Runes) → k s ≡ true → Split p l s)
    → (s : Runes) → one_of not_slash k s ≡ true
    → Split (b'?' ∷ p) l s
unfolding one_of
one_splits p k l ends [] h = absurd (cc)
one_splits p k l ends (c ∷ s) h =
    let (plain, rest) = and_true (not_slash c) (k s) h in
    let e = ends s rest in
    record {
      front = c ∷ e.front;
      back = e.back;
      joined = ap (λ t. c ∷ t) e.joined;
      matched = one c (is_plain c plain) e.matched;
      accepted = e.accepted;
    }

same_splits :
    (c : ℕ) (p : Runes) (k l : Behind)
    → ((s : Runes) → k s ≡ true → Split p l s)
    → (s : Runes) → c ≢ b'*'
    → c ≢ b'?'
    → one_of (λ x. x == c) k s ≡ true
    → Split (c ∷ p) l s
unfolding one_of
same_splits c p k l ends [] a b h = absurd (cc)
same_splits c p k l ends (d ∷ s) a b h =
    let (equal, rest) = and_true (d == c) (k s) h in
    let e = ends s rest in
    let here : d ≡ c = ground arith in
    record {
      front = c ∷ e.front;
      back = e.back;
      joined = cc (here, e.joined);
      matched = same c a b e.matched;
      accepted = e.accepted;
    }

pub segment_splits :
    (p : Runes) (k : Behind) (s : Runes) → run (segment_items p) k s ≡ true → Split p k s
unfolding run segment_items char_item one_of
segment_splits [] k s h = record {
  front = [];
  back = s;
  joined = refl;
  matched = nil;
  accepted = h;
}
segment_splits (c ∷ p) k s h = elim (Bool-cases (c == b'*')) [
  | inl star ↦
      let e : b'*' ≡ c = ground arith in
      subst (λ x. Split (x ∷ p) k s) e
        (star_splits p (run (segment_items p) k) k (segment_splits p k) s
          (rw (star, if◌then◌else◌) at (h)))
  | inr no_star ↦ elim (Bool-cases (c == b'?')) [
    | inl mark ↦
        let e : b'?' ≡ c = ground arith in
        subst (λ x. Split (x ∷ p) k s) e
          (one_splits p (run (segment_items p) k) k (segment_splits p k) s
            (rw (mark, if◌then◌else◌) at (rw (no_star, if◌then◌else◌) at (h))))
    | inr no_mark ↦
        same_splits c p (run (segment_items p) k) k (segment_splits p k) s (ground arith)
          (ground arith) (rw (no_mark, if◌then◌else◌) at (rw (no_star, if◌then◌else◌) at (h)))
  ]
]

-- The other way round.
many_finds : (k : Behind) (s : Runes) → k s ≡ true → many not_slash k s ≡ true
unfolding many
many_finds k [] h = h
many_finds k (c ∷ s) h = or_left (k (c ∷ s)) (not_slash c && many not_slash k s) h

pub segment_joins :
    {p a : Runes} (k : Behind) (s : Runes)
    → InSegment p a
    → k s ≡ true
    → run (segment_items p) k (a ++ s) ≡ true
unfolding run segment_items char_item one_of many
segment_joins k s nil h = h
segment_joins k s (star_end {p = p} {s = a} m) h =
    many_finds (run (segment_items p) k) (a ++ s) (segment_joins k s m h)
segment_joins k s (star_more {p = p} {s = a} c plain m) h =
    or_right (run (segment_items p) k (c ∷ a ++ s))
      (not_slash c && many not_slash (run (segment_items p) k) (a ++ s))
      (rw (plain_is c plain) (segment_joins k s m h))
segment_joins k s (one c plain m) h = rw (plain_is c plain) (segment_joins k s m h)
segment_joins k s (same {p = p} {s = t} c a b m) h =
    let no_star : (c == b'*') ≡ false = ground arith in
    let no_mark : (c == b'?') ≡ false = ground arith in
    let here : (c == c) ≡ true = ground arith in
    rw (no_star, if◌then◌else◌) (rw (no_mark, if◌then◌else◌) (rw here (segment_joins k s m h)))
