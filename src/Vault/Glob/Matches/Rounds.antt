-- ===== src/Vault/Glob/Matches/Rounds.antt =====
-- The expressions of `**`.
use attndb.Prelude.{
  ◌≡◌, ◌≢◌, refl, sym, ap, true, false, [], ◌∷◌, ◌++◌, ◌&&◌, subst, if◌then◌else◌, ◌==◌, arith, All,
  Bool-cases, inl, inr,
}
use attndb.Vault.Glob.{Runes, Behind, not_slash, not_newline, many, many_segments, at_end}
use attndb.Vault.Glob.Matches.{IsSegment}
use attndb.Vault.Glob.Matches.Segment.{or_true, or_left, or_right, and_true, is_plain, plain_is}

-- `.*` at the end.
pub anything_plain : (s : Runes) → many not_newline at_end s ≡ true → All (λ c. c ≢ b'\n') s
unfolding many at_end
anything_plain [] h = tt
anything_plain (c ∷ s) h =
    let (plain, rest) = and_true (not_newline c) (many not_newline at_end s) h in
    (λ e. absurd (ground arith), anything_plain s rest)

pub plain_anything : (s : Runes) → All (λ c. c ≢ b'\n') s → many not_newline at_end s ≡ true
unfolding many at_end
plain_anything [] h = refl
plain_anything (c ∷ s) (plain, rest) =
    let e : not_newline c ≡ true = ground arith in rw e (plain_anything s rest)

-- What `(?:[^/]+/)*` reads, where `M` holds of what is read with no round, and with one round more.
pub record Round (M : Runes → Type 0) (s : Runes) : Type 0 where
  begun : Runes
  left : Runes
  joined : s ≡ begun ++ b'/' ∷ left
  plain : All (λ c. c ≢ b'/') begun
  holds : M left

module _ (k : Behind) (M : Runes → Type 0) (no_round : (s : Runes) → k s ≡ true → M s)
    (a_round : (a s : Runes) → IsSegment a → M s → M (a ++ b'/' ∷ s)) where
  pub rounds :
      (s : Runes)
      → (many_segments false k s ≡ true → M s) × (many_segments true k s ≡ true → Round M s)
  unfolding many_segments
  rounds [] = (no_round [], λ h. absurd (cc))
  rounds (c ∷ s) =
      let (fresh, inside) = rounds s in
      (
        λ h. elim (or_true (k (c ∷ s)) (not_slash c && many_segments true k s) h) [
          | inl now ↦ no_round (c ∷ s) now
          | inr later ↦
              let (plain, more) = and_true (not_slash c) (many_segments true k s) later in
              let r = inside more in
              subst M (sym (ap (λ t. c ∷ t) r.joined)) (
                a_round (c ∷ r.begun) r.left
                  (record { full = λ e. cc; plain = (is_plain c plain, r.plain) }) r.holds)
        ],
        λ h. elim (Bool-cases (c == b'/')) [
          | inl slash ↦
              let e : c ≡ b'/' = ground arith in
              record {
                begun = [];
                left = s;
                joined = ap (λ x. x ∷ s) e;
                plain = tt;
                holds = fresh (rw (slash, if◌then◌else◌) at (h));
              }
          | inr other ↦
              let r = inside (rw (other, if◌then◌else◌) at (h)) in
              record {
                begun = c ∷ r.begun;
                left = r.left;
                joined = ap (λ t. c ∷ t) r.joined;
                plain = (λ e. absurd (ground arith), r.plain);
                holds = r.holds;
              }
        ],
      )

inside_finds :
    (k : Behind) (a s : Runes)
    → All (λ c. c ≢ b'/') a
    → many_segments false k s ≡ true
    → many_segments true k (a ++ b'/' ∷ s) ≡ true
unfolding many_segments
inside_finds k [] s _ h = h
inside_finds k (c ∷ a) s (plain, more) h =
    let e : (c == b'/') ≡ false = ground arith in rw (e, if◌then◌else◌) (inside_finds k a s more h)

pub round_finds :
    (k : Behind) (a s : Runes)
    → IsSegment a
    → many_segments false k s ≡ true
    → many_segments false k (a ++ b'/' ∷ s) ≡ true
unfolding many_segments
round_finds k [] s seg h = absurd (seg.full refl)
round_finds k (c ∷ a) s seg h =
    or_right (k (c ∷ a ++ b'/' ∷ s)) (not_slash c && many_segments true k (a ++ b'/' ∷ s))
      (rw (plain_is c seg.plain.0) (inside_finds k a s seg.plain.1 h))

pub no_round_finds : (k : Behind) (s : Runes) → k s ≡ true → many_segments false k s ≡ true
unfolding many_segments
no_round_finds k [] h = h
no_round_finds k (c ∷ s) h = or_left (k (c ∷ s)) (not_slash c && many_segments true k s) h
