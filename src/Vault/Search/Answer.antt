-- ===== src/Vault/Search/Answer.antt =====
-- What an answer of search_vault may hold, and where its lines lead.
use attndb.Prelude.{
  ℕ, suc, ◌-◌, ◌≤◌, ◌<◌, ◌≡◌, refl, ◌⊎◌, inl, inr, true, false, ◌||◌, ◌&&◌, some, List, [], ◌∷◌,
  map, length, min, ltb, if◌then◌else◌, arith, Bool-cases, Option-cases, All, All-map, map-All,
  length-map, length-take,
}
use attndb.Prelude.Int.{ℤ, pos, negsuc}
use attndb.Prelude.Text.{Bytes, slice}
use attndb.Core.Spans.{Span}
use attndb.Core.Types.{Query}
use attndb.Core.Floats.{Floats}
use attndb.Heat.Accumulate.{Ranging}
use attndb.Pass.Lane.{Pool}
use attndb.Db.Compose.{Settings, Passes, Hit, search, gather, fuse, limited}
use attndb.Command.Results.{at_least, gate}
use attndb.Vault.Disk.{Disk}
use attndb.Vault.Lines.{max_int, clamped, read_window}
use attndb.Vault.Lines.Between.{Holds}
use attndb.Vault.Lines.Around.{read_window-Holds, line_of_mono}
use attndb.Vault.Search.{
  SearchInput, SearchHit, span_preview, search_hit, wanted_results, threshold, search_vault,
}

module _ (F : Floats) (D : Disk) where
  open F use {F64, zero64, lt64, eq64, widen}

  -- The line that a hit reports, and as many lines as lead to its last one, hold the text of its span,
  -- cut to the length that the file has now, which is less than the largest int.
  pub span_preview-Holds :
      (doc_id b : Bytes) (span : Span) (s : D.State)
      → D.read_file doc_id s ≡ some b
      → length b < max_int
      → Holds
          (read_window b (pos (span_preview F D doc_id span s).1) (
            pos (
              suc (span_preview F D doc_id span s).2 - (span_preview F D doc_id span s).1))).content
          (slice b (clamped span (length b)).start (clamped span (length b)).end)
  unfolding span_preview clamped
  span_preview-Holds doc_id b span s e small =
      rw (e, span_preview)
        (read_window-Holds b (min span.start (min span.end (length b))) (min span.end (length b))
          (omega arith) (omega arith) small)

  -- How many hits the input `k` asks for: 5 where it is not positive.
  pub data AsksFor : ℤ → ℕ → Type 0 where
    given : (n : ℕ) → AsksFor (pos (suc n)) (suc n)
    absent : AsksFor (pos 0) 5
    negative : (n : ℕ) → AsksFor (negsuc n) 5

  -- The least score that is asked for: the default of the server where the input is 0.
  pub data LeastScore (def_min : F64) : F64 → F64 → Type 0 where
    own : (low : F64) → eq64 low zero64 ≡ false → LeastScore def_min low low
    default : (low : F64) → eq64 low zero64 ≡ true → LeastScore def_min low def_min

  wanted_results-AsksFor : (k : ℤ) (n : ℕ) → AsksFor k n → (wanted_results F D k ≡ n) × (1 ≤ n)
  unfolding wanted_results
  wanted_results-AsksFor _ _ (given n) = (ground arith, omega arith)
  wanted_results-AsksFor _ _ absent = (refl, omega arith)
  wanted_results-AsksFor _ _ (negative n) = (ground arith, omega arith)

  threshold-LeastScore :
      (def_min given_min low : F64)
      → LeastScore def_min given_min low
      → threshold F D def_min given_min ≡ low
  unfolding threshold
  threshold-LeastScore def_min _ _ (own low e) = rw e refl
  threshold-LeastScore def_min _ _ (default low e) = rw e refl

  -- Where the gate is on, the score reaches it.
  abbrev pub Reaches : F64 → F64 → Type 0
  Reaches low score =
      ((lt64 low zero64 || eq64 low zero64) ≡ true) ⊎ ((lt64 low score || eq64 score low) ≡ true)

  at_least-All :
      (low : F64) (results : List (Hit F))
      → All
          (λ r. (lt64 low (widen r.score) || eq64 (widen r.score) low) ≡ true)
          (at_least F low results)
        × (length (at_least F low results) ≤ length results)
  unfolding at_least
  at_least-All low [] = (tt, omega arith)
  at_least-All low (r ∷ results) =
      let (all, short) = at_least-All low results in
      elim (Bool-cases (lt64 low (widen r.score) || eq64 (widen r.score) low)) [
        | inl kept ↦ rw (kept, if◌then◌else◌) ((kept, all), omega (arith, short))
        | inr out ↦ rw (out, if◌then◌else◌) (all, omega (arith, short))
      ]

  gate-Reaches :
      (low : F64) (results : List (Hit F))
      → All (λ r. Reaches low (widen r.score)) (gate F results low)
        × (length (gate F results low) ≤ length results)
  unfolding gate
  gate-Reaches low results = elim (Bool-cases (lt64 low zero64 || eq64 low zero64)) [
    | inl open_ ↦ rw (open_, if◌then◌else◌) (every results (λ r. inl refl), omega arith)
    | inr shut ↦
        let (all, short) = at_least-All low results in
        rw (shut, if◌then◌else◌) (All-map (λ r h. inr h) (at_least F low results) all, short)
  ]
    where
      every : {A : Type 0} {Q : A → Type 0} (xs : List A) → ((x : A) → Q x) → All Q xs
      every [] f = tt
      every (x ∷ xs) f = (f x, every xs f)

  length-limited :
      (limit : ℕ) (results : List (Hit F)) → 1 ≤ limit → length (limited F limit results) ≤ limit
  unfolding limited
  length-limited limit results one = elim (Bool-cases (ltb 0 limit && ltb limit (length results))) [
    | inl cut ↦ let n = length-take limit results in rw (cut, if◌then◌else◌) (omega (arith, n))
    | inr whole ↦ rw (whole, if◌then◌else◌) (ground arith)
  ]

  -- The range of lines is in order.
  hit_forward :
      (s : D.State) (r : Hit F) → (search_hit F D s r).start_line ≤ (search_hit F D s r).end_line
  unfolding search_hit span_preview clamped
  hit_forward s r = elim (Option-cases (D.read_file r.doc_id s)) [
    | inl gone ↦ rw (gone, span_preview) (omega arith)
    | inr (b, e) ↦
        rw (e, span_preview)
          (line_of_mono b (min r.span.start (min r.span.end (length b))) (min r.span.end (length b))
            (omega arith))
  ]

  found_length :
      (P : Pool F) (order : Ranging F) (d : Settings F) (q : Query) (limit : ℕ)
      (passes : Passes F P) (results : List (Hit F))
      → search F P order d q limit passes ≡ some results
      → 1 ≤ limit
      → length results ≤ limit
  unfolding search fuse
  found_length P order d q limit passes results e one =
      elim (Option-cases (gather F P d q passes)) [
        | inl failed ↦ absurd (cc (rw (failed, search) at (e)))
        | inr ((deposits, ex), ok) ↦
            let f = rw (ok, search) at (e) in
            let same : results ≡ fuse F order d deposits limit = cc in
            rw same (length-limited limit _ one)
      ]

  -- An answer has no more hits than were asked for, 5 where no positive number was asked for; each
  -- hit's score reaches the least score that was asked for, the server's default where that is 0,
  -- unless this bound is itself 0 or less; and its range of lines is in order.
  pub search_vault-Answer :
      (P : Pool F) (order : Ranging F) (d : Settings F) (def_min : F64) (i : SearchInput F D)
      (passes : Passes F P) (s : D.State) (hits : List (SearchHit F D)) (n : ℕ) (low : F64)
      → AsksFor i.k n
      → LeastScore def_min i.min_score low
      → search_vault F D P order d def_min i passes s ≡ some hits
      → (length hits ≤ n) × All (λ h. Reaches low h.score × (h.start_line ≤ h.end_line)) hits
  unfolding search_vault
  search_vault-Answer P order d def_min i passes s hits n low asks least e =
      let q : Query = record { text = i.query; filters = [] } in
      let (number, one) = wanted_results-AsksFor i.k n asks in
      let bound = threshold-LeastScore def_min i.min_score low least in
      elim (Option-cases (search F P order d q n passes)) [
        | inl failed ↦ absurd (cc (rw (number, failed, search_vault) at (e)))
        | inr (results, ok) ↦
            let f = rw (number, ok, search_vault) at (e) in
            let same : hits ≡ map (search_hit F D s) (gate F results low) = cc (f, bound) in
            let (reach, short) = gate-Reaches low results in
            let few = found_length P order d q n passes results ok one in
            rw same (
              rw length-map (omega (arith, short, few)),
              map-All (λ h. Reaches low h.score × (h.start_line ≤ h.end_line)) (search_hit F D s)
                  (gate F results low)
                  (All-map (λ r h. (scored r h, hit_forward s r)) (gate F results low) reach),
            )
      ]
    where
      scored : (r : Hit F) → Reaches low (widen r.score) → Reaches low (search_hit F D s r).score
      scored r h = unfold search_hit in h
