-- ===== src/Command/Calibration/Saved.antt =====
-- What loading gives back after a calibration has been saved.
use attndb.Prelude.{◌≡◌, refl, ap, ◌∙◌, false, Option, none, some, Option-cases, inl, inr}
use attndb.Prelude.Text.{Bytes, bytes_eq, bytes_eq_refl}
use attndb.Prelude.Dict.{Dict, lookup, insert, lookup-insert}
use attndb.Core.Floats.{Floats}
use attndb.Reconcile.Index.{Error}
use attndb.Command.Calibration.{
  Calibration, CalibFile, CalibFileLaws, ReadResult, missing, unreadable, content, loaded,
  loaded_from, load_calibration, stored, save_calibration,
}

module _ (F : Floats) (C : CalibFile F) (L : CalibFileLaws F C) where
  loaded_from_ok :
      (j : Bytes) (r : Error × Dict (Calibration F))
      → r.0 ≡ none
      → loaded_from F C j r ≡ loaded (lookup j r.1)
  unfolding loaded_from
  loaded_from_ok j (e, cf) ok = rw (ok, loaded_from) refl

  -- What is loaded after a save that ends without an error.
  load-save :
      (encoder j : Bytes) (c : Calibration F) (s : C.State)
      → (save_calibration F C encoder c s).0 ≡ none
      → load_calibration F C j (save_calibration F C encoder c s).1
        ≡ loaded (lookup j (insert encoder c (stored F C s)))
  unfolding save_calibration load_calibration
  load-save encoder j c s ok = elim (Option-cases (C.encode (insert encoder c (stored F C s)))) [
    | inl bad ↦ absurd (cc (rw (bad, save_calibration) at (ok)))
    | inr (b, e) ↦
        let wrote = rw (e, save_calibration) at (ok) in
        rw (e, save_calibration)
          (rw (L.written b s wrote, load_calibration)
            (loaded_from_ok j (C.decode b) (L.decodes (insert encoder c (stored F C s)) b e)
              ∙ ap loaded (L.entries (insert encoder c (stored F C s)) b e j)))
  ]

  loaded_from-lookup :
      (j : Bytes) (x : Option (Calibration F)) (r : Error × Dict (Calibration F))
      → loaded_from F C j r ≡ loaded x
      → lookup j r.1 ≡ x
  unfolding loaded_from
  loaded_from-lookup j x (none, cf) e = cc
  loaded_from-lookup j x (some m, cf) e = absurd (cc)

  -- What can be loaded is what the next save starts from.
  loaded-stored :
      (j : Bytes) (x : Option (Calibration F)) (s : C.State) (r : ReadResult)
      → C.read s ≡ r
      → load_calibration F C j s ≡ loaded x
      → lookup j (stored F C s) ≡ x
  unfolding load_calibration stored lookup
  loaded-stored j x s missing read e =
      let f = rw (read, load_calibration) at (e) in rw (read, stored) (cc)
  loaded-stored j x s (unreadable m) read e =
      let f = rw (read, load_calibration) at (e) in absurd (cc)
  loaded-stored j x s (content b) read e =
      rw (read, stored) (loaded_from-lookup j x (C.decode b) (rw (read, load_calibration) at (e)))

  -- After a calibration has been saved without an error, loading gives it back for its encoder, and
  -- for every other encoder what loading gave before, if that was no error.
  pub save-load :
      (encoder : Bytes) (c : Calibration F) (s : C.State)
      → (save_calibration F C encoder c s).0 ≡ none
      → (load_calibration F C encoder (save_calibration F C encoder c s).1 ≡ loaded (some c))
        × ((j : Bytes) (x : Option (Calibration F))
            → bytes_eq encoder j ≡ false
            → load_calibration F C j s ≡ loaded x
            → load_calibration F C j (save_calibration F C encoder c s).1 ≡ loaded x)
  save-load encoder c s ok = (
    load-save encoder encoder c s ok ∙ rw (lookup-insert, bytes_eq_refl) refl,
    λ j x apart before.
        load-save encoder j c s ok
        ∙ rw (lookup-insert, apart) (ap loaded (loaded-stored j x s (C.read s) refl before)),
  )
