-- ===== src/Paths/Tests.antt =====
-- Runs of the model of `clean_path`.
use libresman.Base.{ℕ, ◌≡◌, ◌≢◌, refl, List, [], ◌∷◌, some, ok, out_of_bounds}
use libresman.Paths.Clean.{Full, buffer}
use libresman.Paths.Reference.{resolve}
use libresman.Paths.Written.{Writes}
use libresman.Paths.Meant.{clean_path-resolve}
use libresman.Paths.Ends.{Ends, clean_path-Ends}
use libresman.Paths.{
  clean_path, remove_dots, to_backslashes, part_at, part_behind, part_of_dots, parent,
}

nonzero_first : (c : ℕ) (cs : List ℕ) → c ≢ 0 → Full cs → Full (c ∷ cs)
nonzero_first c cs ne f = (ne, f)

-- "a/./b" comes to "a\b\b": there is no zero behind what was written.
tail_left : clean_path (97 ∷ 47 ∷ 46 ∷ 47 ∷ 98 ∷ 0 ∷ []) ≡ ok (97 ∷ 92 ∷ 98 ∷ 92 ∷ 98 ∷ 0 ∷ [])
unfolding clean_path remove_dots to_backslashes part_at part_behind part_of_dots
tail_left = refl

-- "\..\b" leaves the buffer.
before_buffer : clean_path (92 ∷ 46 ∷ 46 ∷ 92 ∷ 98 ∷ 0 ∷ []) ≡ out_of_bounds
unfolding clean_path remove_dots to_backslashes part_at part_behind part_of_dots parent
before_buffer = refl

a_text : Full (97 ∷ 47 ∷ 46 ∷ 47 ∷ 98 ∷ [])
a_text =
    nonzero_first 97 (47 ∷ 46 ∷ 47 ∷ 98 ∷ []) (λ e. cc e)
      (nonzero_first 47 (46 ∷ 47 ∷ 98 ∷ []) (λ e. cc e)
        (nonzero_first 46 (47 ∷ 98 ∷ []) (λ e. cc e)
          (nonzero_first 47 (98 ∷ []) (λ e. cc e) (nonzero_first 98 [] (λ e. cc e) tt))))

clean_path-Ends_example :
    Ends (97 ∷ 47 ∷ 46 ∷ 47 ∷ 98 ∷ []) (clean_path (97 ∷ 47 ∷ 46 ∷ 47 ∷ 98 ∷ 0 ∷ []))
clean_path-Ends_example = clean_path-Ends (97 ∷ 47 ∷ 46 ∷ 47 ∷ 98 ∷ []) a_text

-- "a/./b" means "a\b", behind which "\b" is left.
clean_path-resolve_example :
    (ds : List ℕ) × (to_backslashes (97 ∷ 47 ∷ 46 ∷ 47 ∷ 98 ∷ 0 ∷ []) ≡ buffer ds)
    × Writes (resolve 0 0 [] ds) 5 (clean_path (97 ∷ 47 ∷ 46 ∷ 47 ∷ 98 ∷ 0 ∷ []))
clean_path-resolve_example = clean_path-resolve (97 ∷ 47 ∷ 46 ∷ 47 ∷ 98 ∷ []) a_text

meant : resolve 0 0 [] (97 ∷ 92 ∷ 46 ∷ 92 ∷ 98 ∷ []) ≡ some (98 ∷ 92 ∷ 97 ∷ [])
meant = refl
