-- ===== src/Imgthumbs/Link.antt =====
-- The thumbnails of examples/imgthumbs/src/thumbs.c in their list: what puts one in.
use libresman.Base.{ℕ, ◌≡◌, ◌≢◌, refl, Option, none, some, List, [], ◌∷◌, ok, arith}
use libresman.Imgthumbs.{Floats, Thumbnail, Store, write_thumb, modify}
use libresman.Imgthumbs.Thumbs.{link_after}
use libresman.Imgthumbs.Chain.{Apart, Distinct, Chain, Agree-frame, Chain-Agree, IsList, ne_sym}

module _ {F : Type 0} where
  pub modify_lem :
      (s : Store F) (n : ℕ) (t : Thumbnail F) (f : Thumbnail F → Thumbnail F)
      → s.cell n ≡ some t
      → modify s (some n) f ≡ ok (write_thumb s n (some (f t)))
  modify_lem s n t f at = rw at refl

  -- A thumbnail without its place in the list.
  abbrev pub payload : Option (Thumbnail F) → Option (Thumbnail F)
  payload none = none
  payload (some t) = some (record t { prev = none; next = none })

  -- Only the thumbnails may differ.
  pub record SameRest (s s' : Store F) : Type 0 where
    pub names : s'.names ≡ s.names
    pub deleted : s'.deleted ≡ s.deleted
    pub depth : s'.depth ≡ s.depth

module _ (fl : Floats) (s : Store fl.Float) (h n : ℕ) (t : Thumbnail fl.Float) where
  -- What `link_after` comes to: the new node is the first behind the head `h`, and nothing else moves.
  abbrev pub Links : List ℕ → Type 0
  Links ns =
      (s' : Store fl.Float) × (link_after fl s (some h) n ≡ ok s')
      × IsList s'.cell (some h) (h ∷ n ∷ ns)
      × ((k : ℕ) → payload (s'.cell k) ≡ payload (s.cell k))
      × ((k : ℕ) → Apart k (h ∷ n ∷ ns) → s'.cell k ≡ s.cell k)
      × SameRest s s'

  link_after-alone :
      (th : Thumbnail fl.Float)
      → s.cell h ≡ some th
      → s.cell n ≡ some t
      → n ≢ h
      → th.prev ≡ none
      → th.next ≡ none
      → Links []
  unfolding link_after
  link_after-alone th at_h at_n ne first last =
      let t1 = record t { prev = some h } in
      let t2 = record t1 { next = th.next } in
      let s1 = write_thumb s n (some t1) in
      let s2 = write_thumb s1 n (some t2) in
      let th' = record th { next = some n } in
      let s' = write_thumb s2 h (some th') in
      (
        s',
        ground arith,
        record {
          linked = (refl, (th', ground arith, first, (refl, (t2, ground arith, refl, last))));
          distinct = ((ne_sym ne, tt), (tt, tt));
        },
        (λ k. ground (arith, at_h, at_n)),
        (λ k away. ground (arith, away.0, away.1.0)),
        record { names = refl; deleted = refl; depth = refl },
      )

  link_after-before :
      (th tm : Thumbnail fl.Float) (m : ℕ) (ms : List ℕ)
      → s.cell h ≡ some th
      → s.cell n ≡ some t
      → s.cell m ≡ some tm
      → th.prev ≡ none
      → th.next ≡ some m
      → Chain s.cell (some m) tm.next ms
      → Distinct (h ∷ n ∷ m ∷ ms)
      → Links (m ∷ ms)
  unfolding link_after
  link_after-before th tm m ms at_h at_n at_m first second rest d =
      let n_h : n ≢ h = ne_sym d.0.0 in
      let m_h : m ≢ h = ne_sym d.0.1.0 in
      let m_n : m ≢ n = ne_sym d.1.0.0 in
      let t1 = record t { prev = some h } in
      let t2 = record t1 { next = th.next } in
      let s1 = write_thumb s n (some t1) in
      let s2 = write_thumb s1 n (some t2) in
      let tm' = record tm { prev = some n } in
      let s3 = write_thumb s2 m (some tm') in
      let th' = record th { next = some n } in
      let s' = write_thumb s3 h (some th') in
      let frame : (k : ℕ) → Apart k (h ∷ n ∷ m ∷ []) → s'.cell k ≡ s.cell k =
        λ k away. ground (arith, away.0, away.1.0, away.1.1.0) in
      (
        s',
        ground arith,
        record {
          linked = (
            refl,
            (
              th',
              ground arith,
              first,
              (
                refl,
                (
                  t2,
                  ground arith,
                  refl,
                  (
                    second,
                    (
                      tm',
                      ground arith,
                      refl,
                      Chain-Agree s.cell s'.cell (some m) tm.next ms
                          (Agree-frame s.cell s'.cell (h ∷ n ∷ m ∷ []) ms
                            (d.0.1.1, (d.1.0.1, (d.1.1.0, tt))) frame)
                          rest,
                    ),
                  ),
                ),
              ),
            ),
          );
          distinct = d;
        },
        (λ k. ground (arith, at_h, at_n, at_m)),
        (λ k away. frame k (away.0, (away.1.0, (away.1.1.0, tt)))),
        record { names = refl; deleted = refl; depth = refl },
      )

  -- A new node put behind the head of a valid list of thumbnails gives a valid list in which it is the
  -- first behind the head and all others stand as before; all other fields of the thumbnails
  -- stay, and so does every thumbnail outside the list.
  pub link_after-IsList :
      (ns : List ℕ)
      → IsList s.cell (some h) (h ∷ ns)
      → Apart n (h ∷ ns)
      → s.cell n ≡ some t
      → Links ns
  link_after-IsList [] v away at_n =
      let (_, (th, at_h, first, last)) = v.linked in link_after-alone th at_h at_n away.0 first last
  link_after-IsList (m ∷ ms) v away at_n =
      let (_, (th, at_h, first, (second, (tm, at_m, _, rest)))) = v.linked in
      link_after-before th tm m ms at_h at_n at_m first second rest
        ((ne_sym away.0, v.distinct.0), (away.1, v.distinct.1))
