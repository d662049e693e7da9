-- ===== src/Imgthumbs/Chain.antt =====
-- The doubly linked lists of examples/imgthumbs/src/thumbs.c: what it is for a store to hold one, and
-- what writes to the store do to it.
use libresman.Base.{
  ℕ, ◌≡◌, ◌≢◌, refl, sym, ap, ◌∙◌, subst, Option, none, some, List, [], ◌∷◌, ◌++◌, arith,
}
use libresman.Imgthumbs.{Thumbnail, update}

-- None of the blocks `ns` is `n`; all of the blocks differ.
abbrev pub Apart : ℕ → List ℕ → Type 0
Apart n [] = Unit {0}
Apart n (m ∷ ms) = (n ≢ m) × Apart n ms

abbrev pub Distinct : List ℕ → Type 0
Distinct [] = Unit {0}
Distinct (n ∷ ns) = Apart n ns × Distinct ns

pub ne_sym : {n m : ℕ} → n ≢ m → m ≢ n
ne_sym h e = h (sym e)

pub Apart-append : (n : ℕ) (ms ns : List ℕ) → Apart n ms → Apart n ns → Apart n (ms ++ ns)
Apart-append n [] ns h k = k
Apart-append n (m ∷ ms) ns h k = (h.0, Apart-append n ms ns h.1 k)

pub Apart-parts : (n : ℕ) (ms ns : List ℕ) → Apart n (ms ++ ns) → Apart n ms × Apart n ns
Apart-parts n [] ns h = (tt, h)
Apart-parts n (m ∷ ms) ns h = let (l, r) = Apart-parts n ms ns h.1 in ((h.0, l), r)

-- Each of the blocks `bs` is apart from the blocks `ns`.
abbrev pub Each : List ℕ → List ℕ → Type 0
Each [] ns = Unit {0}
Each (b ∷ bs) ns = Apart b ns × Each bs ns

Each-cons : (bs : List ℕ) (n : ℕ) (ns : List ℕ) → Each bs (n ∷ ns) → Apart n bs × Each bs ns
Each-cons [] n ns h = (tt, tt)
Each-cons (b ∷ bs) n ns h = let (l, r) = Each-cons bs n ns h.1 in ((ne_sym h.0.0, l), (h.0.1, r))

cons-Each : (bs : List ℕ) (n : ℕ) (ns : List ℕ) → Apart n bs → Each bs ns → Each bs (n ∷ ns)
cons-Each [] n ns h k = tt
cons-Each (b ∷ bs) n ns h k = ((ne_sym h.0, k.0), cons-Each bs n ns h.1 k.1)

Each-nil : (bs : List ℕ) → Each bs []
Each-nil [] = tt
Each-nil (b ∷ bs) = (tt, Each-nil bs)

pub Distinct-right : (pre bs : List ℕ) → Distinct (pre ++ bs) → Distinct bs
Distinct-right [] bs h = h
Distinct-right (a ∷ pre) bs h = Distinct-right pre bs h.1

pub Distinct-Each : (pre bs : List ℕ) → Distinct (pre ++ bs) → Each bs pre
Distinct-Each [] bs h = Each-nil bs
Distinct-Each (a ∷ pre) bs h =
    cons-Each bs a pre (Apart-parts a pre bs h.0).1 (Distinct-Each pre bs h.1)

pub Distinct-drop :
    (pre : List ℕ) (a n : ℕ) (bs : List ℕ) → Distinct (pre ++ a ∷ n ∷ bs) → Distinct (pre ++ a ∷ bs)
Distinct-drop [] a n bs h = (h.0.1, h.1.1)
Distinct-drop (x ∷ pre) a n bs h =
    let (l, r) = Apart-parts x pre (a ∷ n ∷ bs) h.0 in
    (Apart-append x pre (a ∷ bs) l (r.0, r.1.1), Distinct-drop pre a n bs h.1)

abbrev pub Cells : Type 0 → Type 0
Cells F = ℕ → Option (Thumbnail F)

module _ {F : Type 0} where
  -- The blocks `ns` are the nodes from `p` on, each with its pointers to the next and to the one
  -- before, which is `prev` for the first.
  abbrev pub Chain : Cells F → Option ℕ → Option ℕ → List ℕ → Type 0
  Chain cell prev p [] = p ≡ none
  Chain cell prev p (n ∷ ns) =
      (p ≡ some n)
      × ((t : Thumbnail F) × (cell n ≡ some t) × (t.prev ≡ prev) × Chain cell (some n) t.next ns)

  pub update_self : (cell : Cells F) (n : ℕ) (v : Option (Thumbnail F)) → update cell n v n ≡ v
  update_self cell n v = ground arith

  pub update_other :
      (cell : Cells F) (n : ℕ) (v : Option (Thumbnail F)) (m : ℕ)
      → n ≢ m
      → update cell n v m ≡ cell m
  update_other cell n v m h = ground arith

  pub same_cell : {o : Option (Thumbnail F)} {t u : Thumbnail F} → o ≡ some t → o ≡ some u → t ≡ u
  same_cell e e' = cc

  -- The same blocks hold the same in both.
  abbrev pub Agree : Cells F → Cells F → List ℕ → Type 0
  Agree cell cell' [] = Unit {0}
  Agree cell cell' (n ∷ ns) = (cell' n ≡ cell n) × Agree cell cell' ns

  pub Agree-update :
      (cell : Cells F) (n : ℕ) (v : Option (Thumbnail F)) (ns : List ℕ)
      → Apart n ns
      → Agree cell (update cell n v) ns
  Agree-update cell n v [] h = tt
  Agree-update cell n v (m ∷ ms) h = (update_other cell n v m h.0, Agree-update cell n v ms h.1)

  pub Agree-trans : (a b c : Cells F) (ns : List ℕ) → Agree a b ns → Agree b c ns → Agree a c ns
  Agree-trans a b c [] h k = tt
  Agree-trans a b c (n ∷ ns) h k = (k.0 ∙ h.0, Agree-trans a b c ns h.1 k.1)

  -- What changes only at blocks that are apart from `ns` is the same on `ns`.
  pub Agree-frame :
      (cell cell' : Cells F) (bs ns : List ℕ)
      → Each bs ns
      → ((k : ℕ) → Apart k bs → cell' k ≡ cell k)
      → Agree cell cell' ns
  Agree-frame cell cell' bs [] h f = tt
  Agree-frame cell cell' bs (n ∷ ns) h f =
      let (l, r) = Each-cons bs n ns h in (f n l, Agree-frame cell cell' bs ns r f)

  pub Chain-Agree :
      (cell cell' : Cells F) (prev p : Option ℕ) (ns : List ℕ)
      → Agree cell cell' ns
      → Chain cell prev p ns
      → Chain cell' prev p ns
  Chain-Agree cell cell' prev p [] a c = c
  Chain-Agree cell cell' prev p (n ∷ ns) a (e, (t, at, back, rest)) =
      (e, (t, a.0 ∙ at, back, Chain-Agree cell cell' (some n) t.next ns a.1 rest))

  -- Two neighbours in a list.
  pub Chain-pair :
      (cell : Cells F) (prev p : Option ℕ) (pre : List ℕ) (a n : ℕ) (bs : List ℕ)
      → Chain cell prev p (pre ++ a ∷ n ∷ bs)
      → (ta : Thumbnail F) × (tn : Thumbnail F) × (cell a ≡ some ta)
        × (cell n ≡ some tn)
        × (tn.prev ≡ some a)
        × Chain cell (some n) tn.next bs
  Chain-pair cell prev p [] a n bs (_, (ta, at_a, _, (_, (tn, at_n, back, rest)))) =
      (ta, tn, at_a, at_n, back, rest)
  Chain-pair cell prev p (x ∷ pre) a n bs (_, (t, _, _, rest)) =
      Chain-pair cell (some x) t.next pre a n bs rest

  -- The first of the nodes `bs` has `a` before it now.
  abbrev pub Relinked : Cells F → Cells F → ℕ → List ℕ → Type 0
  Relinked cell cell' a [] = Unit {0}
  Relinked cell cell' a (b ∷ bs) =
      (t : Thumbnail F) × (cell b ≡ some t)
      × (cell' b ≡ some (record t { prev = some a }))
      × Agree cell cell' bs

  Chain-relink :
      (cell cell' : Cells F) (prev p : Option ℕ) (a : ℕ) (bs : List ℕ)
      → Relinked cell cell' a bs
      → Chain cell prev p bs
      → Chain cell' (some a) p bs
  Chain-relink cell cell' prev p a [] r c = c
  Chain-relink cell cell' prev p a (b ∷ bs) (u, was, now, same) (e, (t, at, back, rest)) =
      let one : u ≡ t = same_cell was at in
      (
        e,
        (
          record u { prev = some a },
          now,
          refl,
          subst (λ (v : Thumbnail F). Chain cell' (some b) v.next bs) (sym one)
              (Chain-Agree cell cell' (some b) t.next bs same rest),
        ),
      )

  -- The node `n` is left out.
  pub Chain-skip :
      (cell cell' : Cells F) (prev p : Option ℕ) (pre : List ℕ) (a n : ℕ) (bs : List ℕ)
      (ta tn : Thumbnail F)
      → Chain cell prev p (pre ++ a ∷ n ∷ bs)
      → cell a ≡ some ta
      → cell n ≡ some tn
      → cell' a ≡ some (record ta { next = tn.next })
      → Agree cell cell' pre
      → Relinked cell cell' a bs
      → Chain cell' prev p (pre ++ a ∷ bs)
  Chain-skip cell cell' prev p [] a n bs ta tn (e, (t, at, back, (_, (u, at_n, _, rest)))) at_a is_n
        now same r =
      let one : t ≡ ta = same_cell at at_a in
      let two : u ≡ tn = same_cell at_n is_n in
      (
        e,
        (
          record ta { next = tn.next },
          now,
          ap (λ (v : Thumbnail F). v.prev) (sym one) ∙ back,
          Chain-relink cell cell' (some n) tn.next a bs r
              (subst (λ (v : Thumbnail F). Chain cell (some n) v.next bs) two rest),
        ),
      )
  Chain-skip cell cell' prev p (x ∷ pre) a n bs ta tn (e, (t, at, back, rest)) at_a is_n now same
        r =
      (
        e,
        (
          t,
          same.0 ∙ at,
          back,
          Chain-skip cell cell' (some x) t.next pre a n bs ta tn rest at_a is_n now same.1 r,
        ),
      )

  -- A valid list from `p` on, with the nodes `ns`.
  pub record IsList (cell : Cells F) (p : Option ℕ) (ns : List ℕ) : Type 0 where
    pub linked : Chain cell none p ns
    pub distinct : Distinct ns
