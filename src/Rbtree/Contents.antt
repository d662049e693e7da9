-- ===== src/Rbtree/Contents.antt =====
-- The entries of a tree of src/rbtree.c under the rotations, the colour flip and the repairs.
use mathlib.Core.List.{append_assoc}
use libresman.Base.{
  ◌≡◌, sym, ap, ◌∙◌, Bool, true, false, ◌&&◌, Exec, ok, null_deref, out_of_bounds, aborted, no_fuel,
  if◌then◌else◌, ◌∷◌, ◌++◌, inl, inr, Bool-cases,
}
use libresman.Base.Outcome.{◌>>=◌, ok_of_chain, ok-injective}
use libresman.Rbtree.{
  Tree, leaf, node, is_red, color_flip, rot_left, rot_right, red_pair, fix_right, fix_pair,
  split_four, fix_up, move_red_left, traverse,
}
use libresman.Rbtree.Removal.{lean_left, lean_right, turn_right}

module _ {ℓ κ} {K : Type ℓ} {D : Type κ} where
  traverse-color_flip :
      (t : Tree K D) {t' : Tree K D} → color_flip t ≡ ok t' → traverse t' ≡ traverse t
  unfolding color_flip traverse
  traverse-color_flip leaf h = cc
  traverse-color_flip (node c k d leaf r) h = cc
  traverse-color_flip (node c k d (node _ _ _ _ _) leaf) h = cc
  traverse-color_flip (node c k d (node _ _ _ _ _) (node _ _ _ _ _)) h =
      ap traverse (sym (ok-injective h))

  traverse-rot_left : (t : Tree K D) {t' : Tree K D} → rot_left t ≡ ok t' → traverse t' ≡ traverse t
  unfolding rot_left traverse
  traverse-rot_left leaf h = cc
  traverse-rot_left (node c k d l leaf) h = cc
  traverse-rot_left (node c k d l (node rc rk rd rl rr)) h =
      cc (append_assoc (traverse l) ((k, d) ∷ traverse rl) ((rk, rd) ∷ traverse rr))

  traverse-rot_right :
      (t : Tree K D) {t' : Tree K D} → rot_right t ≡ ok t' → traverse t' ≡ traverse t
  unfolding rot_right traverse
  traverse-rot_right leaf h = cc
  traverse-rot_right (node c k d leaf r) h = cc
  traverse-rot_right (node c k d (node lc lk ld ll lr) r) h =
      cc (append_assoc (traverse ll) ((lk, ld) ∷ traverse lr) ((k, d) ∷ traverse r))

  traverse-fix_right :
      (t : Tree K D) {t' : Tree K D} → fix_right t ≡ ok t' → traverse t' ≡ traverse t
  unfolding fix_right
  traverse-fix_right leaf h = cc
  traverse-fix_right (node c k d l r) h = elim (Bool-cases (is_red r)) [
    | inl e ↦ traverse-rot_left (node c k d l r) (rw e at h)
    | inr e ↦ ap traverse (sym (ok-injective (rw e at h)))
  ]

  traverse-fix_pair : (t : Tree K D) {t' : Tree K D} → fix_pair t ≡ ok t' → traverse t' ≡ traverse t
  unfolding fix_pair
  traverse-fix_pair t h = pick (red_pair t) h
    where
      pick :
          (b : Exec Bool) {t' : Tree K D}
          → (b >>= λ (p : Bool). if p then rot_right t else ok t) ≡ ok t'
          → traverse t' ≡ traverse t
      pick (ok true) h = traverse-rot_right t h
      pick (ok false) h = ap traverse (sym (ok-injective h))
      pick null_deref h = cc
      pick out_of_bounds h = cc
      pick aborted h = cc
      pick no_fuel h = cc

  traverse-split_four :
      (t : Tree K D) {t' : Tree K D} → split_four t ≡ ok t' → traverse t' ≡ traverse t
  unfolding split_four
  traverse-split_four leaf h = cc
  traverse-split_four (node c k d l r) h = elim (Bool-cases (is_red l && is_red r)) [
    | inl e ↦ traverse-color_flip (node c k d l r) (rw e at h)
    | inr e ↦ ap traverse (sym (ok-injective (rw e at h)))
  ]

  pub traverse-fix_up : (t : Tree K D) {t' : Tree K D} → fix_up t ≡ ok t' → traverse t' ≡ traverse t
  unfolding fix_up
  traverse-fix_up t h =
      let (t1, e1, h1) = ok_of_chain (fix_right t) _ h in
      let (t2, e2, h2) = ok_of_chain (fix_pair t1) _ h1 in
      traverse-split_four t2 h2 ∙ traverse-fix_pair t1 e2 ∙ traverse-fix_right t e1

  pub traverse-move_red_left :
      (t : Tree K D) {t' : Tree K D} → move_red_left t ≡ ok t' → traverse t' ≡ traverse t
  unfolding move_red_left traverse
  traverse-move_red_left leaf h = cc
  traverse-move_red_left (node c k d leaf r) h = cc
  traverse-move_red_left (node c k d (node _ _ _ _ _) leaf) h = cc
  traverse-move_red_left (node c k d (node _ _ _ _ _) (node _ _ _ leaf _)) h =
      ap traverse (sym (ok-injective h))
  traverse-move_red_left (node c k d (node _ _ _ _ _) (node _ _ _ (node false _ _ _ _) _)) h =
      ap traverse (sym (ok-injective h))
  traverse-move_red_left
        (node c k d (node lc lk ld ll lr) (node rc rk rd (node true xk xd xl xr) rr)) h =
      ap traverse (sym (ok-injective h))
      ∙ append_assoc (traverse ll ++ ((lk, ld) ∷ traverse lr)) ((k, d) ∷ traverse xl) _
      ∙ ap (λ xs. (traverse ll ++ ((lk, ld) ∷ traverse lr)) ++ ((k, d) ∷ xs))
          (sym (append_assoc (traverse xl) ((xk, xd) ∷ traverse xr) ((rk, rd) ∷ traverse rr)))

  pub traverse-lean_left :
      (t : Tree K D) {t' : Tree K D} → lean_left t ≡ ok t' → traverse t' ≡ traverse t
  unfolding lean_left
  traverse-lean_left leaf h = cc
  traverse-lean_left (node c k d leaf r) h = cc
  traverse-lean_left (node c k d (node true lk ld ll lr) r) h = ap traverse (sym (ok-injective h))
  traverse-lean_left (node c k d (node false lk ld ll lr) r) h = elim (Bool-cases (is_red ll)) [
    | inl e ↦ ap traverse (sym (ok-injective (rw e at h)))
    | inr e ↦ traverse-move_red_left (node c k d (node false lk ld ll lr) r) (rw e at h)
  ]

  pub traverse-lean_right :
      (t : Tree K D) {t' : Tree K D} → lean_right t ≡ ok t' → traverse t' ≡ traverse t
  unfolding lean_right
  traverse-lean_right leaf h = cc
  traverse-lean_right (node c k d l leaf) h = cc
  traverse-lean_right (node c k d l (node true rk rd rl rr)) h = ap traverse (sym (ok-injective h))
  traverse-lean_right (node c k d l (node false rk rd rl rr)) h = elim (Bool-cases (is_red rl)) [
    | inl e ↦ ap traverse (sym (ok-injective (rw e at h)))
    | inr e ↦ traverse-move_red_left (node c k d l (node false rk rd rl rr)) (rw e at h)
  ]

  pub traverse-turn_right :
      (t : Tree K D) {t' : Tree K D} → turn_right t ≡ ok t' → traverse t' ≡ traverse t
  unfolding turn_right
  traverse-turn_right leaf h = cc
  traverse-turn_right (node c k d l r) h = elim (Bool-cases (is_red l)) [
    | inl e ↦ traverse-rot_right (node c k d l r) (rw e at h)
    | inr e ↦ ap traverse (sym (ok-injective (rw e at h)))
  ]
