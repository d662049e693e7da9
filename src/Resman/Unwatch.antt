-- ===== src/Resman/Unwatch.antt =====
-- src/filewatch_linux.c as the file watch of src/resman.c, and what stopping the last watch does.
use Prim.Native.Nat.Ordering.{eq}
use libresman.Base.{
  ℕ, suc, ◌<◌, ◌≡◌, refl, sym, ap, ◌∙◌, Bool, true, false, Option, none, some, List, [], ◌∷◌, Exec,
  ok, null_deref, ltb, inl, inr, Bool-cases, if_true, if_false, arith,
}
use libresman.Base.Int.{ℤ, pos, sign}
use libresman.Base.Outcome.{◌>>=◌, ok_of_chain, ok-injective}
use libresman.Rbtree.{Keys, freed, leaf, node, insert, blacken, count_nodes}
use libresman.Rbtree.Removal.{delete, delete_step, descend_right}
use libresman.Rbtree.Api.{Rbtree, rb_insert, rb_delete}
use libresman.Rbtree.Keying.{
  rb_init, rb_inserti, rb_deletei, cmpint, int2ptr, ptr2int, init_cmp, key_int,
}
use libresman.Resman.{Resource, Resman, item_at}
use libresman.Resman.Watch.{Watch, remove_watched}
use libresman.Resman.Inotify.{Inotify, watch_file, start_watch, stop_watch, check_watch}

cmpint_self : (x : ℕ) → cmpint (int2ptr x) (int2ptr x) ≡ pos 0
unfolding cmpint ptr2int
cmpint_self x = ground arith

-- The map with one resource, and what the deletion of its only descriptor does.
abbrev alone : (ℕ → ℕ → ℤ) → ℕ → ℕ → Rbtree ℕ ℕ
alone strcmp fd i = record (rb_init strcmp key_int) { root = node false (int2ptr fd) i leaf leaf }

insert_alone :
    (strcmp : ℕ → ℕ → ℤ) (fd i : ℕ)
    → rb_inserti true (rb_init strcmp key_int) fd i ≡ ok (alone strcmp fd i)
unfolding rb_inserti rb_insert insert blacken rb_init
insert_alone strcmp fd i = refl

delete_single :
    (o : Keys ℕ) (fuel key i : ℕ)
    → sign (o.cmp key key) ≡ eq
    → delete o (suc fuel) false (node false key i leaf leaf) key
      ≡ ok (leaf, freed (some (key, i)) ∷ [])
unfolding delete delete_step descend_right
delete_single o fuel key i e = rw (e, delete_step) refl

delete_alone : (strcmp : ℕ → ℕ → ℤ) (fd i : ℕ) → rb_deletei (alone strcmp fd i) fd ≡ null_deref
unfolding rb_deletei rb_delete count_nodes blacken rb_init init_cmp
delete_alone strcmp fd i =
    rw
      (delete_single (rb_init {D = ℕ} strcmp key_int).keys 1 (int2ptr fd) i
        (ap sign (cmpint_self fd)))
      refl

module _ {ℓ} {D : Type ℓ} where
  abbrev Same : Resource D → Resource D → Type 0
  Same r r' = (r'.pending ≡ r.pending) × (r'.done_pending ≡ r.done_pending)

  flags_kept :
      (b s : Bool) (r r' : Resource D) (w w' : Inotify)
      → ◌≡◌ {A = Exec (Bool × Resource D × Inotify)} (ok (b, r, w)) (ok (s, r', w'))
      → Same r r'
  flags_kept b s r r' w w' h = (
    sym (ap (λ p. p.1.pending) (ok-injective h)),
    sym (ap (λ p. p.1.done_pending) (ok-injective h)),
  )

  watch_file-flags :
      (a : Option ℕ) (i : ℕ) (r : Resource D) (w : Inotify) (s : Bool) (r' : Resource D)
      (w' : Inotify)
      → watch_file a i r w ≡ ok (s, r', w')
      → Same r r'
  unfolding watch_file
  watch_file-flags none i r w s r' w' e = flags_kept false s r r' w w' e
  watch_file-flags (some fd) i r w s r' w' e =
      let (t, _, e1) = ok_of_chain (rb_inserti true w.nresmap fd i) _ e in
      flags_kept true s (record r { nfd = fd }) r' _ w' e1

  -- The call of `resman_start_watch`, as src/resman.c makes it: its result is not asked for.
  unfoldable pub try_watch : ℕ → Resource D → Inotify → Exec (Resource D × Inotify)
  try_watch i r w = do (s, r', w') ← start_watch i r w; ok (r', w')

  pub try_watch-flags :
      (i : ℕ) (r : Resource D) (w : Inotify) (r' : Resource D) (w' : Inotify)
      → try_watch i r w ≡ ok (r', w')
      → Same r r'
  unfolding try_watch start_watch
  try_watch-flags i r w r' w' e =
      let ((s, r1, w1), e0, e1) = ok_of_chain (start_watch i r w) _ e in
      let there : Same r r1 = elim (Bool-cases (ltb 0 r.nfd)) [
        | inl watched ↦ flags_kept true s r r1 w w1 (sym (if_true (ltb 0 r.nfd) _ _ watched) ∙ e0)
        | inr fresh ↦ watch_file-flags _ i r _ s r1 w1 (sym (if_false (ltb 0 r.nfd) _ _ fresh) ∙ e0)
      ] in
      let last = ok-injective e1 in
      (sym (ap (λ p. p.0.pending) last) ∙ there.0, sym (ap (λ p. p.0.done_pending) last) ∙ there.1)

  abbrev pub inotify_watch : Watch D Inotify
  inotify_watch = record {
    start_watch = try_watch;
    stop_watch = stop_watch;
    check_watch = check_watch;
    start_watch-flags = try_watch-flags;
  }

  -- When a resource that has no watch yet is the first to get one, with a descriptor that is positive,
  -- its removal, be it from the table's sweep or after a failed callback, goes through a null pointer:
  -- `resman_stop_watch` deletes the only entry of the map.
  pub remove_watched-alone :
      (strcmp : ℕ → ℕ → ℤ) (i fd : ℕ) (added : List (Option ℕ)) (r : Resource D) (w : Inotify)
      → w.nresmap ≡ rb_init strcmp key_int
      → w.added ≡ some fd ∷ added
      → r.nfd ≡ 0
      → 0 < fd
      → (r' : Resource D) × (w' : Inotify) × (inotify_watch.start_watch i r w ≡ ok (r', w'))
        × (r'.nfd ≡ fd)
        × ((rman : Resman D)
            → item_at rman.res i ≡ ok (some r')
            → remove_watched inotify_watch rman w' i ≡ null_deref)
  unfolding try_watch start_watch watch_file remove_watched stop_watch
  remove_watched-alone strcmp i fd added r w empty said fresh positive =
      let w' : Inotify = record w { nresmap = alone strcmp fd i; added = added } in
      (
        record r { nfd = fd },
        w',
        rw (fresh, said, empty, insert_alone strcmp fd i) refl,
        refl,
        λ rman here. rw (here, watched fd positive, delete_alone strcmp fd i) refl,
      )
    where
      watched : (fd : ℕ) → 0 < fd → ltb 0 fd ≡ true
      watched fd h = ground (arith, h)
