-- ===== src/Watchdirs/Lost.antt =====
-- Which watches are lost when one is stopped, in src/filewatch_win32.c.
use libresman.Base.{
  ℕ, ◌-◌, ◌^◌, ◌≤◌, ◌<◌, ◌≡◌, ◌≢◌, refl, ap, ◌∙◌, Bool, true, false, some, List, [], ◌∷◌, ◌++◌, ok,
  ◌==◌, get_elem?, set, get_elem?-set_self, arith,
}
use libresman.Rbtree.Api.{rb_find}
use libresman.Tpool.{dec32}
use libresman.Resman.{Resource, CString}
use libresman.Resman.Owed.{lt-of-get_elem?}
use libresman.Watchdirs.{WatchDir, Watchdirs}
use libresman.Watchdirs.Stop.{
  stop_watch, stop_path, stop_found, leave_dir, drop_item, behind_item, last_ref,
}

-- The resource `res` is not among the items.
abbrev pub Lacks : ℕ → List ℕ → Type 0
Lacks res [] = Unit
Lacks res (i ∷ items) = (i ≢ res) × Lacks res items

differ : (i res : ℕ) → i ≢ res → (i == res) ≡ false
differ i res ne = ground (arith, ne)

self : (i : ℕ) → (i == i) ≡ true
self i = ground arith

behind_item-found :
    (res : ℕ) (between rest : List ℕ)
    → Lacks res between
    → behind_item res (between ++ res ∷ rest) ≡ some rest
unfolding behind_item
behind_item-found res [] rest l = rw (self res) refl
behind_item-found res (i ∷ between) rest (ne, l) =
    rw (differ i res ne) (behind_item-found res between rest l)

drop_item-found :
    (res first : ℕ) (between rest : List ℕ)
    → first ≢ res
    → Lacks res between
    → drop_item res (first ∷ (between ++ res ∷ rest)) ≡ ok (first ∷ rest)
unfolding drop_item
drop_item-found res first between rest ne l =
    rw (differ first res ne, behind_item-found res between rest l) refl

-- When a directory has two references or more and the watch of a resource in it is stopped that is not
-- the newest, then with the item of the resource all those items go from the list that stand between
-- it and the newest, whatever resources they are for: only the newest and the older ones are left, so
-- that a resource that is none of these is not among the items any more. The directory stays, with
-- one reference less.
pub stop_watch-lost {ℓ} :
    {D : Type ℓ} (mem : ℕ → Bool) (i : ℕ) (r : Resource D) (w : Watchdirs) (path : CString) (d : ℕ)
    (wdir : WatchDir) (first : ℕ) (between rest : List ℕ)
    → r.watch_path ≡ some path
    → rb_find w.watchdirs path ≡ some d
    → get_elem? w.dirs d ≡ some (some wdir)
    → wdir.items ≡ first ∷ (between ++ i ∷ rest)
    → first ≢ i
    → Lacks i between
    → 2 ≤ wdir.nref
    → wdir.nref < 2 ^ 31
    → (w' : Watchdirs) × (stop_watch mem i r w ≡ ok w')
      × (get_elem? w'.dirs d
          ≡ some (some (record wdir { items = first ∷ rest; nref = wdir.nref - 1 })))
unfolding stop_watch stop_path stop_found leave_dir
stop_watch-lost mem i r w path d wdir first between rest watched found here listed ne l two small =
    let more : last_ref wdir ≡ false = ground (arith, two, small) in
    let less : dec32 wdir.nref ≡ wdir.nref - 1 = omega (arith, two, small) in
    let left : WatchDir = record wdir { items = first ∷ rest; nref = dec32 wdir.nref } in
    let dropped : drop_item i wdir.items ≡ ok (first ∷ rest) =
      ap (drop_item i) listed ∙ drop_item-found i first between rest ne l in
    (
      record w { dirs = set w.dirs d (some left) },
      rw (watched, found, here, more, dropped) refl,
      get_elem?-set_self w.dirs d (some left) (lt-of-get_elem? w.dirs d (some wdir) here)
          ∙ ap (λ n. some (some (record wdir { items = first ∷ rest; nref = n }))) less,
    )
