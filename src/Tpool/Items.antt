-- ===== src/Tpool/Items.antt =====
-- `alloc_work_item` and `free_work_item` of src/tpool.c: the list of work items that are kept for
-- later use. `W` are the items; the list is `wpool`, the newest first.
use libresman.Base.{
  ℕ, ◌≤◌, ◌<◌, ◌≡◌, false, Option, some, List, [], ◌∷◌, length, if◌then◌else◌, leb, arith, inl, inr,
  Bool-cases, List-cases, ap, ◌∙◌,
}
use libresman.Tpool.{inc32, dec32}

pub record Wpool {ℓ} (W : Type ℓ) : Type ℓ where
  pub wpool : List W
  pub wpool_size : ℕ

-- `MAX_WPOOL_SIZE`
abbrev pub max_wpool_size : ℕ
max_wpool_size = 64

-- A call of one of the two functions.
pub data Call {ℓ} (W : Type ℓ) : Type ℓ where
  alloc : Option W → Call W
  release : W → Call W

module _ {ℓ} {W : Type ℓ} where
  -- `fresh` is what `malloc` gives.
  unfoldable pub alloc_work_item : Option W → Wpool W → Option W × Wpool W
  alloc_work_item fresh s = elim s.wpool [
    | [] ↦ (fresh, s)
    | w ∷ ws ↦ (some w, record { wpool = ws; wpool_size = dec32 s.wpool_size })
  ]

  -- The items that go to `free` come with the new list.
  unfoldable pub free_work_item : W → Wpool W → Wpool W × List W
  free_work_item w s =
      if leb max_wpool_size s.wpool_size
      then (s, w ∷ [])
      else (record { wpool = w ∷ s.wpool; wpool_size = inc32 s.wpool_size }, [])

  abbrev pub call : Call W → Wpool W → Wpool W
  call (alloc fresh) s = (alloc_work_item fresh s).1
  call (release w) s = (free_work_item w s).0

  abbrev pub all_calls : List (Call W) → Wpool W → Wpool W
  all_calls [] s = s
  all_calls (c ∷ cs) s = all_calls cs (call c s)

  pub record IsBounded (s : Wpool W) : Type ℓ where
    pub counted : s.wpool_size ≡ length s.wpool
    pub bounded : length s.wpool ≤ max_wpool_size

  call-IsBounded : (c : Call W) (s : Wpool W) → IsBounded s → IsBounded (call c s)
  unfolding alloc_work_item free_work_item
  call-IsBounded (alloc fresh) s b = elim (List-cases s.wpool) [
    | inl empty ↦ rw empty (record { counted = b.counted ∙ ap length empty; bounded = omega arith })
    | inr (w, ws, some_kept) ↦ rw some_kept (record {
      counted = omega (arith, b.counted, b.bounded, ap length some_kept);
      bounded = omega (arith, b.bounded, ap length some_kept);
    })
  ]
  call-IsBounded (release w) s b = elim (Bool-cases (leb max_wpool_size s.wpool_size)) [
    | inl full ↦ rw (call, full) b
    | inr room ↦
        rw (call, room)
          (record {
            counted = omega (arith, b.counted, b.bounded);
            bounded = ground (arith, b.counted);
          })
  ]

  -- After any sequence of calls the list holds as many items as `wpool_size` says, at most
  -- `MAX_WPOOL_SIZE`.
  pub all_calls-IsBounded :
      (cs : List (Call W)) (s : Wpool W) → IsBounded s → IsBounded (all_calls cs s)
  all_calls-IsBounded [] s b = b
  all_calls-IsBounded (c ∷ cs) s b = all_calls-IsBounded cs (call c s) (call-IsBounded c s b)

  -- While there is room, an item that is freed is the next one to be given out, which brings the
  -- list back to where it was.
  pub alloc_work_item-free_work_item :
      (w : W) (s : Wpool W) (fresh : Option W)
      → IsBounded s
      → s.wpool_size < max_wpool_size
      → alloc_work_item fresh (free_work_item w s).0 ≡ (some w, s)
  unfolding alloc_work_item free_work_item
  alloc_work_item-free_work_item w s fresh b room =
      let e : leb max_wpool_size s.wpool_size ≡ false = ground arith in
      rw e (ap (λ n. (some w, record s { wpool_size = n })) (omega arith))
