-- ===== src/Resman/Setup.antt =====
-- `resman_init`, `resman_destroy` and the options of src/resman.c, and the references to the shared
-- thread pool that they take and give back in src/tpool.c. What `resman_init` allocates is the pool,
-- the array of descriptors and the table; the file monitor is `monitor`.
use libresman.Base.{
  ℕ, zero, suc, ◌+◌, ◌-◌, ◌^◌, Bool, true, false, ◌||◌, Option, none, some, List, [], ◌∷◌, Exec, ok,
  null_deref, if◌then◌else◌, ◌==◌, ltb, set, get_elem?,
}
use libresman.Base.Int.{ℤ, pos, negsuc}
use libresman.Base.Outcome.{◌>>=◌}
use libresman.Dynarr.{Dynarr, dynarr_alloc, dynarr_push, dynarr_size}
use libresman.Tpool.{inc32, dec32}
use libresman.Resman.{Resource, Resman, item_at}
use libresman.Resman.Sweep.{call_destroy}

-- What `resman_init` and `resman_destroy` use of `struct resman_thread_pool`: the references to it, and
-- whether `resman_tpool_destroy` was called.
pub record SharedPool : Type 0 where
  pub nref : ℕ
  pub num_threads : ℕ
  pub destroyed : Bool

unfoldable pub tpool_addref : SharedPool → SharedPool
tpool_addref tpool = record tpool { nref = inc32 tpool.nref }

-- `--tpool->nref <= 0`
unfoldable pub tpool_release : SharedPool → SharedPool
tpool_release tpool =
    let nref = dec32 tpool.nref in
    if (nref == 0) || ltb (2 ^ 31 - 1) nref
    then record tpool { nref = nref; destroyed = true }
    else record tpool { nref = nref }

-- The number of threads: `env` is `RESMAN_THREADS` as `atoi` reads it.
abbrev pub at_least_one : ℤ → ℕ
at_least_one (pos n) = if ltb n 1 then 1 else n
at_least_one (negsuc n) = 1

-- What `resman_tpool_num_processors` gives, less one.
abbrev pub less_one : ℤ → ℤ
less_one (pos zero) = negsuc 0
less_one (pos (suc n)) = pos n
less_one (negsuc n) = negsuc (n + 1)

unfoldable pub thread_count : Option ℤ → ℤ → ℕ
thread_count none processors = at_least_one (less_one processors)
thread_count (some (negsuc n)) processors = at_least_one (less_one processors)
thread_count (some (pos n)) processors = if ltb n 1 then at_least_one (less_one processors) else n

-- The pool that `resman_init` goes on with: the one there is, or a new one, if it can be made.
unfoldable pub find_pool : Bool → Option ℤ → ℤ → Option SharedPool → Option SharedPool
find_pool can_create env processors (some tpool) = some tpool
find_pool can_create env processors none =
    if can_create
    then some (record { nref = 0; num_threads = thread_count env processors; destroyed = false })
    else none

-- `RESMAN_NUM_OPTIONS`
abbrev pub num_options : ℕ
num_options = 1

-- `struct resman` once more, with what is set up beside the table and the callbacks.
pub record Manager {ℓ κ} (D : Type ℓ) (W : Type κ) : Type (ℓ ⊔ κ) where
  pub rman : Resman D
  pub watched : W
  pub tpool_wait_fd : ℕ
  pub wait_fds : Dynarr ℕ
  pub options : List ℕ

module _ {ℓ} {D : Type ℓ} where
  unfoldable pub resman_set_destroy_func : Bool → Resman D → Resman D
  resman_set_destroy_func func rman = record rman { destroy_func = func }

  -- The loop of `resman_destroy`, with the slots from `i` left.
  unfoldable pub destroy_from : ℕ → ℕ → Resman D → Exec (Resman D)
  destroy_from i zero rman = ok rman
  destroy_from i (suc left) rman = do
    slot ← item_at rman.res i
    destroy_from (i + 1) left (elim slot [ none ↦ rman | some r ↦ call_destroy rman i ])

module _ {ℓ κ} {D : Type ℓ} {W : Type κ} where
  unfoldable pub resman_setopt : ℤ → ℕ → Manager D W → Manager D W
  resman_setopt (negsuc n) val m = m
  resman_setopt (pos opt) val m =
      if ltb opt num_options then record m { options = set m.options opt val } else m

  unfoldable pub resman_getopt : ℤ → Manager D W → Option ℕ
  resman_getopt (negsuc n) m = some 0
  resman_getopt (pos opt) m = if ltb opt num_options then get_elem? m.options opt else some 0

  -- `resman_init` behind the thread pool. `mem` grants memory, `wait_fd` is the pool's descriptor; a
  -- pointer takes eight bytes and a descriptor four.
  unfoldable pub init_manager :
      (ℕ → Bool) → ℕ → (Dynarr ℕ → Exec (Option (Dynarr ℕ × W))) → Exec (Option (Manager D W))
  init_manager mem wait_fd monitor = elim (dynarr_alloc {A = ℕ} mem 0 4) [
    | none ↦ ok none
    | some empty ↦ do
      wait_fds ← dynarr_push mem empty (some wait_fd)
      watch ← monitor wait_fds
      elim watch [
        | none ↦ ok none
        | some (wait_fds', watched) ↦ elim (dynarr_alloc {A = Option (Resource D)} mem 0 8) [
          | none ↦ ok none
          | some res ↦ ok (
              some (record {
                rman = record {
                  res = res;
                  tasks = 0;
                  jobs = [];
                  destroy_func = false;
                  destroyed = [];
                };
                watched = watched;
                tpool_wait_fd = wait_fd;
                wait_fds = wait_fds';
                options = 16 ∷ [];
              }))
        ]
      ]
  ]

  -- `resman_init`: the shared pool after it, and the manager; `none` for the latter is -1.
  unfoldable pub resman_init :
      Bool
      → Option ℤ
      → ℤ
      → (ℕ → Bool)
      → ℕ
      → (Dynarr ℕ → Exec (Option (Dynarr ℕ × W)))
      → Option SharedPool
      → Exec (Option SharedPool × Option (Manager D W))
  resman_init can_create env processors mem wait_fd monitor thread_pool =
      elim (find_pool can_create env processors thread_pool) [
        | none ↦ ok (none, none)
        | some tpool ↦ do m ← init_manager mem wait_fd monitor; ok (some (tpool_addref tpool), m)
      ]

  -- `resman_destroy`: the calls of `destroy_func` that were made, and the shared pool after it.
  unfoldable pub resman_destroy :
      Manager D W → Option SharedPool → Exec (List ℕ × Option SharedPool)
  resman_destroy m none = null_deref
  resman_destroy m (some tpool) = do
    rman ← destroy_from 0 (dynarr_size m.rman.res) m.rman
    ok (rman.destroyed, some (tpool_release tpool))

  -- `resman_create`: `alloc` says whether there is memory for the manager, which is not tested.
  unfoldable pub resman_create :
      Bool
      → Bool
      → Option ℤ
      → ℤ
      → (ℕ → Bool)
      → ℕ
      → (Dynarr ℕ → Exec (Option (Dynarr ℕ × W)))
      → Option SharedPool
      → Exec (Option SharedPool × Option (Manager D W))
  unfolding resman_init
  resman_create alloc can_create env processors mem wait_fd monitor thread_pool =
      elim (find_pool can_create env processors thread_pool) [
        | none ↦ ok (none, none)
        | some tpool ↦
            if alloc
            then resman_init can_create env processors mem wait_fd monitor (some tpool)
            else null_deref
      ]

  -- `resman_free`; a null pointer is `none`.
  unfoldable pub resman_free :
      Option (Manager D W) → Option SharedPool → Exec (List ℕ × Option SharedPool)
  unfolding resman_destroy
  resman_free none thread_pool = ok ([], thread_pool)
  resman_free (some m) thread_pool = resman_destroy m thread_pool
