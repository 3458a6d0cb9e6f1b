-- ===== src/Daemon/Locks.antt =====
-- Who holds a repository's lock (`acquireFor`, `transferRepositoryLock` and `releaseRepositoryLock`
-- of src/runtime/broker-daemon.ts). Taking and giving back the lock itself is
-- src/runtime/repository-lock.ts: here it succeeds or throws.
use agent_orchestration_star.Base.{
  if◌then◌else◌, ◌==◌, nat_eq, string_eq, option_eq, is_some, elem, lookup, insert, get_or, add,
  remove, Result, ok, err, String, ◌≡◌, Bool, true, false, not, Option, none, some, List, [], ◌∷◌,
}

-- The repositories whose lock the daemon has, and the holders of each.
pub record Locks : Type 0 where
  pub locks : List (String × Unit {0})
  pub holders : List (String × List String)

pub data LockError : Type 0 where
  holders_missing transfer_invalid lock_busy lock_not_released : LockError

-- `map.delete(key)`.
unfoldable pub erase {ℓ} : {V : Type ℓ} → String → List (String × V) → List (String × V)
erase key [] = []
erase key ((other, value) ∷ rest) =
    let kept = erase key rest in if other == key then kept else (other, value) ∷ kept

abbrev pub is_empty : List String → Bool
is_empty [] = true
is_empty (x ∷ xs) = false

-- What the daemon has of a repository decides each operation.
abbrev pub acquire_with :
    Bool
    → Locks
    → String
    → String
    → Option (Unit {0})
    → Option (List String)
    → Locks × Result LockError (Unit {0})
acquire_with acquires s repository holder (some lock) none = (s, err holders_missing)
acquire_with acquires s repository holder (some lock) (some holders) =
    (record s { holders = insert repository (add holder holders) s.holders }, ok tt)
acquire_with true s repository holder none holders = (
  record {
    locks = insert repository tt s.locks;
    holders = insert repository (holder ∷ []) s.holders;
  },
  ok tt,
)
acquire_with false s repository holder none holders = (s, err lock_busy)

unfoldable pub acquire_for : Bool → Locks → String → String → Locks × Result LockError (Unit {0})
unfolding lookup insert
acquire_for acquires s repository holder =
    acquire_with acquires s repository holder (lookup repository s.locks)
      (lookup repository s.holders)

abbrev pub transfer_with :
    Locks → String → String → String → Option (List String) → Locks × Result LockError (Unit {0})
transfer_with s repository from to none = (s, err transfer_invalid)
transfer_with s repository from to (some holders) =
    if not (elem from holders)
    then (s, err transfer_invalid)
    else (record s { holders = insert repository (add to (remove from holders)) s.holders }, ok tt)

unfoldable pub transfer_repository_lock :
    Locks → String → String → String → Locks × Result LockError (Unit {0})
unfolding lookup insert
transfer_repository_lock s repository from to =
    transfer_with s repository from to (lookup repository s.holders)

-- The last holder to leave gives the lock back; where that throws, its set is already empty.
unfoldable pub release_holder :
    Bool → Locks → String → String → List String → Locks × Result LockError (Unit {0})
unfolding insert erase
release_holder releases s repository holder holders =
    let left = remove holder holders in
    if not (is_empty left)
    then (record s { holders = insert repository left s.holders }, ok tt)
    else (if releases
        then (
          record { locks = erase repository s.locks; holders = erase repository s.holders },
          ok tt,
        )
        else (record s { holders = insert repository left s.holders }, err lock_not_released))

abbrev pub release_with :
    Bool
    → Locks
    → String
    → String
    → Option (Unit {0})
    → Option (List String)
    → Locks × Result LockError (Unit {0})
release_with releases s repository holder lock none = (s, ok tt)
release_with releases s repository holder none (some holders) = (s, ok tt)
release_with releases s repository holder (some lock) (some holders) =
    if not (elem holder holders)
    then (s, ok tt)
    else release_holder releases s repository holder holders

unfoldable pub release_repository_lock :
    Bool → Locks → String → String → Locks × Result LockError (Unit {0})
unfolding lookup release_holder
release_repository_lock releases s repository holder =
    release_with releases s repository holder (lookup repository s.locks)
      (lookup repository s.holders)

-- The holders of a repository's lock.
abbrev pub holders_of : Locks → String → List String
holders_of s repository = get_or (lookup repository s.holders) []

-- A lock that the daemon has is one with a holder.
abbrev pub IsHeld : Locks → Type 0
IsHeld s =
    (repository : String)
    → is_some (lookup repository s.locks) ≡ not (is_empty (holders_of s repository))

-- A step on the locks.
pub data LockStep : Type 0 where
  acquire : Bool → String → String → LockStep
  transfer : String → String → String → LockStep
  release : String → String → LockStep

-- Each step, the lock being given back where the last holder leaves.
abbrev pub lock_step : Locks → LockStep → Locks × Result LockError (Unit {0})
lock_step s (acquire acquires repository holder) = acquire_for acquires s repository holder
lock_step s (transfer repository from to) = transfer_repository_lock s repository from to
lock_step s (release repository holder) = release_repository_lock true s repository holder
