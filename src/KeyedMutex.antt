-- ===== src/KeyedMutex.antt =====
-- pkg/upgrade/util.go: `KeyedMutex`, a mutex for each key, and the goroutines that wait for one or
-- hold one. `sync.Map` and `sync.Mutex` are of Go's standard library; each of their methods is one
-- step, and between the two that `Lock` calls other goroutines may run.
pub mod Exclusion
use k8s_operator_libs.Prelude.{
  ℕ, ◌+◌, String, ◌≡◌, Bool, true, false, ◌&&◌, Option, none, some, List, [], ◌∷◌, ◌++◌, leb,
  if◌then◌else◌,
}
use k8s_operator_libs.StringMap.{StringMap, lookup, insert}

-- A mutex is known by its number, its address; `made` mutexes have been made so far.
pub record KeyedMutex : Type 0 where
  pub mutexes : StringMap ℕ
  pub made : ℕ
  pub is_locked : ℕ → Bool

infix 50 ◌==ℕ◌
abbrev pub ◌==ℕ◌ : ℕ → ℕ → Bool
a ==ℕ b = leb a b && leb b a

-- `LoadOrStore(key, &sync.Mutex{})`: a new mutex is made in any case, and the key keeps its own.
unfoldable pub load_or_store : String → KeyedMutex → ℕ × KeyedMutex
load_or_store key m = elim (lookup key m.mutexes) [
  | none ↦ (m.made, record m { mutexes = insert key m.made m.mutexes; made = m.made + 1 })
  | some mutex ↦ (mutex, record m { made = m.made + 1 })
]

-- `mtx.Lock()`: it waits, `none`, as long as the mutex is locked.
unfoldable pub lock : ℕ → KeyedMutex → Option KeyedMutex
lock mutex m =
    if m.is_locked mutex
    then none
    else some
        (record m { is_locked = λ other. if other ==ℕ mutex then true else m.is_locked other })

-- `mtx.Unlock()`, which the returned function calls.
unfoldable pub unlock : ℕ → KeyedMutex → KeyedMutex
unlock mutex m = record m {
  is_locked = λ other. if other ==ℕ mutex then false else m.is_locked other;
}

-- A goroutine between the two steps of `Lock`, or after it: the key and the mutex that it has loaded.
pub record Caller : Type 0 where
  pub key : String
  pub mutex : ℕ

pub data Step
    : KeyedMutex → List Caller → List Caller → KeyedMutex → List Caller → List Caller → Type 0 where
  load :
      (key : String) (m : KeyedMutex) (waiting holding : List Caller)
      → Step m waiting holding
          (load_or_store key m).1
          (record { key = key; mutex = (load_or_store key m).0 } ∷ waiting)
          holding
  acquire :
      (caller : Caller) (m m' : KeyedMutex) (before after holding : List Caller)
      → lock caller.mutex m ≡ some m'
      → Step m (before ++ caller ∷ after) holding m' (before ++ after) (caller ∷ holding)
  release :
      (caller : Caller) (m : KeyedMutex) (waiting before after : List Caller)
      → Step m waiting (before ++ caller ∷ after) (unlock caller.mutex m) waiting (before ++ after)

pub data Reachable : KeyedMutex → List Caller → List Caller → Type 0 where
  start : Reachable (record { mutexes = []; made = 0; is_locked = λ _. false }) [] []
  next :
      (m m' : KeyedMutex) (waiting holding waiting' holding' : List Caller)
      → Reachable m waiting holding
      → Step m waiting holding m' waiting' holding'
      → Reachable m' waiting' holding'
