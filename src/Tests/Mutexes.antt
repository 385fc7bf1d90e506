-- ===== src/Tests/Mutexes.antt =====
-- Two goroutines that lock the same key: one holds its mutex, the other waits for it.
use k8s_operator_libs.StringMap.{insert, lookup}
use k8s_operator_libs.Prelude.{
  if◌then◌else◌, true, ◌≡◌, ◌≤◌, refl, false, some, [], ◌∷◌, ◌==◌, count_if,
}
use k8s_operator_libs.KeyedMutex.{KeyedMutex, ◌==ℕ◌, load_or_store, lock, Caller, Step, Reachable}
use k8s_operator_libs.KeyedMutex.Exclusion.{one_holder_at_most}

abbrev idle : KeyedMutex
idle = record { mutexes = []; made = 0; is_locked = λ _. false }

abbrev first : Caller
first = record { key = "a"; mutex = (load_or_store "a" idle).0 }

abbrev once : KeyedMutex
once = (load_or_store "a" idle).1

abbrev second : Caller
second = record { key = "a"; mutex = (load_or_store "a" once).0 }

abbrev twice : KeyedMutex
twice = (load_or_store "a" once).1

same_mutex : second.mutex ≡ first.mutex
unfolding load_or_store lookup insert
same_mutex = refl

abbrev a_locked : KeyedMutex
a_locked = record twice { is_locked = λ mutex. if mutex ==ℕ first.mutex then true else false }

a_acquired : lock first.mutex twice ≡ some a_locked
unfolding load_or_store lock lookup insert
a_acquired = refl

both_loaded : Reachable twice (second ∷ first ∷ []) []
both_loaded =
    Reachable.next once twice (first ∷ []) [] (second ∷ first ∷ []) []
      (Reachable.next idle once [] [] (first ∷ []) [] Reachable.start (Step.load "a" idle [] []))
      (Step.load "a" once (first ∷ []) [])

one_holder_at_most_example : count_if (λ caller. caller.key == "a") (first ∷ []) ≤ 1
one_holder_at_most_example = one_holder_at_most a_locked (second ∷ []) (first ∷ []) "a" (
    Reachable.next twice a_locked (second ∷ first ∷ []) [] (second ∷ []) (first ∷ []) both_loaded
      (Step.acquire first twice a_locked (second ∷ []) [] [] a_acquired))
