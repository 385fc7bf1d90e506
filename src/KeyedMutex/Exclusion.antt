-- ===== src/KeyedMutex/Exclusion.antt =====
-- Who holds the mutex of a key of `KeyedMutex`, in pkg/upgrade/util.go.
use mathlib.Core.Option.{some_inj}
use mathlib.Core.Path.{subst}
use mathlib.Core.List.Memᴰ.{append_left, append_right, append_cases}
use k8s_operator_libs.Prelude.{
  ℕ, ◌+◌, ◌≤◌, String, ◌≡◌, refl, sym, ap, ◌∙◌, inl, inr, Bool, true, false, Bool-cases, Option,
  none, some, List, [], ◌∷◌, ◌++◌, Memᴰ, arith, ◌==◌, eq_iff, count_if, count_if-append,
  if◌then◌else◌,
}
use k8s_operator_libs.StringMap.{lookup, insert, lookup-insert_same, lookup-insert_other}
use k8s_operator_libs.KeyedMutex.{
  KeyedMutex, ◌==ℕ◌, load_or_store, lock, unlock, Caller, Step, Reachable,
}

abbrev has_mutex : ℕ → Caller → Bool
has_mutex mutex caller = mutex ==ℕ caller.mutex

abbrev has_key : String → Caller → Bool
has_key name caller = caller.key == name

-- A caller has loaded the mutex of its key.
abbrev HasOwn : KeyedMutex → Caller → Type 0
HasOwn m caller = lookup caller.key m.mutexes ≡ some caller.mutex

-- Every caller has loaded the mutex of its key, and a mutex is locked while one caller holds it.
record IsExclusive (m : KeyedMutex) (waiting holding : List Caller) : Type 0 where
  waits : (caller : Caller) → Memᴰ caller waiting → HasOwn m caller
  holds : (caller : Caller) → Memᴰ caller holding → HasOwn m caller
  one : (mutex : ℕ) → count_if (has_mutex mutex) holding ≡ (if m.is_locked mutex then 1 else 0)

-- What `LoadOrStore` does: the key has the mutex that is returned, and no other key another one.
record Loaded (key : String) (m : KeyedMutex) (r : ℕ × KeyedMutex) : Type 0 where
  own : lookup key r.1.mutexes ≡ some r.0
  keeps :
      (other : String) (mutex : ℕ)
      → lookup other m.mutexes ≡ some mutex
      → lookup other r.1.mutexes ≡ some mutex
  same_locks : r.1.is_locked ≡ m.is_locked

load_or_store-Loaded : (key : String) (m : KeyedMutex) → Loaded key m (load_or_store key m)
unfolding load_or_store
load_or_store-Loaded key m = loaded (lookup key m.mutexes) refl
  where
    loaded :
        (found : Option ℕ)
        → lookup key m.mutexes ≡ found
        → Loaded key m (elim found as (λ _. ℕ × KeyedMutex) [
          | none ↦ (m.made, record m { mutexes = insert key m.made m.mutexes; made = m.made + 1 })
          | some mutex ↦ (mutex, record m { made = m.made + 1 })
        ])
    loaded (some mutex) e = record { own = e; keeps = λ other own k. k; same_locks = refl }
    loaded none e = record {
      own = lookup-insert_same key m.made m.mutexes;
      keeps = λ other mutex k. elim (Bool-cases (key == other)) [
        | inl same ↦
            (let nothing =
                subst (λ name. lookup name m.mutexes ≡ none) ((eq_iff key other).0 same) e in
              cc)
        | inr distinct ↦ lookup-insert_other key other m.made m.mutexes distinct ∙ k
      ];
      same_locks = refl;
    }

load-IsExclusive :
    (key : String) (m : KeyedMutex) (waiting holding : List Caller)
    → IsExclusive m waiting holding
    → IsExclusive
        (load_or_store key m).1
        (record { key = key; mutex = (load_or_store key m).0 } ∷ waiting)
        holding
load-IsExclusive key m waiting holding k =
    let loaded = load_or_store-Loaded key m in
    record {
      waits = λ caller mem. elim mem [
        | Memᴰ.head e ↦ subst (HasOwn (load_or_store key m).1) (sym e) loaded.own
        | Memᴰ.tail later ↦ loaded.keeps caller.key caller.mutex (k.waits caller later)
      ];
      holds = λ caller mem. loaded.keeps caller.key caller.mutex (k.holds caller mem);
      one =
          λ mutex. k.one mutex ∙ ap (λ locks. if locks mutex then 1 else 0) (sym loaded.same_locks);
    }

went_through :
    (waits : Bool) (x y : KeyedMutex)
    → ◌≡◌ {A = Option KeyedMutex} (if waits then none else some x) (some y)
    → (waits ≡ false) × (x ≡ y)
went_through true x y e = cc
went_through false x y e = (refl, some_inj.0 e)

acquire-IsExclusive :
    (caller : Caller) (m m' : KeyedMutex) (before after holding : List Caller)
    → lock caller.mutex m ≡ some m'
    → IsExclusive m (before ++ caller ∷ after) holding
    → IsExclusive m' (before ++ after) (caller ∷ holding)
unfolding lock
acquire-IsExclusive caller m m' before after holding e k =
    let (free, same) = went_through (m.is_locked caller.mutex) _ m' e in
    subst (λ n. IsExclusive n (before ++ after) (caller ∷ holding)) same
      (record {
        waits = λ other mem. k.waits other (elim (append_cases before mem) [
          | inl early ↦ append_left (caller ∷ after) early
          | inr late ↦ append_right before (Memᴰ.tail late)
        ]);
        holds = λ other mem. elim mem [
          | Memᴰ.head e' ↦
              subst (HasOwn m) (sym e') (k.waits caller (append_right before (Memᴰ.head refl)))
          | Memᴰ.tail old ↦ k.holds other old
        ];
        one = λ mutex.
            let before' = k.one mutex in
            elim (Bool-cases (mutex ==ℕ caller.mutex)) [
              | inl here ↦
                  (let at : mutex ≡ caller.mutex = ground arith in
                    let free' = subst (λ n. m.is_locked n ≡ false) (sym at) free in ground arith)
              | inr elsewhere ↦ ground arith
            ];
      })

release-IsExclusive :
    (caller : Caller) (m : KeyedMutex) (waiting before after : List Caller)
    → IsExclusive m waiting (before ++ caller ∷ after)
    → IsExclusive (unlock caller.mutex m) waiting (before ++ after)
unfolding unlock
release-IsExclusive caller m waiting before after k = record {
  waits = k.waits;
  holds = λ other mem. k.holds other (elim (append_cases before mem) [
    | inl early ↦ append_left (caller ∷ after) early
    | inr late ↦ append_right before (Memᴰ.tail late)
  ]);
  one = λ mutex.
      let all = k.one mutex in
      let split = count_if-append (has_mutex mutex) before (caller ∷ after) in
      let rest = count_if-append (has_mutex mutex) before after in ground arith;
}

Step-IsExclusive :
    (m : KeyedMutex) (waiting holding : List Caller) (m' : KeyedMutex)
    (waiting' holding' : List Caller)
    → Step m waiting holding m' waiting' holding'
    → IsExclusive m waiting holding
    → IsExclusive m' waiting' holding'
Step-IsExclusive _ _ _ _ _ _ (Step.load key m waiting holding) k =
    load-IsExclusive key m waiting holding k
Step-IsExclusive _ _ _ _ _ _ (Step.acquire caller m m' before after holding e) k =
    acquire-IsExclusive caller m m' before after holding e k
Step-IsExclusive _ _ _ _ _ _ (Step.release caller m waiting before after) k =
    release-IsExclusive caller m waiting before after k

Reachable-IsExclusive :
    (m : KeyedMutex) (waiting holding : List Caller)
    → Reachable m waiting holding
    → IsExclusive m waiting holding
Reachable-IsExclusive _ _ _ Reachable.start = record {
  waits = λ caller mem. elim mem [ ];
  holds = λ caller mem. elim mem [ ];
  one = λ mutex. refl;
}
Reachable-IsExclusive _ _ _ (Reachable.next m m' waiting holding waiting' holding' before step) =
    Step-IsExclusive m waiting holding m' waiting' holding' step
      (Reachable-IsExclusive m waiting holding before)

-- Callers that have loaded the mutex of one key have the same mutex.
same_key-same_mutex :
    (m : KeyedMutex) (name : String) (mutex : ℕ) (callers : List Caller)
    → lookup name m.mutexes ≡ some mutex
    → ((caller : Caller) → Memᴰ caller callers → HasOwn m caller)
    → count_if (has_key name) callers ≤ count_if (has_mutex mutex) callers
same_key-same_mutex m name mutex [] own k = omega arith
same_key-same_mutex m name mutex (c ∷ rest) own k =
    let later =
      same_key-same_mutex m name mutex rest own (λ caller mem. k caller (Memᴰ.tail mem)) in
    elim (Bool-cases (c.key == name)) [
      | inl here ↦
          (let same : mutex ≡ c.mutex = some_inj.0 (
              sym own
              ∙ ap (λ n. lookup n m.mutexes) (sym ((eq_iff c.key name).0 here))
              ∙ k c (Memᴰ.head refl)) in
            ground arith)
      | inr elsewhere ↦ ground arith
    ]

-- A key that no caller has loaded has no caller.
none_with_key :
    (m : KeyedMutex) (name : String) (callers : List Caller)
    → lookup name m.mutexes ≡ none
    → ((caller : Caller) → Memᴰ caller callers → HasOwn m caller)
    → count_if (has_key name) callers ≡ 0
none_with_key m name [] nothing k = refl
none_with_key m name (c ∷ rest) nothing k =
    let later = none_with_key m name rest nothing (λ caller mem. k caller (Memᴰ.tail mem)) in
    elim (Bool-cases (c.key == name)) [
      | inl here ↦
          (let own = k c (Memᴰ.head refl) in
            let same = ap (λ n. lookup n m.mutexes) ((eq_iff c.key name).0 here) in cc)
      | inr elsewhere ↦ ground arith
    ]

-- However goroutines load, lock and unlock the mutexes of keys, in whatever order and with others in
-- between the two steps of `Lock`: at most one goroutine holds the mutex of a key.
pub one_holder_at_most :
    (m : KeyedMutex) (waiting holding : List Caller) (name : String)
    → Reachable m waiting holding
    → count_if (λ caller. caller.key == name) holding ≤ 1
one_holder_at_most m waiting holding name reachable =
    let k = Reachable-IsExclusive m waiting holding reachable in
    bounded (lookup name m.mutexes) refl k
  where
    bounded :
        (found : Option ℕ)
        → lookup name m.mutexes ≡ found
        → IsExclusive m waiting holding
        → count_if (has_key name) holding ≤ 1
    bounded (some mutex) e k =
        let same = same_key-same_mutex m name mutex holding e k.holds in
        let one = k.one mutex in ground arith
    bounded none e k = let nobody = none_with_key m name holding e k.holds in omega arith
