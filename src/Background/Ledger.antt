-- ===== src/Background/Ledger.antt =====
-- A set of busy names that agrees with a list of tasks: each busy name has one task, the others none.
use k8s_operator_libs.Prelude.{
  String, ◌≡◌, refl, Bool, false, Bool-cases, inl, inr, List, [], ◌∷◌, ◌++◌, arith, ◌==◌, eq_iff,
  count_if, count_if-append, if◌then◌else◌,
}
use mathlib.Core.Path.{subst}
use k8s_operator_libs.StringSet.{StringSet, StringSet-set_laws, add, remove, has, new_string_set}

module _ {T : Type 0} (name_of : T → String) where
  abbrev pub is_task_of : String → T → Bool
  is_task_of name task = name_of task == name

  pub record Agrees (busy : StringSet) (tasks : List T) : Type 0 where
    pub count :
        (name : String) → count_if (is_task_of name) tasks ≡ (if has name busy then 1 else 0)

  pub Agrees-empty : Agrees new_string_set []
  Agrees-empty = record {
    count =
        λ name. let nothing = (StringSet-set_laws name name new_string_set).0 in rw nothing refl;
  }

  -- A name that is not busy becomes busy with one task.
  pub Agrees-add :
      (busy : StringSet) (tasks : List T) (task : T)
      → has (name_of task) busy ≡ false
      → Agrees busy tasks
      → Agrees (add (name_of task) busy) (tasks ++ task ∷ [])
  Agrees-add busy tasks task idle k = record {
    count = λ name.
        let added = (StringSet-set_laws (name_of task) name busy).1 in
        let split = count_if-append (is_task_of name) tasks (task ∷ []) in
        elim (Bool-cases (name_of task == name)) [
          | inl same ↦
              (let idle' =
                  subst (λ n. has n busy ≡ false) ((eq_iff (name_of task) name).0 same) idle in
                let before = k.count name in ground arith)
          | inr other ↦ (let before = k.count name in ground arith)
        ];
  }

  -- A task that ends leaves its name idle.
  pub Agrees-remove :
      (busy : StringSet) (before after : List T) (task : T)
      → Agrees busy (before ++ task ∷ after)
      → Agrees (remove (name_of task) busy) (before ++ after)
  Agrees-remove busy before after task k = record {
    count = λ name.
        let removed = (StringSet-set_laws (name_of task) name busy).2 in
        let split = count_if-append (is_task_of name) before (task ∷ after) in
        let rest = count_if-append (is_task_of name) before after in
        let all = k.count name in ground arith;
  }
